-- ===== src/Lib.antt =====
-- distwalk: a client, a node and a proxy that emulate distributed workloads. A client sends
-- messages, each a list of commands (compute, store, load, skip, forward, reply), to nodes, which
-- run them and forward what is left of a message to further nodes. This library models the parts
-- that the node and the client share, and proves them correct.
--
-- The parts, and the files that model them:
-- - src/message.c, src/message.h: Message. A message is the bytes of the buffer that it lies in, and
--   a pointer into it is an offset, so that a read or write outside the buffer is a fault. The
--   functions have the names of the source: cmd_in_bounds, cmd_bounded_next, cmd_bounded_skip in
--   Message; cmd_bounded_next_forward and msg_num_cmd in Message/Forward; message_copy_tail in
--   Message/Copy. The loops are skip_context and skip_contexts (the two loops of cmd_bounded_skip),
--   seek_continue, count_commands and find_reply. Message/FindReply has find_forward_reply_id() of
--   src/dw_node.c, which searches a message in the same way. The bytes themselves are in Memory.
-- - src/queue.c, src/queue.h: Queue, the ring that holds the command chain; Queue/Fifo, Queue/Tail
--   and Queue/Walk prove it. The nodes, src/queueing_common.h, are in Node.
-- - src/ccmd.c, ccmd_skip(): Ccmd, the chain of commands of the client; leave_context is its inner
--   loop, and Ccmd/Blocks says what a whole command of a chain is.
-- - src/priority_queue.c, src/priority_queue.h: PQueue, the heap of timeouts. PQueue/Keys has the
--   order of the keys alone, PQueue/Links how the heap and the nodes point at each other, PQueue/Up
--   and PQueue/Down the two loops, and PQueue/Insert, PQueue/TakeOut and PQueue/Remove the
--   operations.
-- - src/timespec.h: Timespec, sums and differences of times.
-- - src/connection.c, src/connection.h: Connection, the receive buffer, the status and SSL of one
--   connection; Connection/Send, what it sends; proved in the modules below it.
--   What recvfrom(), sendto(), send(), sendfile() and OpenSSL answer is an argument of the operation
--   that calls them, and its theorems ask that they name no more bytes than they were given.
-- - src/connection.c again: Conns, the table of connections and the list that each keeps of its
--   requests. Conns/Lookup has the searches and conn_alloc(); conn_req_remove() is defragment (its
--   first half, with cut_message and shift_prev) and drop_request (its end). Conns/Chain says what it
--   is for a list of requests to be linked; the modules beside it have the proofs.
-- - src/dw_poll.c, src/dw_poll.h: Poll, the tables of descriptors for select() and poll(); Poll/Modify
--   has dw_poll_mod() and dw_poll_del(), Poll/Next dw_poll_next(). What select() and poll() report is
--   an argument. Poll/Once and Poll/Full have the proofs.
-- - src/request.c, src/request.h: Request, the table of requests in progress, found by the remainder
--   of their ids; Request/Table and Request/Unlink have the proofs.
-- - src/dw_node.c, insert_timeout() and remove_timeout(): Timeouts, over the heap and the table of
--   requests; take_timeout and rearm are the parts of remove_timeout(). What timerfd_gettime()
--   reports is an argument.
-- - src/dw_node.c, safe_write(), safe_read(), store() and load(): Storage. What write(), read() and
--   lseek() answer is an argument. Storage/Worker has what storage_worker() does for the request of a
--   worker (on_storage) and for its timer (on_timer, with a round for each request that waits); its
--   modules Sync, Waits and Answered are about the requests that wait.
-- - src/dw_node.c, the rest of a worker: Server, whose state has the table of connections (Conns), the
--   heap of timeouts, the counters and the calls made so far. `Host` has the answers of the kernel,
--   of OpenSSL and of the devices, each by the number of answers used before, and the settings of
--   the node. Server/Reply has reply() (reply_to); Server/Forward and Server/Start have
--   single_start_forward() and start_forward(), in the parts forward_conn (the connection),
--   branch_message (the message) and send_branch; Server/Acks handle_forward_reply(), of which
--   acknowledge is the part behind find_forward_reply_id(); Server/Process
--   process_single_message(); Server/Obtain process_messages() and obtain_messages(), which call
--   each other; Server/Timeout handle_timeout(); Server/Abandon the end of exec_request(), for a
--   connection that is lost, and Server/Exec its other steps, in order. The modules Masks, Waiting,
--   Finish and Replies prove what the replies to a FORWARD do; Kept, SameRecv, Filled and Replied
--   what reply() does; Expire, Stuck and Late the timeouts and late events;
--   Stale the header of a message that is forwarded.
-- - src/dw_proxy.c: Proxy, the copying loops of sender() and receiver() and the count of flows in
--   main(). What read() and write() answer is an argument.
-- - Prelude has what these share: lists, integers, Boolean tests, and Run, the way a piece of C ends:
--   a value, a fault (an access outside an object), abort() by a failed check(), or the fuel of the
--   model used up.
--
-- The main loop of the node asks Poll which descriptors are ready. What comes in on a Connection is
-- cut into messages there, and what goes out is put there by the copies of Message. A message that
-- is forwarded gets an entry in the table of Request, and its timeout a node of the heap (PQueue,
-- keyed by times that Timespec computes). Server puts these together: exec_request() receives into a
-- Connection, takes its messages and runs their commands; a FORWARD copies what is left of the
-- message into the send buffer of another connection and waits for the replies, a REPLY puts the
-- answer into the send buffer of the connection the request came over and takes the request out of
-- the list of Conns. The client builds its messages from a chain of commands in
-- a Queue.
--
-- Bounds and fuel: a loop over commands runs on fuel that is the end of the message, which is enough
-- since each command is 4 bytes at least; the loops of the heap on its size and the loops of Timespec
-- on the seconds in the nanoseconds; the loops over the requests of a connection on the size of the
-- table of requests, which a list that has each request once cannot pass; the loop of obtain_messages() on the size of
-- the receive buffer, since each message takes 12 bytes of it at least; store() and load() on the
-- bytes to go, and safe_write() and safe_read() on the list of the answers. That the fuel is enough is part of each theorem, since running
-- out of it is not a value. Sizes are those of x86-64, and 32-bit fields are written with their
-- wrap-around, as request ids are. The sums of insert_timeout() are C ints, and
-- one that is not is a fault; the seconds of Timespec and the differences of remove_timeout() and
-- handle_timeout() are not bounded.
--
-- Not modelled: the set-up and the polling of the node and of the storage workers, accept(), and what the
-- threads hand to each other; the client but for its chain of commands; sockets, threads, DPDK and
-- io_uring; the time that a COMPUTE spends, whose length is recorded as a call; the parsing of the
-- command line and of addresses, the random distributions (floating point), and the printing of logs, with the loop of conn_reset() over
-- the lists of all connections, which only logs.
pub mod Ccmd
pub mod Connection
pub mod Conns
pub mod Memory
pub mod Message
pub mod Node
pub mod PQueue
pub mod Poll
pub mod Prelude
pub mod Proxy
pub mod Queue
pub mod Request
pub mod Server
pub mod Storage
pub mod Timeouts
pub mod Timespec
