-- ===== src/Server/Tests.antt =====
-- A worker with one request, which waits for two branches with a timeout, and the theorems on it.
use distwalk_iouring.Prelude.{
  ℕ, zero, suc, ◌%◌, ◌^◌, ◌≡◌, refl, ap, inl, inr, Bool, true, false, none, some, List, [], ◌∷◌,
  ◌++◌, arith, length, replicate, length-replicate, ℕ_discrete,
}
use distwalk_iouring.Prelude.Int.{pos, negsuc, neg_part, ◌+ℤ◌}
use distwalk_iouring.Prelude.Run.{Run, ok, aborted, Returns}
use distwalk_iouring.Prelude.Tables.{update}
use distwalk_iouring.Node.{Node, no_node}
use distwalk_iouring.Memory.{Bytes, read_u8, read_u32, write_u8, write_u32, write_at, copy_bytes}
use distwalk_iouring.Timespec.{us_to_its}
use distwalk_iouring.PQueue.{PQueue}
use distwalk_iouring.PQueue.Insert
use distwalk_iouring.PQueue.Links.{IsIn}
use distwalk_iouring.Message.{
  message_size, message_end, message_first_cmd, cmd_in_bounds, cmd_next, cmd_bounded_next,
  command_at, cmd_type_size, nested_after, skip_context, skip_contexts, cmd_bounded_skip,
}
use distwalk_iouring.Message.Forward.{cmd_bounded_next_forward, seek_continue, fwd_branched}
use distwalk_iouring.Message.Copy.{find_reply, copy_commands, message_copy_tail}
use distwalk_iouring.Message.FindReply.{find_forward_reply_id, seek_reply_id, same_bytes}
use distwalk_iouring.Connection.{
  Connection, Address, tcp, ready, reply_mode_normal, buf_size, handshake_error, ssl_handshake,
  recv_again, ssl_read_want, conn_prepare_send_message,
}
use distwalk_iouring.Connection.Send.{sent, other, ssl_sent, released}
use distwalk_iouring.Request.{Request, unused, slot, req_get_by_id}
use distwalk_iouring.Request.Table.{IsValid}
use distwalk_iouring.Conns.{Conns, conn_reset}
use distwalk_iouring.Conns.Chain.{IsList}
use distwalk_iouring.Conns.Defrag.{Messages}
use distwalk_iouring.Server.{Server, Host, connected, conn_at, home, close_and_forget}
use distwalk_iouring.Server.Waiting.{Waits}
use distwalk_iouring.Server.Reply.{reply_opts, reply_to}
use distwalk_iouring.Server.Replied.{Replies, Replied, reply-Replied}
use distwalk_iouring.Server.Timeout.{disarm, handle_timeout}
use distwalk_iouring.Server.Stuck.{FirstTimeout, with_table, handle_timeout-stuck}
use distwalk_iouring.Server.Expire.{GivesUp, GivenUp, handle_timeout-GivenUp}
use distwalk_iouring.Server.Exec.{PollFlags, socket_event, exec_request}
use distwalk_iouring.Server.Forward.{FwdOpts}
use distwalk_iouring.Server.Start.{branch_message, past_continues}
use distwalk_iouring.Server.Stale.{SameStatus, branch_message-stale}
use distwalk_iouring.Server.Late.{HasSock, exec_request-late, exec_request-late_handshake}
use distwalk_iouring.Server.Replies.{
  Branches, no_reply, of_branch, of_none, Taken, deciding, take_replies, take_replies-Taken,
}

rest_of : (n : ℕ) → (b : Bytes) × (length b ≡ n)
rest_of n = (replicate n 0, length-replicate n 0)

rest : Bytes
rest = (rest_of 16777120).0

length-rest : length rest ≡ 16777120
unfolding rest
length-rest = (rest_of 16777120).1

blank : Bytes
blank = (rest_of buf_size).0

length-blank : length blank ≡ buf_size
unfolding blank
length-blank = (rest_of buf_size).1

-- Two addresses, and one that is not in the message.
abbrev first_addr : Bytes
first_addr = 1 ∷ replicate 5 0

abbrev second_addr : Bytes
second_addr = 2 ∷ replicate 5 0

abbrev other_addr : Bytes
other_addr = 3 ∷ replicate 5 0

-- Request 9, of 96 bytes: FORWARD_BEGIN at 12, FORWARD_CONTINUE at 40, COMPUTE at 68, REPLY at 76, of
-- 20 bytes, and EOM at 92.
abbrev received : Bytes
received =
    9 ∷ 0 ∷ 0 ∷ 0 ∷ 96 ∷ replicate 7 0
    ++ 4 ∷ replicate 7 0
    ++ first_addr
    ++ replicate 14 0
    ++ 5 ∷ replicate 7 0
    ++ second_addr
    ++ replicate 14 0
    ++ replicate 8 0
    ++ 6 ∷ 0 ∷ 0 ∷ 0 ∷ 20 ∷ replicate 11 0
    ++ 7 ∷ 0 ∷ 0 ∷ 0 ∷ rest

abbrev peer : Address
peer = record { sin_addr = 1; sin_port = 7891 }

abbrev conn : Connection
conn = record {
  proto = tcp;
  sock = pos 5;
  status = ready;
  target = peer;
  recv_buf = received;
  send_buf = blank;
  curr_recv_buf = 96;
  curr_recv_size = 16777120;
  curr_proc_buf = 96;
  curr_send_buf = 0;
  curr_send_size = 0;
  file_fd = negsuc 0;
  file_offset = 0;
  file_remaining = 0;
  reply_mode = reply_mode_normal;
  req_list = some 4;
  serialize_request = false;
  parent_thread = 0;
  busy = true;
  enable_defrag = true;
  is_listen = false;
  use_ssl = false;
  ssl_handshake_done = false;
  ssl_is_server = false;
}

abbrev waiting : Request
waiting = record unused {
  req_id = pos 65540;
  conn_id = pos 0;
  message_ptr = some 0;
  curr_cmd = some 12;
  fwd_replies_left = pos 2;
  timeout_node = some 0;
}

-- One timeout, at 30.
abbrev nodes : ℕ → Node
nodes zero = record { heap_id = 0; key = pos 30; payload = 65540 }
nodes (suc n) = no_node

abbrev queue : PQueue
queue = record { nodes = nodes; heap = λ i. 0; stack = λ i. 1; size = 1; capacity = 2 }

queue-IsValid : Insert.IsValid queue
queue-IsValid = record {
  linked = record { fits = omega arith; inside = λ i h. omega arith; place = λ i h. omega arith };
  heap = λ c p h. absurd (omega arith);
  free = λ j h. omega arith;
  unused = λ j h i. omega (arith, i.back);
  once = λ i j l h. absurd (omega arith);
}

abbrev table : Conns
table = record {
  conns = update (λ i. record conn { sock = negsuc 0; req_list = none }) 0 conn;
  requests = record { reqs = update (λ i. unused) 4 waiting; last_reqs = pos 65541 };
}

abbrev server : Server
server = record {
  table = table;
  timeout_queue = queue;
  time_elapsed = pos 0;
  timer = us_to_its (pos 30);
  active_reqs = pos 1;
  active_conns = pos 1;
  calls = [];
  used = 0;
}

-- A host that takes twelve bytes at a time, and fails in a TLS handshake.
abbrev host : Host
host = record {
  send = λ i. sent 12 other;
  ssl_write = λ i. ssl_sent 12;
  send_headers = λ i. [];
  sendfile = λ i. released 0;
  recv = λ i. (peer, recv_again);
  ssl_read = λ i. ssl_read_want;
  handshake = λ i. handshake_error;
  time_left = λ i. us_to_its (pos 0);
  poll_ok = λ i. true;
  storage_ok = λ i. true;
  socket = λ i. pos 7;
  connect = λ i. connected;
  connected_ok = λ i. true;
  ssl_new = λ i. (true, true);
  calloc = λ i. (none, none);
  storage_devices = pos 1;
  storage_fd = λ i. pos 3;
  enable_defrag = true;
  self = 0;
}

found : req_get_by_id table.requests (pos 65540) ≡ some 4
unfolding req_get_by_id slot
found = refl

table-IsValid : IsValid table.requests
unfolding slot
table-IsValid i l = elim (ℕ_discrete i 4) [
  | yes e ↦ rw e refl
  | no ne ↦
      let at : table.requests.reqs i ≡ unused = ground arith in absurd (l (ap (λ r. r.req_id) at))
]

table-IsList : IsList table 0 (4 ∷ [])
table-IsList = record {
  head = refl;
  links = record { prev = refl; next = refl; live = λ e. omega (arith, ap neg_part e) };
  once = ((λ m. m), tt);
}

node_0-IsIn : IsIn queue 0
node_0-IsIn = record { at = omega arith; back = refl }

server-Waits : Waits server (pos 65540) 4 0 0 96 12
unfolding home conn_at message_end message_size read_u32 read_u8
server-Waits = record {
  found = found;
  at = refl;
  message = refl;
  end = refl;
  fits = omega (arith, length-rest);
  header = omega arith;
  command = refl;
  timeout = inr (0, refl, queue-IsValid, node_0-IsIn);
}

-- A reply that no branch has sent, two of the second branch, and one of the first.
abbrev replies : List (Bytes × ℕ)
replies = (other_addr, 0) ∷ (second_addr, 0) ∷ (second_addr, 2) ∷ (first_addr, 1) ∷ []

abbrev branches : List (ℕ × ℕ)
branches = (1, 0) ∷ (1, 2) ∷ (0, 1) ∷ []

server-Branches : Branches received 12 96 replies branches
unfolding find_forward_reply_id seek_reply_id same_bytes cmd_bounded_next_forward seek_continue
    fwd_branched cmd_bounded_next cmd_in_bounds cmd_next command_at cmd_type_size read_u32 read_u8
server-Branches = of_none other_addr 0 0 refl (
    of_branch second_addr 0 1 refl refl
      (of_branch second_addr 2 1 refl refl (of_branch first_addr 1 0 refl refl no_reply)))

take_replies-Taken_example :
    Returns
      (Taken server 4 0 0 96 12 (deciding (λ j. false) 1 branches))
      (take_replies host server (pos 65540) replies)
take_replies-Taken_example = take_replies-Taken host server 1 server-Waits refl refl server-Branches

received_length : length received ≡ 16777216
received_length = omega (arith, length-rest)

server-Messages : Messages table 0 [] 4 0 96
unfolding message_size read_u32 read_u8
server-Messages = record {
  valid = record { memory = received_length; accounted = refl; handed = omega arith };
  here = refl;
  size = refl;
  header = omega arith;
  handed = omega arith;
  newer = λ k m. absurd m;
}

server-Replies : Replies host server 0 4 0 76 96 20 9 0 [] []
unfolding home conn_at reply_opts message_size read_u32 read_u8
server-Replies = record {
  at = refl;
  live = table-IsValid;
  list = table-IsList;
  messages = server-Messages;
  sending = record { memory = length-blank; waiting = omega arith };
  start = refl;
  device = 0;
  opts = refl;
  room = omega arith;
  fits = omega arith;
  req_id = refl;
  code = refl;
  answers = λ c e. (omega (arith, e), omega (arith, e));
}

reply-Replied_example : Returns (Replied server 0 4 20 9 0 [] []) (reply_to host server 4 0 76)
reply-Replied_example = reply-Replied host server server-Replies

server-FirstTimeout : FirstTimeout queue 65540
server-FirstTimeout = record {
  valid = queue-IsValid;
  filled = omega arith;
  value = refl;
  small = omega arith;
}

server-GivesUp : GivesUp server 0 4 0 96 65540 [] []
unfolding home conn_at
server-GivesUp = record {
  first = server-FirstTimeout;
  found = found;
  own = refl;
  retries = refl;
  skip = refl;
  at = refl;
  live = table-IsValid;
  list = table-IsList;
  messages = server-Messages;
}

handle_timeout-GivenUp_example :
    Returns (GivenUp server 0 4 65540 [] []) (handle_timeout host server)
handle_timeout-GivenUp_example = handle_timeout-GivenUp host server server-GivesUp

handle_timeout-stuck_example :
    Returns
      (λ t.
        (handle_timeout host (with_table server t) ≡ ok (disarm (with_table server t)))
        × (handle_timeout host (disarm (with_table server t)) ≡ ok (disarm (with_table server t))))
      (conn_reset table 0)
handle_timeout-stuck_example =
    handle_timeout-stuck host server 0 (4 ∷ []) 65540 4 table-IsValid table-IsList (inl refl) refl
      server-FirstTimeout

server-HasSock : HasSock server (pos 5) 0 (4 ∷ [])
server-HasSock = record {
  valid = λ e. omega (arith, ap neg_part e);
  inside = omega arith;
  has = refl;
  first = λ j h. absurd (omega arith);
  live = table-IsValid;
  list = table-IsList;
}

abbrev flags : PollFlags
flags = record { poll_in = true; poll_out = false; poll_err = false }

exec_request-late_example :
    Returns
      (λ s1. exec_request host s1 0 socket_event flags ≡ ok s1)
      (close_and_forget server (pos 5))
exec_request-late_example =
    exec_request-late host server (pos 5) 0 (4 ∷ []) socket_event flags server-HasSock refl refl

-- The same with the connection in its TLS handshake.
abbrev table_in_handshake : Conns
table_in_handshake = record table {
  conns =
      update (λ i. record conn { sock = negsuc 0; req_list = none }) 0
        (record conn { status = ssl_handshake });
}

abbrev in_handshake : Server
in_handshake = record server { table = table_in_handshake }

in_handshake-HasSock : HasSock in_handshake (pos 5) 0 (4 ∷ [])
in_handshake-HasSock = record {
  valid = λ e. omega (arith, ap neg_part e);
  inside = omega arith;
  has = refl;
  first = λ j h. absurd (omega arith);
  live = table-IsValid;
  list = record { head = refl; links = table-IsList.links; once = table-IsList.once };
}

exec_request-late_handshake_example :
    Returns
      (λ s1. exec_request host s1 0 socket_event flags ≡ aborted)
      (close_and_forget in_handshake (pos 5))
exec_request-late_handshake_example =
    exec_request-late_handshake host in_handshake (pos 5) 0 (4 ∷ []) socket_event flags
      in_handshake-HasSock refl refl

-- A connection that has sent an answer with the status TIMEOUT before, and a FORWARD over it.
abbrev used_conn : Connection
used_conn = record conn { send_buf = replicate 8 0 ++ 1 ∷ replicate 103 0 }

abbrev fwd : FwdOpts
fwd = record {
  pkt_size = 1024;
  address = peer;
  addr = first_addr;
  timeout = 0;
  retries = 0;
  n_ack = 2;
  on_fail_skip = 0;
  proto = 1;
}

abbrev conn_from : Run (Bool × Connection) → Connection
conn_from (ok (_, c)) = c
conn_from _ = used_conn

abbrev forwarded : Connection
forwarded = conn_from (branch_message received 0 12 96 65540 fwd used_conn)

forward_is_made : branch_message received 0 12 96 65540 fwd used_conn ≡ ok (true, forwarded)
unfolding branch_message conn_prepare_send_message past_continues message_copy_tail find_reply
    copy_commands copy_bytes cmd_bounded_skip skip_contexts skip_context nested_after
    cmd_bounded_next cmd_in_bounds cmd_next command_at cmd_type_size message_first_cmd message_end
    message_size read_u32 read_u8 write_u32 write_u8 write_at ◌+ℤ◌
forward_is_made = refl

branch_message-stale_example :
    (read_u32 forwarded.send_buf 0 ≡ ok (65540 % 2 ^ 32))
    × (message_size forwarded.send_buf 0 ≡ ok (1024 % 2 ^ 32))
    × SameStatus 0 used_conn.send_buf forwarded.send_buf
branch_message-stale_example =
    branch_message-stale received 0 12 96 65540 fwd used_conn forwarded forward_is_made
