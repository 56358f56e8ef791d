-- ===== src/Server.antt =====
-- src/dw_node.c: a worker of the node, which takes the messages that its connections receive and
-- runs their commands.
--
-- A worker holds the table of connections with that of requests, its timeouts, its counters, and
-- the calls it has made so far. What the kernel, OpenSSL and the devices answer comes from `Host`,
-- at the number of answers that have been used before. The messages and commands are offsets into
-- the receive buffer of the connection they came over. Without DPDK, and with one worker.
pub mod Reply
mod Tests
pub mod Forward
pub mod Start
pub mod Acks
pub mod Masks
pub mod Waiting
pub mod Finish
pub mod Replies
pub mod Kept
pub mod Filled
pub mod SameRecv
pub mod Replied
pub mod Process
pub mod Obtain
pub mod Timeout
pub mod Abandon
pub mod Exec
pub mod Stuck
pub mod Expire
pub mod Late
pub mod Stale
use distwalk_iouring.Prelude.{
  ℕ, zero, suc, ◌+◌, ◌-◌, ◌*◌, ◌^◌, Bool, Option, none, some, List, [], ◌∷◌, ltb, if◌then◌else◌,
}
use distwalk_iouring.Prelude.Int.{ℤ, pos, negsuc}
use distwalk_iouring.Prelude.Run.{Run, ok, fault, ◌>>=◌, ◌>>◌, check, or_fault}
use distwalk_iouring.Prelude.Tables.{update}
use distwalk_iouring.Memory.{Bytes, read_u8}
use distwalk_iouring.Timespec.{Timespec}
use distwalk_iouring.PQueue.{PQueue}
use distwalk_iouring.Connection.{Connection, HandshakeResult, RecvResult, SslReadResult, Address}
use distwalk_iouring.Connection.Send.{SendResult, SslWriteResult, FileResult}
use distwalk_iouring.Request.{Request, Requests}
use distwalk_iouring.Conns.{Conns, max_conns}
use distwalk_iouring.Conns.Lookup.{conn_del_sock}
use distwalk_iouring.Timeouts.{Worker}

-- The calls that leave something behind outside the tables: compute_for() of a number of
-- microseconds, what is written to a storage worker (its number, the id of the request, the
-- command), the calls of dw_poll with the socket and the connection, and close().
pub data Call : Type 0 where
  computed : ℕ → Call
  asked_storage : ℕ → ℤ → Bytes → Call
  added_connect : ℤ → ℕ → Call
  watched_in watched_in_once watched_out_once : ℤ → ℕ → Call
  deleted_poll closed_sock : ℤ → Call

-- conn_worker_info_t, with the tables; `calls` begins with the last one.
pub record Server : Type 0 where
  pub table : Conns
  pub timeout_queue : PQueue
  pub time_elapsed : ℤ
  pub timer : Timespec
  pub active_reqs : ℤ
  pub active_conns : ℤ
  pub calls : List Call
  pub used : ℕ

-- The answer of connect(): done, EAGAIN or EINPROGRESS, or another error.
pub data ConnectResult : Type 0 where
  connected in_progress connect_error : ConnectResult

-- What is answered when so many answers have been used, and the settings of the node.
pub record Host : Type 0 where
  pub send : ℕ → SendResult
  pub ssl_write : ℕ → SslWriteResult
  pub send_headers : ℕ → List SendResult
  pub sendfile : ℕ → FileResult
  pub recv : ℕ → Address × RecvResult
  pub ssl_read : ℕ → SslReadResult
  pub handshake : ℕ → HandshakeResult
  pub time_left : ℕ → Timespec
  pub poll_ok : ℕ → Bool
  pub storage_ok : ℕ → Bool
  pub socket : ℕ → ℤ
  pub connect : ℕ → ConnectResult
  pub connected_ok : ℕ → Bool
  pub ssl_new : ℕ → Bool × Bool
  pub calloc : ℕ → Option Bytes × Option Bytes
  pub storage_devices : ℤ
  pub storage_fd : ℕ → ℤ
  pub enable_defrag : Bool
  pub self : ℕ

abbrev pub tick : Server → Server
tick s = record s { used = suc s.used }

abbrev pub record_call : Server → Call → Server
record_call s e = record s { calls = e ∷ s.calls }

-- &conns[conn_id]
unfoldable pub conn_at : ℤ → Run ℕ
conn_at (pos c) = if ltb c max_conns then ok c else fault
conn_at (negsuc _) = fault

abbrev pub conn_of : Server → ℕ → Connection
conn_of s c = s.table.conns c

abbrev pub req_of : Server → ℕ → Request
req_of s r = s.table.requests.reqs r

abbrev pub set_conn : Server → ℕ → Connection → Server
set_conn s c conn = record s { table = record s.table { conns = update s.table.conns c conn } }

abbrev pub set_req : Server → ℕ → Request → Server
set_req s r q = record s {
  table = record s.table {
    requests = record s.table.requests { reqs = update s.table.requests.reqs r q };
  };
}

-- conns[req->conn_id], whose receive buffer holds the message of the request
unfoldable pub home : Server → ℕ → Run ℕ
home s r = conn_at (req_of s r).conn_id

-- The part of the worker that has to do with timeouts, and its return.
abbrev pub timeouts_of : Server → Worker
timeouts_of s = record {
  timeout_queue = s.timeout_queue;
  requests = s.table.requests;
  time_elapsed = s.time_elapsed;
  timer = s.timer;
}

abbrev pub with_timeouts : Server → Worker → Server
with_timeouts s w = record s {
  table = record s.table { requests = w.requests };
  timeout_queue = w.timeout_queue;
  time_elapsed = w.time_elapsed;
  timer = w.timer;
}

-- sys_check() of a call of dw_poll
unfoldable pub poll_call : Host → Server → Call → Run Server
poll_call h s e = check (h.poll_ok s.used) >> ok (record_call (tick s) e)

-- close_and_forget(), which goes on when dw_poll_del() fails
unfoldable pub close_and_forget : Server → ℤ → Run Server
close_and_forget s sock = do
  (_, t) ← conn_del_sock s.table sock
  ok (record s { table = t; calls = closed_sock sock ∷ deleted_poll sock ∷ s.calls })

-- An uint32_t as a C int.
abbrev pub to_int : ℕ → ℤ
to_int v = if ltb v 2147483648 then pos v else negsuc (4294967295 - v)

-- An uint16_t, as it lies in memory.
unfoldable pub read_u16 : Bytes → ℕ → Run ℕ
read_u16 b p = do lo ← read_u8 b p; hi ← read_u8 b (p + 1); ok (lo + 256 * hi)
