-- ===== src/Server/Timeout.antt =====
-- src/dw_node.c, handle_timeout(): the timer of the worker has gone off.
use distwalk_iouring.Prelude.{ℕ, Option, none, some, ◌%◌, ◌==◌, if◌then◌else◌}
use distwalk_iouring.Prelude.Int.{ℤ, pos, ◌-ℤ◌, ltb_ℤ, pos_part}
use distwalk_iouring.Prelude.Run.{Run, ok, ◌>>=◌, or_fault}
use distwalk_iouring.Timespec.{us_to_its}
use distwalk_iouring.PQueue.{PQueue, pqueue_top, bounded}
use distwalk_iouring.Message.{message_end, cmd_bounded_skip}
use distwalk_iouring.Request.{req_get_by_id}
use distwalk_iouring.Conns.{conn_req_remove}
use distwalk_iouring.Server.{Server, Host, home, conn_of, req_of, set_req, to_int}
use distwalk_iouring.Server.Acks.{set_status_at, drop_timeout}
use distwalk_iouring.Server.Obtain.{process_messages}

-- TIMEOUT of msg_status_t
abbrev pub status_timeout : ℕ
status_timeout = 1

unfoldable pub disarm : Server → Server
disarm s = record s { timer = us_to_its (pos 0) }

-- The value of the first timeout, as the int that a request id is.
unfoldable pub top_value : PQueue → Run ℤ
top_value q = do
  top ← pqueue_top q
  n ← or_fault top
  v ← bounded q n (q.nodes n).payload
  ok (to_int (v % 4294967296))

-- The three ways on when the timeout of the request `r` has been removed.
unfoldable pub retry : Host → Server → ℕ → Run Server
retry h s r =
    let q = req_of s r in
    process_messages h (set_req s r (record q { fwd_retries = q.fwd_retries -ℤ pos 1 })) r
    >>= λ (_, s'). ok s'

unfoldable pub skip_ahead : Host → Server → ℕ → ℕ → ℕ → Run Server
skip_ahead h s r c m = do
  let q = req_of s r
  let b = (conn_of s c).recv_buf
  msg_end ← message_end b m
  next ← cmd_bounded_skip b q.curr_cmd (pos_part q.fwd_on_fail_skip) msg_end
  s1 ← set_status_at (set_req s r (record q { curr_cmd = next })) c m status_timeout
  (_, s') ← process_messages h s1 r
  ok s'

unfoldable pub give_up : Server → ℕ → ℕ → ℕ → Run Server
give_up s r c m = do
  s1 ← set_status_at s c m status_timeout
  (_, t) ← conn_req_remove s1.table c r
  ok (record s1 { table = t; active_reqs = s1.active_reqs -ℤ pos 1 })

-- The first timeout is that of the request `r`.
unfoldable pub expire : Host → Server → ℤ → ℕ → Run Server
expire h s req_id r = do
  let ptr = (req_of s r).message_ptr
  c ← home s r
  s1 ← drop_timeout h s req_id
  m ← or_fault ptr
  let q = req_of s1 r
  let again = retry h s1 r
  let on = skip_ahead h s1 r c m
  let fail = give_up s1 r c m
  if ltb_ℤ (pos 0) q.fwd_retries
      then again
      else if ltb_ℤ (pos 0) q.fwd_on_fail_skip
      then on
      else fail

-- From the answer of req_get_by_id() on.
abbrev pub due_for : Host → Server → ℤ → Option ℕ → Run Server
due_for h s req_id none = ok (disarm s)
due_for h s req_id (some r) = expire h s req_id r

unfoldable pub handle_timeout : Host → Server → Run Server
handle_timeout h s =
    let due = top_value s.timeout_queue >>= λ req_id.
    due_for h s req_id (req_get_by_id s.table.requests req_id) in
    if s.timeout_queue.size == 0 then ok (disarm s) else due
