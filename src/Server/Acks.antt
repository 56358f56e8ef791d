-- ===== src/Server/Acks.antt =====
-- src/dw_node.c, handle_forward_reply(): the replies to the branches of a FORWARD.
use distwalk_iouring.Prelude.{ℕ, Bool, true, false, Option, none, some, if◌then◌else◌}
use distwalk_iouring.Prelude.Int.{ℤ, pos, negsuc, ◌-ℤ◌, ltb_ℤ}
use distwalk_iouring.Prelude.Run.{Run, ok, ◌>>=◌, or_fault}
use distwalk_iouring.Memory.{Bytes, write_u32}
use distwalk_iouring.Message.{message_end, cmd_bounded_skip}
use distwalk_iouring.Message.FindReply.{find_forward_reply_id}
use distwalk_iouring.Request.{req_get_by_id}
use distwalk_iouring.Timeouts.{remove_timeout}
use distwalk_iouring.Server.{
  Server, Host, tick, home, conn_of, req_of, set_conn, set_req, timeouts_of, with_timeouts,
}
use distwalk_iouring.Server.Reply.{status_at}
use distwalk_iouring.Server.Forward.{mask_bit, mask_with}

-- m->status = status
unfoldable pub set_status_at : Server → ℕ → ℕ → ℕ → Run Server
set_status_at s c m status = do
  b ← write_u32 (conn_of s c).recv_buf (status_at m) status
  ok (set_conn s c (record (conn_of s c) { recv_buf = b }))

-- remove_timeout(), whose result is not used.
unfoldable pub drop_timeout : Host → Server → ℤ → Run Server
drop_timeout h s req_id = do
  (_, w) ← remove_timeout (timeouts_of s) req_id (h.time_left s.used)
  ok (with_timeouts (tick s) w)

-- The last reply that was awaited: the request is past its FORWARD.
unfoldable pub finish_forward : Host → Server → ℤ → ℕ → ℕ → ℕ → Run Server
finish_forward h s req_id r m status = do
  c ← home s r
  msg_end ← message_end (conn_of s c).recv_buf m
  s1 ← set_status_at s c m status
  next ← cmd_bounded_skip (conn_of s1 c).recv_buf (req_of s1 r).curr_cmd 1 msg_end
  let q = record (req_of s1 r) {
    curr_cmd = next;
    fwd_replies_mask = 0;
    fwd_replies_left = negsuc 0;
    fwd_timeout = pos 0;
    fwd_retries = pos 0;
  }
  drop_timeout h (set_req s1 r q) req_id

-- The reply of the branch `id`: whether the FORWARD is finished.
unfoldable pub acknowledge : Host → Server → ℤ → ℕ → ℕ → ℕ → ℕ → Run (Bool × Server)
acknowledge h s req_id r m status id = do
  let q = req_of s r
  acked ← mask_bit q.fwd_replies_mask id
  mask ← mask_with q.fwd_replies_mask id
  let left = q.fwd_replies_left -ℤ pos 1
  let s1 = set_req s r (record q { fwd_replies_mask = mask; fwd_replies_left = left })
  let last : Run (Bool × Server) = finish_forward h s1 req_id r m status >>= λ s'. ok (true, s')
  let more : Run (Bool × Server) = if ltb_ℤ (pos 0) left then ok (false, s1) else last
  if acked then ok (false, s) else more

-- From the answer of find_forward_reply_id() on, for the request `r`.
abbrev pub take_of_branch : Host → Server → ℤ → ℕ → ℕ → ℕ → ℤ → Run (Option ℕ × Server)
take_of_branch h s req_id r m status (negsuc _) = ok (none, s)
take_of_branch h s req_id r m status (pos id) =
    acknowledge h s req_id r m status id >>= λ (finished, s').
    ok (if finished then some r else none, s')

-- From the answer of req_get_by_id() on.
abbrev pub take_of_request : Host → Server → ℤ → ℕ → Bytes → Option ℕ → Run (Option ℕ × Server)
take_of_request h s req_id status match_addr none = ok (none, s)
take_of_request h s req_id status match_addr (some r) = do
  c ← home s r
  m ← or_fault (req_of s r).message_ptr
  msg_end ← message_end (conn_of s c).recv_buf m
  reply_id ← find_forward_reply_id (conn_of s c).recv_buf (req_of s r).curr_cmd match_addr msg_end
  take_of_branch h s req_id r m status reply_id

-- What handle_forward_reply() does before it calls process_messages(): for which request it does.
unfoldable pub take_forward_reply : Host → Server → ℤ → ℕ → Bytes → Run (Option ℕ × Server)
take_forward_reply h s req_id status match_addr =
    take_of_request h s req_id status match_addr (req_get_by_id s.table.requests req_id)

-- handle_forward_reply(); `process` is process_messages().
unfoldable pub handle_forward_reply :
    (Server → ℕ → Run (ℤ × Server)) → Host → Server → ℤ → ℕ → Bytes → Run (ℤ × Server)
handle_forward_reply process h s req_id status match_addr =
    take_forward_reply h s req_id status match_addr >>= λ (finished, s'). elim finished [
      | none ↦ ok (negsuc 0, s')
      | some r ↦ process s' r
    ]
