-- ===== src/Server/Start.antt =====
-- src/dw_node.c, single_start_forward() and start_forward(): each branch of a FORWARD is sent on.
use distwalk_iouring.Prelude.{
  ℕ, zero, suc, ◌+◌, ◌-◌, Bool, true, false, ◌&&◌, ◌||◌, not, Option, none, some, leb,
  if◌then◌else◌,
}
use distwalk_iouring.Prelude.Int.{ℤ, pos, negsuc, eq_ℤ, ltb_ℤ}
use distwalk_iouring.Prelude.Run.{Run, ok, out_of_fuel, ◌>>=◌, ◌>>◌, check, unless_null}
use distwalk_iouring.Memory.{Bytes, read_u32, write_u32}
use distwalk_iouring.Message.{
  is_begin, is_continue, command_at, message_end, message_size, cmd_bounded_next, cmd_bounded_skip,
}
use distwalk_iouring.Message.Forward.{cmd_bounded_next_forward}
use distwalk_iouring.Message.FindReply.{find_forward_reply_id}
use distwalk_iouring.Message.Copy.{message_copy_tail}
use distwalk_iouring.Connection.{Connection, conn_prepare_send_message}
use distwalk_iouring.Connection.Send.{conn_start_send}
use distwalk_iouring.Request.{Request}
use distwalk_iouring.Timeouts.{insert_timeout}
use distwalk_iouring.Server.{
  Server, Host, tick, home, conn_of, req_of, set_conn, set_req, timeouts_of, with_timeouts, to_int,
}
use distwalk_iouring.Server.Forward.{FwdOpts, fwd_opts, proto_of, mask_bit, forward_conn}

-- The loop past the FORWARD_CONTINUE commands; `msg_end` rounds are enough.
unfoldable pub past_continues : ℕ → Bytes → Option ℕ → ℕ → Run (Option ℕ)
past_continues zero b c msg_end = out_of_fuel
past_continues (suc fuel) b none msg_end = ok none
past_continues (suc fuel) b (some c) msg_end = command_at b c >>= λ t.
    let on = cmd_bounded_next b c msg_end >>= λ next. past_continues fuel b next msg_end in
    if is_continue t then on else ok (some c)

-- message_copy_tail() from a command that may be NULL, when it copies the request id and no more.
abbrev pub copy_tail : Bytes → ℕ → Bytes → ℕ → Option ℕ → Run (Option ℕ × Bytes)
copy_tail b m dst m_dst none = do
  req_id ← read_u32 b m
  dst0 ← write_u32 dst m_dst req_id
  ok (none, dst0)
copy_tail b m dst m_dst (some c) = message_copy_tail b m dst m_dst c

-- A request id as it is written to a message.
abbrev pub to_word : ℤ → ℕ
to_word (pos n) = n
to_word (negsuc n) = 4294967295 - n

-- The header of the message at `m_dst`, when the commands behind it have been copied: whether they
-- have, and the connection.
abbrev pub seal_branch : Option ℕ → Connection → Bytes → ℕ → ℕ → ℕ → Run (Bool × Connection)
seal_branch none conn dst m_dst req_id pkt_size = ok (false, record conn { send_buf = dst })
seal_branch (some _) conn dst m_dst req_id pkt_size = do
  dst1 ← write_u32 dst m_dst req_id
  dst2 ← write_u32 dst1 (m_dst + 4) pkt_size
  ok (true, record conn { send_buf = dst2 })

-- The message that goes out over a connection: whether it could be made, and the connection.
unfoldable pub branch_message :
    Bytes → ℕ → ℕ → ℕ → ℕ → FwdOpts → Connection → Run (Bool × Connection)
branch_message b m cmd msg_end req_id fwd conn = do
  check (not (eq_ℤ conn.sock (negsuc 0)))
  (m_dst, conn1) ← conn_prepare_send_message conn
  room ← message_size conn1.send_buf m_dst
  check (leb fwd.pkt_size room)
  next ← cmd_bounded_next b cmd msg_end
  c ← past_continues (suc msg_end) b next msg_end
  (copied, dst) ← copy_tail b m conn1.send_buf m_dst c
  seal_branch copied conn1 dst m_dst req_id fwd.pkt_size

-- if (req->fwd_timeout) insert_timeout(...)
unfoldable pub await : Host → Server → ℕ → Run Server
await h s r =
    let q = req_of s r in
    let armed = insert_timeout (timeouts_of s) q.req_id q.fwd_timeout (h.time_left s.used) in
    if eq_ℤ q.fwd_timeout (pos 0) then ok s else (armed >>= λ w. ok (with_timeouts (tick s) w))

-- conn_start_send() to the address of the branch, and the timeout.
unfoldable pub send_branch : Host → Server → ℕ → ℕ → FwdOpts → ℕ → Run (Option ℕ × Server)
send_branch h s r f fwd cmd = do
  (rv, conn) ← conn_start_send (conn_of s f) fwd.address (h.send s.used) (h.ssl_write s.used)
  let sent = set_conn (tick s) f conn
  let armed : Run (Option ℕ × Server) = await h sent r >>= λ s'. ok (some cmd, s')
  if ltb_ℤ rv (pos 0) then ok (none, sent) else armed

-- The branch at `cmd`, whose reply is still to come.
unfoldable pub forward_branch : Host → Server → ℕ → ℕ → ℕ → FwdOpts → Run (Option ℕ × Server)
forward_branch h s r m cmd fwd = do
  c ← home s r
  msg_end ← message_end (conn_of s c).recv_buf m
  (found, s1) ← forward_conn h s fwd.address (proto_of fwd.proto)
  let send : ℕ → Run (Option ℕ × Server) = λ f. do
    let req_id = to_word (req_of s1 r).req_id
    (made, conn) ← branch_message (conn_of s c).recv_buf m cmd msg_end req_id fwd (conn_of s1 f)
    let s2 = set_conn s1 f conn
    let go = send_branch h s2 r f fwd cmd
    if made then go else ok (none, s2)
  elim found [ none ↦ ok (none, s1) | some f ↦ send f ]

-- What is returned for a branch that has replied already.
unfoldable pub skip_branch : Bytes → Option ℕ → ℕ → ℕ → Run (Option ℕ)
skip_branch b curr_cmd cmd msg_end =
    unless_null (cmd_bounded_next_forward b (some cmd) msg_end)
      (cmd_bounded_skip b curr_cmd 1 msg_end) λ next. ok (some next)

unfoldable pub single_start_forward : Host → Server → ℕ → ℕ → ℕ → Run (Option ℕ × Server)
single_start_forward h s r m cmd = do
  c ← home s r
  let b = (conn_of s c).recv_buf
  let q = req_of s r
  fwd ← fwd_opts b cmd
  msg_end ← message_end b m
  fwd_reply_id ← find_forward_reply_id b q.curr_cmd fwd.addr msg_end
  let send = forward_branch h s r m cmd fwd
  let old : Run (Option ℕ × Server) = skip_branch b q.curr_cmd cmd msg_end >>= λ next. ok (next, s)
  let unless_acked : ℕ → Run (Option ℕ × Server) = λ id. do
    acked ← mask_bit q.fwd_replies_mask id
    if not (eq_ℤ q.fwd_replies_left (negsuc 0)) && acked then old else send
  elim fwd_reply_id [ negsuc _ ↦ ok (none, s) | pos id ↦ unless_acked id ]

-- The loop of start_forward(), from `itr` on: whether every branch went out.
unfoldable pub start_branches : ℕ → Host → Server → ℕ → ℕ → ℕ → Option ℕ → Run (Bool × Server)
start_branches zero h s r m msg_end itr = out_of_fuel
start_branches (suc fuel) h s r m msg_end none = ok (true, s)
start_branches (suc fuel) h s r m msg_end (some cmd) = do
  (sent, s1) ← single_start_forward h s r m cmd
  let on : Run (Bool × Server) = do
    c ← home s1 r
    next ← cmd_bounded_next_forward (conn_of s1 c).recv_buf (some cmd) msg_end
    start_branches fuel h s1 r m msg_end next
  elim sent [ none ↦ ok (false, s1) | some _ ↦ on ]

-- What start_forward() notes in the request, the first time.
abbrev pub begin_forward : Request → FwdOpts → Request
begin_forward q fwd =
    if eq_ℤ q.fwd_replies_left (negsuc 0)
    then record q {
      fwd_replies_left = pos fwd.n_ack;
      fwd_replies_mask = 0;
      fwd_timeout = to_int fwd.timeout;
      fwd_retries = pos fwd.retries;
      fwd_on_fail_skip = pos fwd.on_fail_skip;
    }
    else q

-- The result is `cmd`, or NULL. Each branch lies at least 4 bytes further on, so the end of the
-- message bounds the rounds.
unfoldable pub start_forward : Host → Server → ℕ → ℕ → ℕ → Run (Option ℕ × Server)
start_forward h s r m cmd = do
  c ← home s r
  let b = (conn_of s c).recv_buf
  t ← command_at b cmd
  check (is_begin t || is_continue t)
  fwd ← fwd_opts b cmd
  msg_end ← message_end b m
  let s0 = set_req s r (begin_forward (req_of s r) fwd)
  (all_sent, s') ← start_branches (suc msg_end) h s0 r m msg_end (some cmd)
  ok (if all_sent then some cmd else none, s')
