-- ===== src/Server/Process.antt =====
-- src/dw_node.c, process_single_message(), process_messages() and obtain_messages(): the commands of
-- a request, and the messages that a connection has received.
use distwalk_iouring.Prelude.{
  ℕ, zero, suc, ◌+◌, Bool, true, false, ◌&&◌, not, Option, none, some, [], ◌∷◌, ◌==◌, if◌then◌else◌,
}
use distwalk_iouring.Prelude.Int.{ℤ, pos, negsuc, eq_ℤ, ltb_ℤ}
use distwalk_iouring.Prelude.Run.{Run, ok, out_of_fuel, ◌>>=◌, or_fault}
use distwalk_iouring.Memory.{Bytes, read_u8, read_u32}
use distwalk_iouring.Message.{
  CommandType, compute, store, load, pskip, forward_begin, forward_continue, reply, eom, invalid,
  command_at, is_eom, sizeof_command, message_end, cmd_type_size, cmd_bounded_next,
  cmd_bounded_skip,
}
use distwalk_iouring.Connection.{Status, close}
use distwalk_iouring.Connection.Send.{is_sending}
use distwalk_iouring.Server.{
  Server, Host, computed, asked_storage, watched_out_once, tick, record_call, home, conn_of, req_of,
  set_req, poll_call, close_and_forget,
}
use distwalk_iouring.Server.Reply.{reply_to}
use distwalk_iouring.Server.Start.{start_forward}

-- The `n` bytes at `p`.
unfoldable pub read_bytes : ℕ → Bytes → ℕ → Run Bytes
read_bytes zero b p = ok []
read_bytes (suc n) b p = do v ← read_u8 b p; rest ← read_bytes n b (p + 1); ok (v ∷ rest)

-- What a command leads to: the next command, or the end of process_single_message() with a result.
pub data Outcome : Type 0 where
  go_on : Outcome
  done : ℤ → Outcome

abbrev pub is_close : Status → Bool
is_close close = true
is_close _ = false

-- What follows reply() to a request of connection `c`.
unfoldable pub after_reply : Host → Server → ℕ → ℤ → Run (ℤ × Server)
after_reply h s c reply_result =
    let conn = conn_of s c in
    let watch = poll_call h s (watched_out_once conn.sock c) >>= λ s'. ok (pos 1, s') in
    let give_up = close_and_forget s conn.sock >>= λ s'. ok (negsuc 0, s') in
    if not (is_close conn.status) && eq_ℤ reply_result (pos 0)
    then (if is_sending conn.status then watch else give_up)
    else if is_sending conn.status
    then watch
    else ok (pos 1, s)

-- A STORE or LOAD of type `t`, which goes to the worker of the device `dev_id`; after it the request
-- waits, or not.
unfoldable pub ask_storage :
    Host → Server → ℕ → Bytes → ℕ → ℕ → ℕ → CommandType → Bool → Run (Outcome × Server)
ask_storage h s r b cmd msg_end dev_id t waits =
    let q = req_of s r in
    let wait : Server → Run (Outcome × Server) = λ x. cmd_bounded_next b cmd msg_end >>= λ next.
    ok (done (pos 0), set_req x r (record q { curr_cmd = next })) in
    let written : Server → Run (Outcome × Server) = λ x. if waits then wait x else ok (go_on, x) in
    let ask : Bytes → Run (Outcome × Server) = λ w.
      if h.storage_ok s.used
      then written (record_call (tick s) (asked_storage dev_id q.req_id w))
      else ok (done (negsuc 0), tick s) in
    read_bytes (cmd_type_size t) b cmd >>= λ w.
    if ltb_ℤ (pos dev_id) h.storage_devices then ask w else ok (done (negsuc 0), s)

-- start_forward(), and the result of it.
unfoldable pub run_forward : Host → Server → ℕ → ℕ → ℕ → Run (Outcome × Server)
run_forward h s r m cmd = start_forward h s r m cmd >>= λ (sent, s').
    ok (elim sent [ none ↦ done (negsuc 0) | some _ ↦ done (pos 0) ], s')

-- The switch, at the command `cmd` of type `t` of the message at `m`.
unfoldable pub run_command :
    Host → Server → ℕ → ℕ → ℕ → ℕ → ℕ → CommandType → Run (Outcome × Server)
run_command h s r m c msg_end cmd t =
    let b = (conn_of s c).recv_buf in
    let opts = cmd + sizeof_command in
    let at_begin = set_req s r (record (req_of s r) { curr_cmd = some cmd }) in
    let spend = read_u32 b opts >>= λ us. ok (go_on, record_call s (computed us)) in
    let answer =
      reply_to h s r m cmd >>= λ (v, s1). after_reply h s1 c v >>= λ (v', s2). ok (done v', s2) in
    let put = read_u8 b (opts + 17) >>= λ dev_id. read_u8 b (opts + 16) >>= λ wait_sync.
    ask_storage h s r b cmd msg_end dev_id t (not (wait_sync == 0)) in
    let get = read_u8 b (opts + 16) >>= λ dev_id. ask_storage h s r b cmd msg_end dev_id t true in
    let by_type : CommandType → Run (Outcome × Server) = λ x. elim x [
      | compute ↦ spend
      | store ↦ put
      | load ↦ get
      | pskip ↦ ok (done (pos 0), s)
      | forward_begin ↦ run_forward h at_begin r m cmd
      | forward_continue ↦ run_forward h s r m cmd
      | reply ↦ answer
      | eom ↦ ok (done (pos 0), s)
      | invalid _ ↦ ok (done (pos 0), s)
    ] in
    by_type t

-- The loop of process_single_message(), from a command that may be NULL. A command that is followed
-- by another lies at least 4 bytes before it, so the end of the message bounds the rounds.
unfoldable pub run_commands : ℕ → Host → Server → ℕ → ℕ → ℕ → ℕ → Option ℕ → Run (ℤ × Server)
run_commands zero h s r m c msg_end o = out_of_fuel
run_commands (suc fuel) h s r m c msg_end none = ok (pos 1, s)
run_commands (suc fuel) h s r m c msg_end (some cmd) =
    command_at (conn_of s c).recv_buf cmd >>= λ t.
    let next : Server → Run (ℤ × Server) = λ x.
      cmd_bounded_skip (conn_of x c).recv_buf (some cmd) 1 msg_end >>= λ o.
      run_commands fuel h x r m c msg_end o in
    let run = run_command h s r m c msg_end cmd t >>= λ (o, s1). elim o [
      | done v ↦ ok (v, s1)
      | go_on ↦ next s1
    ] in
    if is_eom t then ok (pos 1, s) else run

unfoldable pub process_single_message : Host → Server → ℕ → Run (ℤ × Server)
process_single_message h s r = do
  c ← home s r
  m ← or_fault (req_of s r).message_ptr
  msg_end ← message_end (conn_of s c).recv_buf m
  run_commands (suc msg_end) h s r m c msg_end (req_of s r).curr_cmd
