-- ===== src/Message/Forward.antt =====
-- src/message.c, cmd_bounded_next_forward(), and src/message.h, msg_num_cmd().
use distwalk_iouring.Prelude.{
  ℕ, zero, suc, ◌+◌, ◌&&◌, ◌||◌, not, Option, none, some, ◌==◌, if◌then◌else◌,
}
use distwalk_iouring.Prelude.Run.{Run, ok, out_of_fuel, ◌>>=◌, ◌>>◌, check, unless_null}
use distwalk_iouring.Memory.{Bytes, read_u8}
use distwalk_iouring.Message.{
  is_eom, is_reply, is_begin, is_continue, command_at, cmd_in_bounds, cmd_next, cmd_bounded_next,
  cmd_bounded_skip, message_first_cmd, message_end, sizeof_command,
}

-- cmd_get_opts(fwd_opts_t, cmd)->branched: behind pkt_size (4), the address (8), timeout (4),
-- retries, n_ack and on_fail_skip
unfoldable pub fwd_branched : Bytes → ℕ → Run ℕ
fwd_branched b cmd = read_u8 b (cmd + sizeof_command + 19)

-- The while loop of cmd_bounded_next_forward(), from a `cmd` that may be NULL; `msg_end` rounds
-- are enough.
unfoldable pub seek_continue : ℕ → Bytes → ℕ → ℕ → Option ℕ → Run (Option ℕ)
seek_continue zero b msg_end branched cmd = out_of_fuel
seek_continue (suc fuel) b msg_end branched none = ok none
seek_continue (suc fuel) b msg_end branched (some cmd) = command_at b cmd >>= λ t.
    let nested =
      cmd_bounded_skip b (some cmd) 1 msg_end >>= λ r. seek_continue fuel b msg_end branched r in
    let flat = unless_null (cmd_bounded_next b cmd msg_end) (ok none) λ next.
      command_at b next >>= λ after.
      let on = seek_continue fuel b msg_end branched (some next) in
      if is_reply t && (branched == 0 || not (is_continue after)) then ok none else on in
    if is_eom t || is_continue t then ok (some cmd) else if is_begin t then nested else flat

unfoldable pub cmd_bounded_next_forward : Bytes → Option ℕ → ℕ → Run (Option ℕ)
cmd_bounded_next_forward b none msg_end = ok none
cmd_bounded_next_forward b (some cmd) msg_end = cmd_in_bounds b cmd msg_end >>= λ inside.
    let search = do
      t ← command_at b cmd
      check (is_continue t || is_begin t)
      branched ← fwd_branched b cmd
      next ← cmd_bounded_next b cmd msg_end
      unless_null (seek_continue (suc msg_end) b msg_end branched next) (ok none) λ p. do
        still ← cmd_in_bounds b p msg_end
        t' ← command_at b p
        ok (if still && is_continue t' then some p else none)
    in if inside then search else ok none

-- msg_num_cmd(): the count of commands before EOM or the end of the message
unfoldable pub count_commands : ℕ → Bytes → ℕ → ℕ → ℕ → Run ℕ
count_commands zero b msg_end cmd n = out_of_fuel
count_commands (suc fuel) b msg_end cmd n = cmd_in_bounds b cmd msg_end >>= λ inside.
    let on = command_at b cmd >>= λ t.
    let more = cmd_next b cmd >>= λ next. count_commands fuel b msg_end next (n + 1) in
    if is_eom t then ok n else more in
    if inside then on else ok n

unfoldable pub msg_num_cmd : Bytes → ℕ → Run ℕ
msg_num_cmd b m = do
  msg_end ← message_end b m
  count_commands (suc msg_end) b msg_end (message_first_cmd m) 0
