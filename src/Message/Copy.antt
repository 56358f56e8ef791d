-- ===== src/Message/Copy.antt =====
-- src/message.c, message_copy_tail().
use distwalk_iouring.Prelude.{ℕ, zero, suc, ◌+◌, ◌-◌, ◌||◌, Option, none, some, ltb, if◌then◌else◌}
use distwalk_iouring.Prelude.Run.{Run, ok, out_of_fuel, ◌>>=◌, unless_null}
use distwalk_iouring.Memory.{Bytes, read_u32, write_u32, copy_bytes}
use distwalk_iouring.Message.{
  is_eom, is_reply, eom, command_value, command_at, cmd_type_size, cmd_in_bounds, cmd_bounded_skip,
  message_first_cmd, message_end, message_size,
}

-- The while loop: the first REPLY or EOM that whole contexts lead to, or NULL.
unfoldable pub find_reply : ℕ → Bytes → ℕ → Option ℕ → Run (Option ℕ)
find_reply zero b msg_end itr = out_of_fuel
find_reply (suc fuel) b msg_end none = ok none
find_reply (suc fuel) b msg_end (some itr) = command_at b itr >>= λ t.
    let on = cmd_bounded_skip b (some itr) 1 msg_end >>= λ r. find_reply fuel b msg_end r in
    if is_eom t || is_reply t then ok (some itr) else on

-- What follows once the end of the copy is known: the size test, memcpy(), the EOM and the size
-- of the copy. The source buffer and the destination buffer are different objects.
unfoldable pub copy_commands : Bytes → Bytes → ℕ → ℕ → ℕ → Run (Option ℕ × Bytes)
copy_commands b dst m_dst cmd itr = do
  t ← command_at b itr
  let cmds_len = itr + cmd_type_size t - cmd
  avail ← message_size dst m_dst
  let write = do
    dst1 ← copy_bytes cmds_len b cmd dst (message_first_cmd m_dst)
    dst2 ← write_u32 dst1 (message_first_cmd m_dst + cmds_len) (command_value eom)
    dst3 ←
        write_u32 dst2 (m_dst + 4) (message_first_cmd m_dst + cmds_len + cmd_type_size eom - m_dst)
    ok (some itr, dst3)
  if ltb avail (cmds_len + cmd_type_size eom) then ok (none, dst) else write

-- The returned pointer, and the destination buffer.
unfoldable pub message_copy_tail : Bytes → ℕ → Bytes → ℕ → ℕ → Run (Option ℕ × Bytes)
message_copy_tail b m dst m_dst cmd = do
  req_id ← read_u32 b m
  dst0 ← write_u32 dst m_dst req_id
  msg_end ← message_end b m
  unless_null (find_reply (suc msg_end) b msg_end (some cmd)) (ok (none, dst0)) λ itr.
      cmd_in_bounds b itr msg_end >>= λ inside.
      let copy = copy_commands b dst0 m_dst cmd itr in if inside then copy else ok (none, dst0)
