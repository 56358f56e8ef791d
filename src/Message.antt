-- ===== src/Message.antt =====
-- src/message.h and src/message.c: the command list inside a message, as the node walks it.
--
-- Pointers are offsets into the buffer that holds the message, and NULL is `none`. The sizes are
-- those of the structures on x86-64: every one is a multiple of 4.
pub mod Forward
pub mod FindReply
pub mod Copy
pub mod Bounds
pub mod ForwardBounds
pub mod CopySafe
pub mod CopyOverflow
mod Tests
use distwalk_iouring.Prelude.{
  ℕ, zero, suc, ◌+◌, Bool, true, false, ◌&&◌, not, Option, none, some, ltb, leb, ◌==◌,
  if◌then◌else◌,
}
use distwalk_iouring.Prelude.Int.{ℤ, pos, ◌+ℤ◌, ◌-ℤ◌, ltb_ℤ}
use distwalk_iouring.Prelude.Run.{Run, ok, out_of_fuel, ◌>>=◌, unless_null}
use distwalk_iouring.Memory.{Bytes, read_u32}

-- command_type_t; `invalid` is any other value of the four bytes.
pub data CommandType : Type 0 where
  compute store load pskip forward_begin forward_continue reply eom : CommandType
  invalid : ℕ → CommandType

abbrev pub command_of : ℕ → CommandType
command_of v =
    if v == 0
    then compute
    else if v == 1
    then store
    else if v == 2
    then load
    else if v == 3
    then pskip
    else if v == 4
    then forward_begin
    else if v == 5
    then forward_continue
    else if v == 6
    then reply
    else if v == 7
    then eom
    else invalid v

abbrev pub command_value : CommandType → ℕ
command_value compute = 0
command_value store = 1
command_value load = 2
command_value pskip = 3
command_value forward_begin = 4
command_value forward_continue = 5
command_value reply = 6
command_value eom = 7
command_value (invalid v) = v

abbrev pub sizeof_command : ℕ
sizeof_command = 4

-- sizeof(message_t), and so the offset of `cmds`
abbrev pub sizeof_message : ℕ
sizeof_message = 12

unfoldable pub cmd_type_size : CommandType → ℕ
cmd_type_size compute = sizeof_command + 4
cmd_type_size store = sizeof_command + 24
cmd_type_size load = sizeof_command + 24
cmd_type_size pskip = sizeof_command
cmd_type_size forward_begin = sizeof_command + 24
cmd_type_size forward_continue = sizeof_command + 24
cmd_type_size reply = sizeof_command + 12
cmd_type_size eom = sizeof_command
cmd_type_size (invalid _) = sizeof_command

abbrev pub is_eom : CommandType → Bool
is_eom eom = true
is_eom _ = false

abbrev pub is_reply : CommandType → Bool
is_reply reply = true
is_reply _ = false

abbrev pub is_begin : CommandType → Bool
is_begin forward_begin = true
is_begin _ = false

abbrev pub is_continue : CommandType → Bool
is_continue forward_continue = true
is_continue _ = false

-- cmd->cmd
unfoldable pub command_at : Bytes → ℕ → Run CommandType
command_at b cmd = do v ← read_u32 b cmd; ok (command_of v)

-- m->req_size, and message_end(m)
unfoldable pub message_size : Bytes → ℕ → Run ℕ
message_size b m = read_u32 b (m + 4)

unfoldable pub message_end : Bytes → ℕ → Run ℕ
message_end b m = do n ← message_size b m; ok (m + n)

unfoldable pub message_first_cmd : ℕ → ℕ
message_first_cmd m = m + sizeof_message

unfoldable pub cmd_in_bounds : Bytes → ℕ → ℕ → Run Bool
cmd_in_bounds b cmd msg_end =
    if ltb msg_end (cmd + sizeof_command)
    then ok false
    else do t ← command_at b cmd; ok (leb (cmd + cmd_type_size t) msg_end)

unfoldable pub cmd_next : Bytes → ℕ → Run ℕ
cmd_next b cmd = do t ← command_at b cmd; ok (cmd + cmd_type_size t)

unfoldable pub cmd_bounded_next : Bytes → ℕ → ℕ → Run (Option ℕ)
cmd_bounded_next b cmd msg_end = do
  next ← cmd_next b cmd
  inside ← cmd_in_bounds b next msg_end
  ok (if inside then some next else none)

-- The update of nested_fwd at a command of type `t` that is followed by one of type `after`.
unfoldable pub nested_after : CommandType → CommandType → ℤ → ℤ
nested_after t after nested =
    if is_begin t
    then nested +ℤ pos 1
    else if is_reply t && not (is_continue after)
    then nested -ℤ pos 1
    else nested

-- The inner do-while of cmd_bounded_skip(): one context. Each round moves at least 4 bytes on, so
-- `msg_end` rounds are enough.
unfoldable pub skip_context : ℕ → Bytes → ℕ → ℤ → ℕ → Run (Option ℕ)
skip_context zero b msg_end nested cmd = out_of_fuel
skip_context (suc fuel) b msg_end nested cmd =
    unless_null (cmd_bounded_next b cmd msg_end) (ok none) λ next. do
      t ← command_at b cmd
      after ← command_at b next
      let nested' = nested_after t after nested
      let again = skip_context fuel b msg_end nested' next
      if not (is_eom after) && ltb_ℤ (pos 0) nested' then again else ok (some next)

-- The outer while; a context is skipped until EOM is reached or `to_skip` is 0.
unfoldable pub skip_contexts : ℕ → Bytes → ℕ → ℕ → Run (Option ℕ)
skip_contexts zero b msg_end cmd = do t ← command_at b cmd; ok (some cmd)
skip_contexts (suc to_skip) b msg_end cmd = command_at b cmd >>= λ t.
    let go =
      unless_null (skip_context msg_end b msg_end (pos 0) cmd) (ok none)
        λ next. skip_contexts to_skip b msg_end next in
    if is_eom t then ok none else go

unfoldable pub cmd_bounded_skip : Bytes → Option ℕ → ℕ → ℕ → Run (Option ℕ)
cmd_bounded_skip b none to_skip msg_end = ok none
cmd_bounded_skip b (some cmd) to_skip msg_end = do
  inside ← cmd_in_bounds b cmd msg_end
  if inside then skip_contexts to_skip b msg_end cmd else ok none
