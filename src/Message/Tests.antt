-- ===== src/Message/Tests.antt =====
-- A message with a forward to two targets, a computation and a reply, and the theorems on it.
use distwalk_iouring.Prelude.{◌+◌, ◌*◌, ◌≡◌, refl, [], ◌∷◌, ◌++◌, some, arith, min, replicate}
use distwalk_iouring.Prelude.Int.{◌+ℤ◌}
use distwalk_iouring.Prelude.Run.{ok, fault, Returns}
use distwalk_iouring.Memory.{Bytes, read_u8, read_u32}
use distwalk_iouring.Message.{
  forward_begin, reply, command_at, message_size, cmd_type_size, cmd_in_bounds, cmd_next,
  cmd_bounded_next, nested_after, skip_context, skip_contexts, cmd_bounded_skip,
}
use distwalk_iouring.Message.Forward.{cmd_bounded_next_forward}
use distwalk_iouring.Message.Copy.{copy_commands}
use distwalk_iouring.Message.Bounds.{InBounds, NullOrPast, cmd_bounded_skip-Returns}
use distwalk_iouring.Message.ForwardBounds.{NullOrContinue, cmd_bounded_next_forward-Returns}
use distwalk_iouring.Message.FindReply.{
  ReplyId, find_forward_reply_id, find_forward_reply_id-ReplyId,
}
use distwalk_iouring.Message.CopyOverflow.{copy_commands-overflows}

-- Request 9, of 96 bytes: FORWARD_BEGIN at 12, FORWARD_CONTINUE at 40, COMPUTE at 68, REPLY at 76
-- and EOM at 92.
abbrev request : Bytes
request =
    9 ∷ 0 ∷ 0 ∷ 0 ∷ 96 ∷ 0 ∷ 0 ∷ 0 ∷ 0 ∷ 0 ∷ 0 ∷ 0 ∷ 4 ∷ replicate 27 0
    ++ 5 ∷ replicate 27 0
    ++ 0 ∷ replicate 7 0
    ++ 6 ∷ replicate 15 0
    ++ 7 ∷ 0 ∷ 0 ∷ 0 ∷ []

-- An empty message that may take 32 bytes, in a buffer of `n` bytes more.
abbrev room : Bytes → Bytes
room more = 0 ∷ 0 ∷ 0 ∷ 0 ∷ 32 ∷ replicate 27 0 ++ more

tight-size : message_size (room []) 0 ≡ ok 32
unfolding message_size read_u32 read_u8
tight-size = refl

begin-InBounds : InBounds request 96 12
unfolding command_at read_u32 read_u8 cmd_type_size
begin-InBounds = record { kind = forward_begin; reads = refl; inside = omega arith }

skip_forward : cmd_bounded_skip request (some 12) 1 96 ≡ ok (some 92)
unfolding cmd_bounded_skip skip_contexts skip_context nested_after cmd_bounded_next cmd_in_bounds
    cmd_next command_at cmd_type_size read_u32 read_u8 ◌+ℤ◌
skip_forward = refl

cmd_bounded_skip-Returns_example :
    Returns (NullOrPast request 96 (12 + 4 * min 1 1)) (cmd_bounded_skip request (some 12) 1 96)
cmd_bounded_skip-Returns_example = cmd_bounded_skip-Returns request 96 (omega arith) 12 1

cmd_bounded_next_forward-Returns_example :
    Returns (NullOrContinue request 96 (12 + 4)) (cmd_bounded_next_forward request (some 12) 96)
unfolding begin-InBounds
cmd_bounded_next_forward-Returns_example =
    cmd_bounded_next_forward-Returns request 96 (omega arith) begin-InBounds refl

find_forward_reply_id-ReplyId_example :
    Returns
      (ReplyId request 96 12 (replicate 6 0))
      (find_forward_reply_id request (some 12) (replicate 6 0) 96)
unfolding begin-InBounds
find_forward_reply_id-ReplyId_example =
    find_forward_reply_id-ReplyId request 96 (omega arith) (replicate 6 0) refl begin-InBounds refl

reply-InBounds : InBounds request 96 76
unfolding command_at read_u32 read_u8 cmd_type_size
reply-InBounds = record { kind = reply; reads = refl; inside = omega arith }

reply-size : cmd_type_size reply ≡ 16
unfolding cmd_type_size
reply-size = refl

copy_commands-overflows_example : copy_commands request (room []) 0 68 76 ≡ fault
unfolding reply-InBounds
copy_commands-overflows_example =
    copy_commands-overflows request 96 68 76 0 32 (room []) (omega arith) reply-InBounds
      (omega arith) tight-size (omega arith) refl (omega (arith, reply-size))
      (omega (arith, reply-size))
