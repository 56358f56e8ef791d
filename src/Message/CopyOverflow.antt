-- ===== src/Message/CopyOverflow.antt =====
-- message_copy_tail() tests the space for the commands and the EOM, and not for the message header
-- in front of them.
use distwalk_iouring.Prelude.{ℕ, ◌+◌, ◌-◌, ◌≤◌, ◌<◌, ◌≡◌, false, arith, length, ltb}
use distwalk_iouring.Prelude.Run.{ok, fault, Returns-inv}
use distwalk_iouring.Memory.{Bytes}
use distwalk_iouring.Memory.Access.{copy_bytes-Returns}
use distwalk_iouring.Memory.Faults.{copy_bytes-fault, write_u32-fault}
use distwalk_iouring.Message.{cmd_type_size, message_size, message_first_cmd}
use distwalk_iouring.Message.Copy.{copy_commands}
use distwalk_iouring.Message.Bounds.{InBounds}
use native.Mathlib.Decide.{dec_le}

-- A destination buffer that ends where its message does, as conn_prepare_send_message() leaves it,
-- and commands that pass the size test of message_copy_tail() with less than 12 bytes to spare: the
-- copy writes past the end of the buffer.
pub copy_commands-overflows :
    (b : Bytes) (msg_end cmd p m_dst avail : ℕ) (dst : Bytes)
    → msg_end ≤ length b
    → (i : InBounds b msg_end p) → cmd ≤ p
    → message_size dst m_dst ≡ ok avail
    → 12 ≤ avail
    → length dst ≡ m_dst + avail
    → p + cmd_type_size i.kind - cmd + 4 ≤ avail
    → avail < 12 + (p + cmd_type_size i.kind - cmd) + 4
    → copy_commands b dst m_dst cmd p ≡ fault
unfolding copy_commands message_first_cmd cmd_type_size
copy_commands-overflows b msg_end cmd p m_dst avail dst fits i past has header full passes short =
    let len = p + cmd_type_size i.kind - cmd in
    let test : ltb avail (len + 4) ≡ false = not_less passes in
    rw (i.reads, has, test)
      (elim (dec_le (m_dst + 12 + len) (length dst)) [
        | yes inside ↦
            let (d1, e, c) =
              Returns-inv
                (copy_bytes-Returns len b cmd dst (m_dst + 12) (omega (arith, i.inside)) inside) in
            rw e (rw (write_u32-fault d1 (m_dst + 12 + len) 7 (omega (arith, c.outside.size))))
        | no outside ↦ rw (
            copy_bytes-fault len b cmd dst (m_dst + 12) (omega (arith, i.inside)) (omega arith)
              (omega arith))
      ])
  where
    not_less : {m n : ℕ} → m ≤ n → ltb n m ≡ false
    not_less h = ground arith
