-- ===== src/Message/CopySafe.antt =====
-- message_copy_tail(): what it copies, and where it writes.
use distwalk_iouring.Prelude.{
  ℕ, ◌+◌, ◌-◌, ◌%◌, ◌^◌, ◌≤◌, ◌<◌, ◌≡◌, ◌⊎◌, true, false, ◌||◌, Option, none, some, length,
}
use distwalk_iouring.Prelude.Run.{ok}
use distwalk_iouring.Memory.{Bytes, read_u8, read_u32}
use distwalk_iouring.Message.{
  CommandType, is_eom, is_reply, eom, cmd_bounded_skip, cmd_type_size, command_at, message_size,
}
use distwalk_iouring.Message.Bounds.{InBounds}

-- NULL, or a REPLY or EOM in bounds, not before the start
abbrev pub NullOrLast : Bytes → ℕ → ℕ → Option ℕ → Type 0
NullOrLast b msg_end from none = Unit {0}
NullOrLast b msg_end from (some p) =
    (i : InBounds b msg_end p) × ((is_eom i.kind || is_reply i.kind) ≡ true) × (from ≤ p)

-- Whole contexts lead from one command to the first REPLY or EOM behind it, or to NULL.
pub data LeadsTo (b : Bytes) (msg_end : ℕ) : Option ℕ → Option ℕ → Type 0 where
  no_more : LeadsTo b msg_end none none
  last :
      {p : ℕ} {t : CommandType}
      → command_at b p ≡ ok t
      → (is_eom t || is_reply t) ≡ true
      → LeadsTo b msg_end (some p) (some p)
  skip :
      {cmd : ℕ} {t : CommandType} {next r : Option ℕ}
      → command_at b cmd ≡ ok t
      → (is_eom t || is_reply t) ≡ false
      → cmd_bounded_skip b (some cmd) 1 msg_end ≡ ok next
      → LeadsTo b msg_end next r
      → LeadsTo b msg_end (some cmd) r

abbrev Last : Bytes → ℕ → ℕ → Option ℕ → Option ℕ → Type 0
Last b msg_end from itr r = NullOrLast b msg_end from r × LeadsTo b msg_end itr r

-- What the destination holds after a copy of the bytes [cmd, stop) of the source into the message
-- at `m_dst`: those bytes, an EOM behind them, the size of it all, and nothing else changed.
pub record HoldsTail (b : Bytes) (cmd stop : ℕ) (dst : Bytes) (m_dst : ℕ) (d : Bytes) : Type 0 where
  pub size : length d ≡ length dst
  pub commands : (i : ℕ) → i < stop - cmd → read_u8 d (m_dst + 12 + i) ≡ read_u8 b (cmd + i)
  pub ends : command_at d (m_dst + 12 + (stop - cmd)) ≡ ok eom
  pub total : message_size d m_dst ≡ ok ((16 + (stop - cmd)) % 2 ^ 32)
  pub below : (i : ℕ) → i < m_dst → read_u8 d i ≡ read_u8 dst i
  pub above : (i : ℕ) → m_dst + 16 + (stop - cmd) ≤ i → read_u8 d i ≡ read_u8 dst i

-- Why nothing was copied: no REPLY or EOM, or no room for what is up to it and for an EOM.
abbrev pub NoCopy : Bytes → ℕ → ℕ → ℕ → Type 0
NoCopy b msg_end cmd avail =
    LeadsTo b msg_end (some cmd) none
    ⊎ ((p : ℕ) × LeadsTo b msg_end (some cmd) (some p)
        × (i : InBounds b msg_end p) × (avail < p + cmd_type_size i.kind - cmd + 4))

-- What copy_commands() and message_copy_tail() return: NULL with nothing past the request id
-- changed, or the end of the copied contexts with the copy in place.
abbrev pub CopyResult : Bytes → ℕ → ℕ → Bytes → ℕ → ℕ → Option ℕ × Bytes → Type 0
CopyResult b msg_end cmd dst m_dst avail (none, d) = (d ≡ dst) × NoCopy b msg_end cmd avail
CopyResult b msg_end cmd dst m_dst avail (some p, d) =
    LeadsTo b msg_end (some cmd) (some p)
    × (i : InBounds b msg_end p) × ((is_eom i.kind || is_reply i.kind) ≡ true)
    × (cmd ≤ p)
    × (p + cmd_type_size i.kind - cmd + 4 ≤ avail)
    × HoldsTail b cmd (p + cmd_type_size i.kind) dst m_dst d
    × (read_u32 d m_dst ≡ read_u32 dst m_dst)
