-- ===== src/Memory.antt =====
-- A buffer as the list of its bytes. An address is an offset into it, and an access outside it
-- faults. Numbers are little-endian, as on the hosts the program runs on.
pub mod Access
pub mod Faults
use distwalk_iouring.Prelude.{
  ℕ, zero, suc, ◌+◌, ◌*◌, ◌/◌, ◌%◌, List, [], ◌∷◌, Option, none, some, get_elem?,
}
use distwalk_iouring.Prelude.Run.{Run, ok, ◌>>=◌, or_fault}

abbrev pub Bytes : Type 0
Bytes = List ℕ

unfoldable pub read_u8 : Bytes → ℕ → Run ℕ
read_u8 b p = or_fault (get_elem? b p)

unfoldable pub read_u32 : Bytes → ℕ → Run ℕ
read_u32 b p = do
  b0 ← read_u8 b p
  b1 ← read_u8 b (p + 1)
  b2 ← read_u8 b (p + 2)
  b3 ← read_u8 b (p + 3)
  ok (b0 + 256 * b1 + 65536 * b2 + 16777216 * b3)

unfoldable pub write_at : Bytes → ℕ → ℕ → Option Bytes
write_at [] p v = none
write_at (x ∷ b) zero v = some (v ∷ b)
write_at (x ∷ b) (suc p) v = elim (write_at b p v) [ none ↦ none | some r ↦ some (x ∷ r) ]

unfoldable pub write_u8 : Bytes → ℕ → ℕ → Run Bytes
unfolding write_at
write_u8 b p v = or_fault (write_at b p v)

unfoldable pub write_u32 : Bytes → ℕ → ℕ → Run Bytes
write_u32 b p v = do
  b0 ← write_u8 b p (v % 256)
  b1 ← write_u8 b0 (p + 1) (v / 256 % 256)
  b2 ← write_u8 b1 (p + 2) (v / 65536 % 256)
  write_u8 b2 (p + 3) (v / 16777216 % 256)

-- The condition of a successful access, and no more, as a postcondition.
abbrev pub Any {ℓ} : {A : Type ℓ} → A → Type 0
Any a = Unit {0}

-- memcpy() of `n` bytes, from `s` in the first buffer to `d` in the second
unfoldable pub copy_bytes : ℕ → Bytes → ℕ → Bytes → ℕ → Run Bytes
copy_bytes zero src s dst d = ok dst
copy_bytes (suc n) src s dst d = do
  v ← read_u8 src s
  dst' ← write_u8 dst d v
  copy_bytes n src (s + 1) dst' (d + 1)
