-- ===== src/Memory/Faults.antt =====
-- Accesses that reach past a buffer fault.
use distwalk_iouring.Prelude.{
  ℕ, zero, suc, ◌+◌, ◌/◌, ◌%◌, ◌≤◌, ◌<◌, ◌≡◌, refl, ◌⊎◌, inl, inr, [], ◌∷◌, none, arith, length,
}
use distwalk_iouring.Prelude.Run.{ok, fault, Returns-inv}
use distwalk_iouring.Memory.{Bytes, write_at, write_u8, write_u32, copy_bytes}
use distwalk_iouring.Memory.Access.{read_u8-Returns, write_u8-Returns}
use native.Mathlib.Decide.{dec_lt}

write_at-none : (b : Bytes) (p v : ℕ) → length b ≤ p → write_at b p v ≡ none
unfolding write_at
write_at-none [] p v h = refl
write_at-none (x ∷ b) zero v h = absurd (omega arith)
write_at-none (x ∷ b) (suc p) v h = rw (write_at-none b p v (omega arith))

pub write_u8-fault : (b : Bytes) (p v : ℕ) → length b ≤ p → write_u8 b p v ≡ fault
unfolding write_u8
write_u8-fault b p v h = rw (write_at-none b p v h)

-- A byte is written, in a buffer of the same size, or the write faults.
write_u8-cases :
    (b : Bytes) (p v : ℕ)
    → (write_u8 b p v ≡ fault)
      ⊎ ((c : Bytes) × (write_u8 b p v ≡ ok c) × (length c ≡ length b) × (p < length b))
write_u8-cases b p v = elim (dec_lt p (length b)) [
  | yes h ↦ let (c, e, w) = Returns-inv (write_u8-Returns b p v h) in inr (c, e, w.0.size, h)
  | no h ↦ inl (write_u8-fault b p v (omega arith))
]

pub write_u32-fault : (b : Bytes) (p v : ℕ) → length b < p + 4 → write_u32 b p v ≡ fault
unfolding write_u32
write_u32-fault b p v h = elim (write_u8-cases b p (v % 256)) [
  | inl f ↦ rw f
  | inr (b0, e0, s0, _) ↦ rw e0 (elim (write_u8-cases b0 (p + 1) (v / 256 % 256)) [
    | inl f ↦ rw f
    | inr (b1, e1, s1, _) ↦ rw e1 (elim (write_u8-cases b1 (p + 2) (v / 65536 % 256)) [
      | inl f ↦ rw f
      | inr (b2, e2, s2, _) ↦ rw e2 (write_u8-fault b2 (p + 3) (v / 16777216 % 256) (omega arith))
    ])
  ])
]

pub copy_bytes-fault :
    (n : ℕ) (src : Bytes) (s : ℕ) (dst : Bytes) (d : ℕ)
    → s + n ≤ length src
    → d ≤ length dst
    → length dst < d + n
    → copy_bytes n src s dst d ≡ fault
unfolding copy_bytes
copy_bytes-fault zero src s dst d h k l = absurd (omega arith)
copy_bytes-fault (suc n) src s dst d h k l =
    let (v, e, _) = Returns-inv (read_u8-Returns src s (omega arith)) in
    rw e (elim (write_u8-cases dst d v) [
      | inl f ↦ rw f
      | inr (c, w, size, inside) ↦
          rw w (copy_bytes-fault n src (s + 1) c (d + 1) (omega arith) (omega arith) (omega arith))
    ])
