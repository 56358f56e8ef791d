-- ===== src/Server/Masks.antt =====
-- src/dw_node.c: which branches of a FORWARD have replied, as a mask and as a list.
use distwalk_iouring.Prelude.{ℕ, zero, suc, ◌+◌, ◌*◌, ◌/◌, ◌%◌, ◌≡◌, refl, false, ◌||◌, arith, ◌==◌}
use distwalk_iouring.Server.Forward.{bit_of, with_bit}

half : (n b : ℕ) → (n * 2 + b % 2) / 2 ≡ n
half n b = omega arith

suc_zero : (j : ℕ) → (suc j == 0) ≡ false
suc_zero j = ground arith

suc-suc : (i j : ℕ) → (suc i == suc j) ≡ (i == j)
suc-suc i j = ground arith

-- A bit of the mask with the bit `id` set.
pub bit_of-with_bit : (mask id j : ℕ) → bit_of (with_bit mask id) j ≡ (j == id || bit_of mask j)
unfolding bit_of with_bit
bit_of-with_bit mask zero zero = ground arith
bit_of-with_bit mask zero (suc j) = rw (half' mask, suc_zero j) refl
  where
    half' : (m : ℕ) → (m / 2 * 2 + 1) / 2 ≡ m / 2
    half' m = omega arith
bit_of-with_bit mask (suc id) zero = ground arith
bit_of-with_bit mask (suc id) (suc j) =
    rw (half (with_bit (mask / 2) id) mask, suc-suc j id) (bit_of-with_bit (mask / 2) id j)

pub bit_of-zero : (j : ℕ) → bit_of 0 j ≡ false
unfolding bit_of
bit_of-zero zero = refl
bit_of-zero (suc j) = bit_of-zero j
