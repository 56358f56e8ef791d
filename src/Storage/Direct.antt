-- ===== src/Storage/Direct.antt =====
-- store() with O_DIRECT: the mark for no offset is rounded up too.
use distwalk_iouring.Prelude.{
  ℕ, zero, suc, ◌+◌, ◌-◌, ◌*◌, ◌/◌, ◌^◌, ◌%◌, ◌≤◌, ◌<◌, ◌≡◌, refl, ◌∙◌, inl, inr, Bool, true, false,
  some, List, arith, length,
}
use distwalk_iouring.Prelude.Run.{ok, fault, Returns, Returns-map}
use native.Mathlib.Nat.{mul-add-div_right, div-eq_of_lt, div-mul-le_self}
use distwalk_iouring.Memory.{Bytes}
use distwalk_iouring.Connection.{buf_size}
use distwalk_iouring.Storage.{
  WriteAnswer, StorageInfo, StorageOpts, no_offset, round_up, rounded, store,
}
use distwalk_iouring.Storage.Write.{IsProgress, store_at}

-- What round_up() makes of `n` whole blocks and a part of one.
round_up-blocks :
    (n c b x : ℕ)
    → n + b ≡ c * suc b + x
    → x < suc b
    → n + b < 2 ^ 64
    → round_up n (suc b) ≡ ok (c * suc b)
unfolding round_up
round_up-blocks n c b x e h w =
    let small : (n + b) % 2 ^ 64 ≡ n + b = omega arith in
    let part : x / suc b ≡ 0 = div-eq_of_lt h in
    let whole : (c * suc b + x) / suc b ≡ c + x / suc b = mul-add-div_right (omega arith) c x in
    let quot : (n + b) / suc b ≡ c = rw e (whole ∙ rw part (omega arith)) in rw (small, quot) refl

factor_small : (c x : ℕ) → c * x ≡ 2 ^ 32 → x ≤ 2 ^ 32
factor_small zero x e = absurd (omega arith)
factor_small (suc c) x e = omega arith

-- The offset that store() goes to, when none was given, with O_DIRECT.
rounded_mark :
    (s : StorageInfo) (c b : ℕ) (o : StorageOpts) (t : ℕ)
    → s.use_odirect ≡ true
    → c * suc b ≡ 2 ^ 32
    → 1 ≤ b
    → o.offset % 2 ^ 32 ≡ no_offset
    → round_up o.nbytes (suc b) ≡ ok t
    → rounded s (suc b) o ≡ ok (t, 0)
unfolding rounded
rounded_mark s c b o t on e h mark r =
    let less : b < 2 ^ 32 = let f = factor_small c (suc b) e in omega arith in
    let up : round_up no_offset (suc b) ≡ ok (c * suc b) =
      round_up-blocks no_offset c b (b - 1) (omega arith) (omega arith) (omega arith) in
    let wrap : (2 ^ 32) % 2 ^ 32 ≡ 0 = omega arith in rw (on, r, mark, up, e, wrap) refl

round_up-small : (n b t : ℕ) → round_up n b ≡ ok t → t < 2 ^ 64
unfolding round_up
round_up-small n zero t e = absurd (clash e)
  where
    clash : fault ≡ ok t → ⊥
    clash f = cc
round_up-small n (suc b) t e =
    let x = (n + b) % 2 ^ 64 in
    let low : x / suc b * suc b ≤ x = div-mul-le_self x (suc b) in
    let same : x / suc b * suc b ≡ t = ok_injective e in omega arith
  where
    ok_injective : {x y : ℕ} → ok x ≡ ok y → x ≡ y
    ok_injective f = cc

-- store() with O_DIRECT and no offset given, for a block size of two bytes or more that divides 2^32:
-- when lseek() succeeds, it goes to the start of the storage, whatever was stored there before.
pub store-direct_start :
    (s : StorageInfo) (c b : ℕ) (o : StorageOpts) (t : ℕ) (periodic : Bool) (rs : List WriteAnswer)
    (buf : Bytes)
    → s.use_odirect ≡ true
    → c * suc b ≡ 2 ^ 32
    → 1 ≤ b
    → o.offset % 2 ^ 32 ≡ no_offset
    → round_up o.nbytes (suc b) ≡ ok t
    → length buf ≡ buf_size
    → IsProgress rs
    → t ≤ length rs
    → Returns
        (λ d. (length d.bytes ≡ t) × (d.seek ≡ some 0) × (d.info.storage_offset ≡ t))
        (store s (suc b) o periodic true rs buf)
store-direct_start s c b o t periodic rs buf on e h mark r hb p k =
    Returns-map
      (store_at s (suc b) o periodic true rs buf t 0 (rounded_mark s c b o t on e h mark r) hb p k)
      λ d out. elim out [
        | inl (ne, f, x, z) ↦ absurd (clash f)
        | inr (size, at, y) ↦ elim at [
          | inl (ne, seek, place) ↦
              let small = round_up-small o.nbytes (suc b) t r in
              (size, seek, omega (arith, place, small))
          | inr rest ↦ absurd (elim rest [
            | inl (z, u, x, y) ↦ omega (arith, z)
            | inr (z, u, x, y) ↦ omega (arith, z)
          ])
        ]
      ]
  where
    clash : true ≡ false → ⊥
    clash q = cc
