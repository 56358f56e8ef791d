-- ===== src/Memory/Access.antt =====
-- What an access inside a buffer returns, and what a write leaves as it was.
use distwalk_iouring.Prelude.{
  ℕ, zero, suc, ◌+◌, ◌%◌, ◌^◌, ◌≤◌, ◌<◌, ◌≡◌, refl, sym, ap, ◌∙◌, ◌⊎◌, inl, inr, List, [], ◌∷◌,
  some, arith, length, get_elem?,
}
use distwalk_iouring.Prelude.Run.{ok, Returns, returns, Returns-bind, Returns-map, Returns-keep}
use distwalk_iouring.Memory.{
  Bytes, Any, read_u8, read_u32, write_at, write_u8, write_u32, copy_bytes,
}

get_elem?-some {ℓ} :
    {A : Type ℓ} (b : List A) (p : ℕ) → p < length b → (v : A) × (get_elem? b p ≡ some v)
get_elem?-some [] p h = absurd (omega arith)
get_elem?-some (x ∷ b) zero h = (x, refl)
get_elem?-some (x ∷ b) (suc p) h = get_elem?-some b p (omega arith)

pub read_u8-Returns : (b : Bytes) (p : ℕ) → p < length b → Returns Any (read_u8 b p)
unfolding read_u8
read_u8-Returns b p h = let (v, e) = get_elem?-some b p h in rw e (returns tt)

pub read_u32-Returns : (b : Bytes) (p : ℕ) → p + 4 ≤ length b → Returns Any (read_u32 b p)
unfolding read_u32
read_u32-Returns b p h = Returns-bind (read_u8-Returns b p (omega arith)) λ b0 _.
    Returns-bind (read_u8-Returns b (p + 1) (omega arith)) λ b1 _.
      Returns-bind (read_u8-Returns b (p + 2) (omega arith))
        λ b2 _. Returns-bind (read_u8-Returns b (p + 3) (omega arith)) λ b3 _. returns tt

-- `c` is `b` but for the bytes from `p` up to `q`.
pub record SameOutside (b : Bytes) (p q : ℕ) (c : Bytes) : Type 0 where
  pub size : length c ≡ length b
  pub below : (i : ℕ) → i < p → read_u8 c i ≡ read_u8 b i
  pub above : (i : ℕ) → q ≤ i → read_u8 c i ≡ read_u8 b i

write_at-some :
    (b : Bytes) (p v : ℕ)
    → p < length b
    → (c : Bytes) × (write_at b p v ≡ some c) × SameOutside b p (p + 1) c × (read_u8 c p ≡ ok v)
unfolding write_at read_u8
write_at-some [] p v h = absurd (omega arith)
write_at-some (x ∷ b) zero v h = (
  v ∷ b,
  refl,
  record { size = refl; below = λ i l. absurd (omega arith); above = λ i l. above i l },
  refl,
)
  where
    above : (i : ℕ) → 0 + 1 ≤ i → read_u8 (v ∷ b) i ≡ read_u8 (x ∷ b) i
    above zero l = absurd (omega arith)
    above (suc i) l = refl
write_at-some (x ∷ b) (suc p) v h =
    let (c, e, s, r) = write_at-some b p v (omega arith) in
    (x ∷ c, rw e, record { size = omega (arith, s.size); below = below c s; above = above c s }, r)
  where
    below :
        (c : Bytes)
        → SameOutside b p (p + 1) c
        → (i : ℕ) → i < suc p
        → read_u8 (x ∷ c) i ≡ read_u8 (x ∷ b) i
    below c s zero l = refl
    below c s (suc i) l = s.below i (omega arith)

    above :
        (c : Bytes)
        → SameOutside b p (p + 1) c
        → (i : ℕ) → suc p + 1 ≤ i
        → read_u8 (x ∷ c) i ≡ read_u8 (x ∷ b) i
    above c s zero l = absurd (omega arith)
    above c s (suc i) l = s.above i (omega arith)

abbrev pub Wrote8 : Bytes → ℕ → ℕ → Bytes → Type 0
Wrote8 b p v c = SameOutside b p (p + 1) c × (read_u8 c p ≡ ok v)

pub write_u8-Returns :
    (b : Bytes) (p v : ℕ) → p < length b → Returns (Wrote8 b p v) (write_u8 b p v)
unfolding write_u8
write_u8-Returns b p v h = let (c, e, s, r) = write_at-some b p v h in rw e (returns (s, r))

pub SameOutside-trans :
    {b c d : Bytes} {p q r s : ℕ} (lo hi : ℕ)
    → lo ≤ p
    → lo ≤ r
    → q ≤ hi
    → s ≤ hi
    → SameOutside b p q c
    → SameOutside c r s d
    → SameOutside b lo hi d
SameOutside-trans lo hi a1 a2 a3 a4 x y = record {
  size = y.size ∙ x.size;
  below = λ i l. y.below i (omega arith) ∙ x.below i (omega arith);
  above = λ i l. y.above i (omega arith) ∙ x.above i (omega arith);
}

abbrev pub Wrote32 : Bytes → ℕ → ℕ → Bytes → Type 0
Wrote32 b p v c = SameOutside b p (p + 4) c × (read_u32 c p ≡ ok (v % 2 ^ 32))

pub write_u32-Returns :
    (b : Bytes) (p v : ℕ) → p + 4 ≤ length b → Returns (Wrote32 b p v) (write_u32 b p v)
unfolding write_u32 read_u32
write_u32-Returns b p v h = Returns-bind (write_u8-Returns b p _ (omega arith)) λ b0 (s0, r0).
    Returns-bind (write_u8-Returns b0 (p + 1) _ (omega (arith, s0.size))) λ b1 (s1, r1).
      Returns-bind (write_u8-Returns b1 (p + 2) _ (omega (arith, s0.size, s1.size))) λ b2 (s2, r2).
        Returns-map (write_u8-Returns b2 (p + 3) _ (omega (arith, s0.size, s1.size, s2.size)))
          λ b3 (s3, r3).
            let e0 =
              s3.below p (omega arith) ∙ s2.below p (omega arith) ∙ s1.below p (omega arith) ∙ r0 in
            let e1 = s3.below (p + 1) (omega arith) ∙ s2.below (p + 1) (omega arith) ∙ r1 in
            let e2 = s3.below (p + 2) (omega arith) ∙ r2 in
            (
              SameOutside-trans p (p + 4) (omega arith) (omega arith) (omega arith) (omega arith)
                  (SameOutside-trans p (p + 2) (omega arith) (omega arith) (omega arith)
                    (omega arith) s0 s1)
                  (SameOutside-trans (p + 2) (p + 4) (omega arith) (omega arith) (omega arith)
                    (omega arith) s2 s3),
              rw (e0, e1, e2, r3) (ap ok (omega arith)),
            )

pub SameOutside-refl : (b : Bytes) (p q : ℕ) → SameOutside b p q b
SameOutside-refl b p q = record { size = refl; below = λ i l. refl; above = λ i l. refl }

-- The `n` bytes at `d` are those at `s` of the source, and no other byte has changed.
pub record Copied (n : ℕ) (src : Bytes) (s : ℕ) (dst : Bytes) (d : ℕ) (c : Bytes) : Type 0 where
  pub outside : SameOutside dst d (d + n) c
  pub copied : (i : ℕ) → i < n → read_u8 c (d + i) ≡ read_u8 src (s + i)

pub copy_bytes-Returns :
    (n : ℕ) (src : Bytes) (s : ℕ) (dst : Bytes) (d : ℕ)
    → s + n ≤ length src
    → d + n ≤ length dst
    → Returns (Copied n src s dst d) (copy_bytes n src s dst d)
unfolding copy_bytes
copy_bytes-Returns zero src s dst d h k =
    returns (record { outside = SameOutside-refl dst d _; copied = λ i l. absurd (omega arith) })
copy_bytes-Returns (suc n) src s dst d h k =
    Returns-bind (Returns-keep (read_u8-Returns src s (omega arith))) λ v (rv, _).
      Returns-bind (write_u8-Returns dst d v (omega arith)) λ dst' (w, r).
        Returns-map
          (copy_bytes-Returns n src (s + 1) dst' (d + 1) (omega arith) (omega (arith, w.size)))
          λ c x. record {
            outside =
                SameOutside-trans d (d + suc n) (omega arith) (omega arith) (omega arith)
                  (omega arith) w x.outside;
            copied = step n src s d v c dst' rv r x;
          }
  where
    step :
        (n : ℕ) (src : Bytes) (s d v : ℕ) (c dst' : Bytes)
        → read_u8 src s ≡ ok v
        → read_u8 dst' d ≡ ok v
        → Copied n src (s + 1) dst' (d + 1) c
        → (i : ℕ) → i < suc n
        → read_u8 c (d + i) ≡ read_u8 src (s + i)
    step n src s d v c dst' rv r x zero l =
        let ed : d + 0 ≡ d = omega arith in
        let es : s + 0 ≡ s = omega arith in
        rw (ed, es) (x.outside.below d (omega arith) ∙ r ∙ sym rv)
    step n src s d v c dst' rv r x (suc i) l =
        let ed : d + suc i ≡ d + 1 + i = omega arith in
        let es : s + suc i ≡ s + 1 + i = omega arith in rw (ed, es) (x.copied i (omega arith))

-- A write leaves alone a number that lies outside it.
pub read_u32-SameOutside :
    {b c : Bytes} {p q : ℕ} (i : ℕ)
    → (i + 4 ≤ p) ⊎ (q ≤ i)
    → SameOutside b p q c
    → read_u32 c i ≡ read_u32 b i
unfolding read_u32
read_u32-SameOutside i (inl l) s = rw (
  s.below i (omega arith),
  s.below (i + 1) (omega arith),
  s.below (i + 2) (omega arith),
  s.below (i + 3) (omega arith),
)
read_u32-SameOutside i (inr l) s = rw (
  s.above i (omega arith),
  s.above (i + 1) (omega arith),
  s.above (i + 2) (omega arith),
  s.above (i + 3) (omega arith),
)
