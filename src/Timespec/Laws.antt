-- ===== src/Timespec/Laws.antt =====
-- The sums and differences are exact, and are left with the nanoseconds below a second.
use distwalk_iouring.Prelude.{
  ℕ, zero, suc, ◌+◌, ◌-◌, ◌*◌, ◌/◌, ◌≤◌, ◌<◌, ◌≡◌, refl, true, false, not, ◌&&◌, ◌||◌, arith, ltb,
}
use distwalk_iouring.Prelude.Int.{
  ℤ, pos, negsuc, pos_part, neg_part, ◌+ℤ◌, ◌-ℤ◌, ◌*ℤ◌, ltb_ℤ, +ℤ_parts, -ℤ_parts,
}
use distwalk_iouring.Prelude.Run.{Returns, returns, Returns-bind, Returns-map, Returns-if}
use distwalk_iouring.Timespec.{
  Timespec, billion, carry, borrow, ts_add, ts_sub, ts_leq, ts_sub_ns, its_to_us, us_to_its, quot_ℤ,
  rem_ℤ,
}

-- A time in nanoseconds, as the difference of two natural numbers.
abbrev pub plus : Timespec → ℕ
plus t = pos_part t.tv_sec * billion + pos_part t.tv_nsec

abbrev pub minus : Timespec → ℕ
minus t = neg_part t.tv_sec * billion + neg_part t.tv_nsec

-- the same number of nanoseconds
abbrev pub SameTime : Timespec → Timespec → Type 0
SameTime s t = plus s + minus t ≡ plus t + minus s

abbrev pub IsNormal : Timespec → Type 0
IsNormal t = (neg_part t.tv_nsec ≡ 0) × (pos_part t.tv_nsec < billion)

carry_step :
    (c : Timespec)
    → ltb_ℤ c.tv_nsec (pos billion) ≡ false
    → (n : ℕ) × (c.tv_nsec -ℤ pos billion ≡ pos n)
      × (pos_part c.tv_nsec ≡ n + billion)
      × (neg_part c.tv_nsec ≡ 0)
unfolding ◌-ℤ◌
carry_step c h = (pos_part c.tv_nsec - billion, ground arith, ground arith, ground arith)

borrow_step :
    (c : Timespec)
    → ltb_ℤ c.tv_nsec (pos 0) ≡ true
    → (0 < neg_part c.tv_nsec) × (pos_part c.tv_nsec ≡ 0)
borrow_step c h = (ground arith, ground arith)

borrow_room :
    (c : Timespec)
    → ltb_ℤ c.tv_nsec (pos 0) ≡ true
    → (pos_part (c.tv_nsec +ℤ pos billion) < billion)
      × (neg_part (c.tv_nsec +ℤ pos billion) ≡ neg_part c.tv_nsec - billion)
      × (pos_part (c.tv_nsec +ℤ pos billion) ≡ billion - neg_part c.tv_nsec)
unfolding ◌+ℤ◌
borrow_room c h = (ground arith, ground arith, ground arith)

carry-Returns :
    (fuel : ℕ) (c : Timespec)
    → pos_part c.tv_nsec < fuel * billion
    → neg_part c.tv_nsec ≡ 0
    → Returns (λ t. IsNormal t × SameTime t c) (carry fuel c)
unfolding carry
carry-Returns zero c f p = absurd (omega arith)
carry-Returns (suc fuel) c f p =
    Returns-if (ltb_ℤ c.tv_nsec (pos billion)) (λ e. returns ((p, ground arith), refl))
      λ e.
        let (n, step, size, _) = carry_step c e in
        rw step (
          Returns-map
            (carry-Returns fuel (record { tv_sec = c.tv_sec +ℤ pos 1; tv_nsec = pos n })
              (omega arith) refl)
            λ t (normal, same). (normal, omega (arith, +ℤ_parts c.tv_sec (pos 1))))

borrow-Returns :
    (fuel : ℕ) (c : Timespec)
    → neg_part c.tv_nsec + billion ≤ fuel * billion
    → pos_part c.tv_nsec < billion
    → Returns (λ t. IsNormal t × SameTime t c) (borrow fuel c)
unfolding borrow
borrow-Returns zero c f p = absurd (omega arith)
borrow-Returns (suc fuel) c f p =
    Returns-if (ltb_ℤ c.tv_nsec (pos 0))
      (λ e.
        let (negative, none_pos) = borrow_step c e in
        let (up, low, more) = borrow_room c e in
        Returns-map
          (borrow-Returns fuel
            (record { tv_sec = c.tv_sec -ℤ pos 1; tv_nsec = c.tv_nsec +ℤ pos billion })
            (omega arith) up)
          λ t (normal, same).
            (normal, omega (arith, -ℤ_parts c.tv_sec (pos 1), +ℤ_parts c.tv_nsec (pos billion))))
      (λ e. returns ((ground arith, p), refl))

-- ts_add() of two normal times ends, with a normal time that is exactly their sum.
pub ts_add-exact :
    (a b : Timespec)
    → IsNormal a
    → IsNormal b
    → Returns
        (λ c. IsNormal c × (plus c + minus a + minus b ≡ minus c + plus a + plus b))
        (ts_add a b)
unfolding ts_add
ts_add-exact a b na nb =
    let nsec = +ℤ_parts a.tv_nsec b.tv_nsec in
    Returns-map
      (carry-Returns (pos_part (a.tv_nsec +ℤ b.tv_nsec) / billion + 2) _ (omega arith)
        (sum_nonneg a.tv_nsec b.tv_nsec na.0 nb.0))
      λ c (normal, same). (normal, omega (arith, nsec, +ℤ_parts a.tv_sec b.tv_sec))
  where
    sum_nonneg : (x y : ℤ) → neg_part x ≡ 0 → neg_part y ≡ 0 → neg_part (x +ℤ y) ≡ 0
    sum_nonneg x y p q = unfold ◌+ℤ◌ in ground arith

-- ts_sub() of two normal times ends, with a normal time that is exactly their difference.
pub ts_sub-exact :
    (a b : Timespec)
    → IsNormal a
    → IsNormal b
    → Returns
        (λ c. IsNormal c × (plus c + minus a + plus b ≡ minus c + plus a + minus b))
        (ts_sub a b)
unfolding ts_sub
ts_sub-exact a b na nb =
    Returns-map
      (borrow-Returns (neg_part (a.tv_nsec -ℤ b.tv_nsec) / billion + 2) _ (omega arith)
        (difference_small a.tv_nsec b.tv_nsec na nb))
      λ c (normal, same).
        (normal, omega (arith, -ℤ_parts a.tv_nsec b.tv_nsec, -ℤ_parts a.tv_sec b.tv_sec))
  where
    difference_small :
        (x y : ℤ)
        → (neg_part x ≡ 0) × (pos_part x < billion)
        → (neg_part y ≡ 0) × (pos_part y < billion)
        → pos_part (x -ℤ y) < billion
    difference_small x y p q = unfold ◌-ℤ◌ in ground arith

-- A normal time that is x - y: the test of ts_leq() on it.
negative_iff :
    (c : Timespec) (x y : ℕ)
    → IsNormal c
    → plus c + y ≡ minus c + x
    → (ltb_ℤ c.tv_sec (pos 0)
        || not (ltb_ℤ c.tv_sec (pos 0)) && not (ltb_ℤ (pos 0) c.tv_sec) && ltb_ℤ c.tv_nsec (pos 0))
      ≡ ltb x y
negative_iff c x y normal e = go c.tv_sec c.tv_nsec normal e
  where
    go :
        (s n : ℤ)
        → (neg_part n ≡ 0) × (pos_part n < billion)
        → pos_part s * billion + pos_part n + y ≡ neg_part s * billion + neg_part n + x
        → (ltb_ℤ s (pos 0) || not (ltb_ℤ s (pos 0)) && not (ltb_ℤ (pos 0) s) && ltb_ℤ n (pos 0))
          ≡ ltb x y
    go (pos k) n h e = ground arith
    go (negsuc k) n h e = ground arith

-- ts_leq() of two normal times says whether the first is strictly before the second.
pub ts_leq-strict :
    (a b : Timespec)
    → IsNormal a
    → IsNormal b
    → Returns (λ r. r ≡ ltb (plus a + minus b) (plus b + minus a)) (ts_leq a b)
unfolding ts_leq
ts_leq-strict a b na nb = Returns-bind (ts_sub-exact a b na nb) λ c (normal, exact).
    returns (negative_iff c (plus a + minus b) (plus b + minus a) normal (omega arith))

*ℤ_parts :
    (x : ℤ) (k : ℕ)
    → (pos_part (x *ℤ pos k) ≡ pos_part x * k) × (neg_part (x *ℤ pos k) ≡ neg_part x * k)
unfolding ◌*ℤ◌
*ℤ_parts x k = (ground arith, ground arith)

-- ts_sub_ns() of two normal times is exactly their difference in nanoseconds.
pub ts_sub_ns-exact :
    (a b : Timespec)
    → IsNormal a
    → IsNormal b
    → Returns (λ r. pos_part r + minus a + plus b ≡ neg_part r + plus a + minus b) (ts_sub_ns a b)
unfolding ts_sub_ns
ts_sub_ns-exact a b na nb = Returns-bind (ts_sub-exact a b na nb) λ c (normal, exact).
    returns (omega (arith, *ℤ_parts c.tv_sec billion, +ℤ_parts (c.tv_sec *ℤ pos billion) c.tv_nsec))

-- A timer set to a number of microseconds is normal, and reads back as that number.
pub its_to_us-us_to_its :
    (n : ℕ) → IsNormal (us_to_its (pos n)) × (its_to_us (us_to_its (pos n)) ≡ pos n)
unfolding us_to_its its_to_us quot_ℤ rem_ℤ ◌*ℤ◌ ◌+ℤ◌
its_to_us-us_to_its n = ((ground arith, ground arith), ground arith)
