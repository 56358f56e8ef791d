-- ===== src/Storage/Read.antt =====
-- safe_read(): it ends, also at the end of the file.
use distwalk_iouring.Prelude.{
  ℕ, zero, suc, ◌+◌, ◌-◌, ◌*◌, ◌≤◌, ◌<◌, ◌≡◌, refl, ap, ap₂, ◌∙◌, ◌⊎◌, inl, inr, Bool, true, false,
  ◌&&◌, List, [], ◌∷◌, ◌++◌, arith, length, length-append, ltb, ◌==◌, if◌then◌else◌, Bool-cases,
}
use distwalk_iouring.Prelude.Int.{ℤ, pos, negsuc}
use distwalk_iouring.Prelude.Run.{Returns, returns, Returns-map, Returns-bind, Returns-if}
use distwalk_iouring.Memory.{Bytes}
use distwalk_iouring.Storage.{ReadAnswer, got, read_error, safe_read}

-- The answers hold no more bytes than are wanted.
abbrev pub Fits : List ReadAnswer → ℕ → Type 0
Fits [] len = Unit {0}
Fits (got d ∷ rs) len = (length d ≤ len) × Fits rs (len - length d)
Fits (read_error ∷ rs) len = Unit {0}

-- The number of answers that is enough.
abbrev pub enough : ℕ → ℕ → ℕ
enough len last = if last == len then 2 * len + 1 else 2 * len + 2

-- The bytes that read() gives, in order.
abbrev pub given : List ReadAnswer → Bytes
given [] = []
given (got d ∷ rs) = d ++ given rs
given (read_error ∷ rs) = given rs

-- The file does not come to its end.
abbrev pub NoEnd : List ReadAnswer → Type 0
NoEnd [] = Unit {0}
NoEnd (got d ∷ rs) = (0 < length d) × NoEnd rs
NoEnd (read_error ∷ rs) = NoEnd rs

-- What safe_read() of `len` bytes returns: -1 or 0, and with 0 all of the bytes, unless the file came
-- to its end; they are those that read() gave.
abbrev pub ReadOutcome : List ReadAnswer → ℕ → ℤ × (Bytes × List ReadAnswer) → Type 0
ReadOutcome rs len (v, (w, r)) =
    (length w ≤ len)
    × (given rs ≡ w ++ given r)
    × ((v ≡ negsuc 0) ⊎ ((v ≡ pos 0) × (NoEnd rs → length w ≡ len)))

enough_bounds : (len last : ℕ) → (2 * len + 1 ≤ enough len last) × (enough len last ≤ 2 * len + 2)
enough_bounds len last = elim (Bool-cases (last == len)) [
  | inl y ↦ rw y (omega arith, omega arith)
  | inr n ↦ rw n (omega arith, omega arith)
]

enough_self : (len : ℕ) → enough len len ≡ 2 * len + 1
enough_self len = let y : (len == len) ≡ true = ground arith in rw y refl

enough_other :
    (len last : ℕ) → 0 < len → (ltb 0 last && last == len) ≡ false → enough len last ≡ 2 * len + 2
enough_other len last h e = elim (Bool-cases (last == len)) [
  | inl y ↦ absurd (clash (ground arith) y e)
  | inr n ↦ rw n refl
]
  where
    clash : {a b : Bool} → a ≡ true → b ≡ true → (a && b) ≡ false → ⊥
    clash p q r = let both = ap₂ ◌&&◌ p q in cc

less_nothing : (rs : List ReadAnswer) (n : ℕ) → Fits rs (n - 0) → Fits rs n
less_nothing rs n f = let e : n - 0 ≡ n = omega arith in rw (← e) f

assoc : (a b c : Bytes) → a ++ (b ++ c) ≡ (a ++ b) ++ c
assoc [] b c = refl
assoc (x ∷ a) b c = ap (λ z. x ∷ z) (assoc a b c)

-- safe_read(), with answers of read() that hold no more bytes than it wants, ends after at most twice
-- as many answers as bytes and two, also when the file is at its end or empty. The bytes are those
-- that read() gave, in order, and no more than wanted; the result is -1, or 0, and then the bytes are
-- all that were wanted unless the file came to its end.
pub safe_read-Returns :
    (rs : List ReadAnswer) (len last : ℕ)
    → Fits rs len
    → enough len last ≤ length rs
    → Returns (ReadOutcome rs len) (safe_read rs len last)
unfolding safe_read
safe_read-Returns rs zero last f h = returns (omega arith, refl, inr (refl, λ e. refl))
safe_read-Returns [] (suc n) last f h =
    let b = enough_bounds (suc n) last in absurd (omega (arith, b.0))
safe_read-Returns (read_error ∷ rs) (suc n) last f h = returns (omega arith, refl, inl refl)
safe_read-Returns (got [] ∷ rs) (suc n) last (l, f) h =
    Returns-if (ltb 0 last && last == suc n)
      (λ y. returns (omega arith, refl, inr (refl, λ e. absurd (omega (arith, e.0)))))
      (λ e.
        let other = enough_other (suc n) last (omega arith) e in
        let self = enough_self (suc n) in
        Returns-map
          (safe_read-Returns rs (suc n) (suc n) (less_nothing rs (suc n) f)
            (omega (arith, other, self)))
          λ (v, (w, r)) (short, eq, res).
            (short, eq, elim res [ inl m ↦ inl m | inr z ↦ inr (z.0, λ ne. z.1 ne.1) ]))
safe_read-Returns (got (x ∷ d) ∷ rs) (suc n) last (l, f) h =
    let before = enough_bounds (suc n) last in
    let after = enough_bounds (suc n - length (x ∷ d)) last in
    Returns-bind
      (safe_read-Returns rs (suc n - length (x ∷ d)) last f (omega (arith, before.0, after.1)))
      λ (v, (w, r)) (short, eq, res).
        let size = length-append (x ∷ d) w in
        returns (
          omega arith,
          ap (λ z. x ∷ d ++ z) eq ∙ assoc (x ∷ d) w (given r),
          elim res [ inl m ↦ inl m | inr z ↦ inr (z.0, λ ne. let whole = z.1 ne.1 in omega arith) ],
        )
