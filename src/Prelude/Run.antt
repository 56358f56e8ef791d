-- ===== src/Prelude/Run.antt =====
-- How a piece of C code ends: with a value, with an access outside an object, by abort() (a failed
-- check() or assert()), or with the model's fuel used up; and the rules for code that ends well.
use distwalk_iouring.Prelude.Tests.{if◌then◌else◌}
use mathlib.Core.Path.{◌≡◌, refl}
use mathlib.Core.Bool.{Bool, true, false}
use mathlib.Core.Option.{Option, none, some}

pub data Run {ℓ} (A : Type ℓ) : Type ℓ where
  ok : A → Run A
  fault aborted out_of_fuel : Run A

infixl 5 ◌>>=◌ ◌>>◌
abbrev pub ◌>>=◌ {ℓ κ} : {A : Type ℓ} {B : Type κ} → Run A → (A → Run B) → Run B
ok value >>= next = next value
fault >>= next = fault
aborted >>= next = aborted
out_of_fuel >>= next = out_of_fuel

abbrev pub ◌>>◌ {ℓ κ} : {A : Type ℓ} {B : Type κ} → Run A → Run B → Run B
m >> k = m >>= λ _. k

-- check(c) and assert(c)
abbrev pub check : Bool → Run (Unit {0})
check true = ok tt
check false = aborted

-- an access that faults where there is nothing
abbrev pub or_fault {ℓ} : {A : Type ℓ} → Option A → Run A
or_fault none = fault
or_fault (some a) = ok a

-- A test of a returned pointer for NULL.
abbrev pub unless_null {ℓ κ} :
    {A : Type ℓ} {B : Type κ} → Run (Option A) → Run B → (A → Run B) → Run B
unless_null (ok none) null f = null
unless_null (ok (some a)) null f = f a
unless_null fault null f = fault
unless_null aborted null f = aborted
unless_null out_of_fuel null f = out_of_fuel

pub ok_if {ℓ} :
    {A : Type ℓ} (b : Bool) (x y : A) → (if b then ok x else ok y) ≡ ok (if b then x else y)
ok_if true x y = refl
ok_if false x y = refl

-- The code returns, with a value that satisfies `P`.
pub data Returns {ℓ κ} {A : Type ℓ} (Post : A → Type κ) : Run A → Type (κ ⊔ ℓ) where
  returns : {value : A} → Post value → Returns Post (ok value)

module _ {ℓ κ} {A : Type ℓ} {P : A → Type κ} where
  -- The value that the code returns, known to be what it returned.
  pub Returns-keep : {r : Run A} → Returns P r → Returns (λ a. (r ≡ ok a) × P a) r
  Returns-keep (returns p) = returns (refl, p)

  pub Returns-elim : {a : A} → Returns P (ok a) → P a
  Returns-elim (returns p) = p

  pub Returns-bind {ℓ' κ'} :
      {B : Type ℓ'} {Q : B → Type κ'} {m : Run A} {next : A → Run B}
      → Returns P m
      → ((value : A) → P value → Returns Q (next value))
      → Returns Q (m >>= next)
  Returns-bind (returns h) on = on _ h

  pub Returns-unless_null {ℓ' κ'} :
      {B : Type ℓ'} {Q : Option B → Type κ'} {r : Run (Option B)} {n : Run A} {f : B → Run A}
      → Returns Q r
      → (Q none → Returns P n)
      → ((b : B) → Q (some b) → Returns P (f b))
      → Returns P (unless_null r n f)
  Returns-unless_null (returns {value = none} q) k l = k q
  Returns-unless_null (returns {value = some b} q) k l = l b q

  pub Returns-choice :
      (b : Bool) (x y : A)
      → (b ≡ true → P x)
      → (b ≡ false → P y)
      → Returns P (ok (if b then x else y))
  Returns-choice true x y p q = returns (p refl)
  Returns-choice false x y p q = returns (q refl)

  pub Returns-map {κ'} :
      {Q : A → Type κ'} {r : Run A} → Returns P r → ((a : A) → P a → Q a) → Returns Q r
  Returns-map (returns p) k = returns (k _ p)

  pub Returns-inv : {r : Run A} → Returns P r → (a : A) × (r ≡ ok a) × P a
  Returns-inv (returns p) = (_, refl, p)

  pub Returns-if :
      {yes no : Run A} (test : Bool)
      → (test ≡ true → Returns P yes)
      → (test ≡ false → Returns P no)
      → Returns P (if test then yes else no)
  Returns-if true on_yes on_no = on_yes refl
  Returns-if false on_yes on_no = on_no refl
