-- ===== src/Conns/Members.antt =====
-- Lists of indices of requests: what is in them, each index once, their first and last.
use distwalk_iouring.Prelude.{
  ℕ, ◌≡◌, refl, sym, ◌∙◌, ◌⊎◌, inl, inr, Option, none, some, List, [], ◌∷◌, ◌++◌,
}

abbrev pub head? : List ℕ → Option ℕ
head? [] = none
head? (i ∷ is) = some i

abbrev pub last_or : Option ℕ → List ℕ → Option ℕ
last_or q [] = q
last_or q (i ∷ is) = last_or (some i) is

infix 40 ◌∈◌ ◌∉◌
abbrev pub ◌∈◌ : ℕ → List ℕ → Type 0
j ∈ [] = ⊥
j ∈ (i ∷ is) = (j ≡ i) ⊎ (j ∈ is)

abbrev pub ◌∉◌ : ℕ → List ℕ → Type 0
j ∉ is = j ∈ is → ⊥

abbrev pub IsOnce : List ℕ → Type 0
IsOnce [] = Unit {0}
IsOnce (i ∷ is) = (i ∉ is) × IsOnce is

abbrev pub Disjoint : List ℕ → List ℕ → Type 0
Disjoint is js = (i : ℕ) → i ∈ is → i ∈ js → ⊥

pub IsOnce-append :
    (is : List ℕ) (r : ℕ) (js : List ℕ)
    → IsOnce (is ++ r ∷ js)
    → (r ∉ is) × (r ∉ js) × Disjoint is js × IsOnce (is ++ js)
IsOnce-append [] r js (o, os) = (λ m. m, o, λ i m. absurd m, os)
IsOnce-append (i ∷ is) r js (o, os) =
    let (a, b, c, d) = IsOnce-append is r js os in
    (
      λ m. elim m [ inl e ↦ o (mem_mid is e) | inr k ↦ a k ],
      b,
      λ k m n. elim m [ inl e ↦ o (mem_right is (rw (← e) n)) | inr l ↦ c k l n ],
      (λ m. o (mem_skip is m), d),
    )
  where
    mem_mid : (is : List ℕ) → r ≡ i → i ∈ (is ++ r ∷ js)
    mem_mid [] e = inl (sym e)
    mem_mid (k ∷ is) e = inr (mem_mid is e)

    mem_right : (is : List ℕ) → i ∈ js → i ∈ (is ++ r ∷ js)
    mem_right [] m = inr m
    mem_right (k ∷ is) m = inr (mem_right is m)

    mem_skip : (is : List ℕ) → i ∈ (is ++ js) → i ∈ (is ++ r ∷ js)
    mem_skip [] m = inr m
    mem_skip (k ∷ is) (inl e) = inl e
    mem_skip (k ∷ is) (inr m) = inr (mem_skip is m)

pub IsOnce-take : (is js : List ℕ) → IsOnce (is ++ js) → IsOnce is
IsOnce-take [] js o = tt
IsOnce-take (i ∷ is) js (o, os) = (λ m. o (mem_left is m), IsOnce-take is js os)
  where
    mem_left : (is : List ℕ) → i ∈ is → i ∈ (is ++ js)
    mem_left [] m = absurd m
    mem_left (k ∷ is) (inl e) = inl e
    mem_left (k ∷ is) (inr m) = inr (mem_left is m)

pub IsOnce-drop : (is js : List ℕ) → IsOnce (is ++ js) → IsOnce js
IsOnce-drop [] js o = o
IsOnce-drop (i ∷ is) js (o, os) = IsOnce-drop is js os

pub last-mem :
    (q : Option ℕ) (i : ℕ) (is : List ℕ) → (k : ℕ) × (last_or q (i ∷ is) ≡ some k) × (k ∈ (i ∷ is))
last-mem q i [] = (i, refl, inl refl)
last-mem q i (j ∷ is) = let (k, e, m) = last-mem (some i) j is in (k, e, inr m)

pub mem_eq : (is : List ℕ) {k i : ℕ} → k ≡ i → k ∈ is → i ∈ is
mem_eq [] e m = absurd m
mem_eq (j ∷ is) e (inl h) = inl (sym e ∙ h)
mem_eq (j ∷ is) e (inr m) = inr (mem_eq is e m)

pub some_injective : {x y : ℕ} → some x ≡ some y → x ≡ y
some_injective e = cc

pub mem_middle : (is : List ℕ) (r : ℕ) (js : List ℕ) → r ∈ (is ++ r ∷ js)
mem_middle [] r js = inl refl
mem_middle (i ∷ is) r js = inr (mem_middle is r js)

pub mem_of_left : (is : List ℕ) (r : ℕ) (js : List ℕ) (k : ℕ) → k ∈ is → k ∈ (is ++ r ∷ js)
mem_of_left [] r js k m = absurd m
mem_of_left (i ∷ is) r js k (inl e) = inl e
mem_of_left (i ∷ is) r js k (inr m) = inr (mem_of_left is r js k m)

pub mem_of_right : (is : List ℕ) (r : ℕ) (js : List ℕ) (k : ℕ) → k ∈ js → k ∈ (is ++ r ∷ js)
mem_of_right [] r js k m = inr m
mem_of_right (i ∷ is) r js k m = inr (mem_of_right is r js k m)
