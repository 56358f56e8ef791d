-- ===== src/Conns/Count.antt =====
-- A connection has at most as many requests as the table has entries.
use distwalk_iouring.Prelude.{
  ℕ, zero, suc, ◌+◌, ◌≤◌, ◌<◌, ◌≡◌, ◌≢◌, refl, sym, ap, ◌⊎◌, inl, inr, List, [], ◌∷◌, ◌++◌, arith,
  ℕ_discrete, none, length,
}
use distwalk_iouring.Prelude.Int.{ℤ, pos, negsuc}
use distwalk_iouring.Request.{slot, max_reqs}
use distwalk_iouring.Request.Table.{IsValid}
use distwalk_iouring.Conns.{Conns}
use distwalk_iouring.Conns.Chain.{Links-live, IsList}
use distwalk_iouring.Conns.Members.{◌∈◌, IsOnce, IsOnce-append, mem_eq}

pub mem-Dec : (k : ℕ) (is : List ℕ) → Dec (k ∈ is)
mem-Dec k [] = no (λ m. m)
mem-Dec k (i ∷ is) = elim (ℕ_discrete k i) [
  | yes e ↦ yes (inl e)
  | no n ↦ elim (mem-Dec k is) [
    | yes m ↦ yes (inr m)
    | no o ↦ no (λ h. elim h [ inl e ↦ n e | inr m ↦ o m ])
  ]
]

record SplitAt (k : ℕ) (is : List ℕ) : Type 0 where
  front : List ℕ
  back : List ℕ
  whole : is ≡ front ++ k ∷ back

split_at : (k : ℕ) (is : List ℕ) → k ∈ is → SplitAt k is
split_at k [] m = absurd m
split_at k (i ∷ is) (inl e) = record { front = []; back = is; whole = ap (λ x. x ∷ is) (sym e) }
split_at k (i ∷ is) (inr m) =
    let s = split_at k is m in
    record { front = i ∷ s.front; back = s.back; whole = ap (λ x. i ∷ x) s.whole }

length_middle : (k : ℕ) (is js : List ℕ) → length (is ++ k ∷ js) ≡ length (is ++ js) + 1
length_middle k [] js = grind arith
length_middle k (i ∷ is) js = let e = length_middle k is js in grind arith

mem_parts : (is js : List ℕ) (k r : ℕ) → k ∈ (is ++ js) → k ∈ (is ++ r ∷ js)
mem_parts [] js k r m = inr m
mem_parts (i ∷ is) js k r (inl e) = inl e
mem_parts (i ∷ is) js k r (inr m) = inr (mem_parts is js k r m)

mem_either : (is js : List ℕ) (k : ℕ) → k ∈ (is ++ js) → (k ∈ is) ⊎ (k ∈ js)
mem_either [] js k m = inr m
mem_either (i ∷ is) js k (inl e) = inl (inl e)
mem_either (i ∷ is) js k (inr m) = elim (mem_either is js k m) [
  | inl a ↦ inl (inr a)
  | inr b ↦ inr b
]

IsOnce-eq : {xs ys : List ℕ} → xs ≡ ys → IsOnce xs → IsOnce ys
IsOnce-eq e o = rw (← e) o

mem_list : {xs ys : List ℕ} (k : ℕ) → xs ≡ ys → k ∈ xs → k ∈ ys
mem_list k e m = rw (← e) m

-- Numbers below `n`, each once, are at most `n`.
pigeonhole : (n : ℕ) (is : List ℕ) → IsOnce is → ((k : ℕ) → k ∈ is → k < n) → length is ≤ n
pigeonhole n [] o b = ground arith
pigeonhole zero (i ∷ is) o b = let h = b i (inl refl) in absurd (omega arith)
pigeonhole (suc n) (i ∷ is) o b = elim (mem-Dec n (i ∷ is)) [
  | yes m ↦
      let s = split_at n (i ∷ is) m in
      let parts = IsOnce-append s.front n s.back (IsOnce-eq s.whole o) in
      let below : (k : ℕ) → k ∈ (s.front ++ s.back) → k < n = λ k x.
        let h = b k (mem_list k (sym s.whole) (mem_parts s.front s.back k n x)) in
        let ne : k ≢ n = λ e. elim (mem_either s.front s.back k x) [
          | inl a ↦ parts.0 (rw (← e) a)
          | inr a ↦ parts.1 (rw (← e) a)
        ] in
        omega arith in
      let h = pigeonhole n (s.front ++ s.back) parts.3 below in
      let e = length_middle n s.front s.back in
      let size : length (i ∷ is) ≡ length (s.front ++ n ∷ s.back) = ap length s.whole in omega arith
  | no m ↦
      let h =
        pigeonhole n (i ∷ is) o
          (λ k x. let l = b k x in let ne : k ≢ n = λ e. m (mem_eq (i ∷ is) e x) in omega arith) in
      omega arith
]

slot_small : (z : ℤ) → slot z < max_reqs
unfolding slot
slot_small (pos n) = omega arith
slot_small (negsuc n) = omega arith

pub requests_bound :
    (s : Conns) (c : ℕ) (is : List ℕ) → IsValid s.requests → IsList s c is → length is ≤ max_reqs
requests_bound s c is v l = pigeonhole max_reqs is l.once (λ k m.
    rw (← (v k (Links-live s.requests.reqs none none is k l.links m)))
      (slot_small (s.requests.reqs k).req_id))
