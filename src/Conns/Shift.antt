-- ===== src/Conns/Shift.antt =====
-- conn_req_remove(): the requests that came in after the one that is removed.
use distwalk_iouring.Prelude.{
  ℕ, zero, suc, ◌+◌, ◌-◌, ◌≤◌, ◌<◌, ◌≡◌, ◌≢◌, refl, ap, ◌∙◌, ◌⊎◌, inl, inr, Option, none, some,
  List, [], ◌∷◌, arith, length,
}
use distwalk_iouring.Prelude.Tables.{update, update_self, update_ne}
use distwalk_iouring.Prelude.Run.{ok, Returns, returns, Returns-map}
use distwalk_iouring.Request.{Request}
use distwalk_iouring.Conns.{back_cmd, back_message, shift_prev}
use distwalk_iouring.Conns.Chain.{Links}
use distwalk_iouring.Conns.Members.{last_or, ◌∈◌, ◌∉◌, IsOnce, Disjoint, mem_eq, some_injective}
use distwalk_iouring.Conns.Cut.{back-exact}

abbrev pub lower : Option ℕ → ℕ → Option ℕ
lower none n = none
lower (some p) n = some (p - n)

abbrev pub lower_request : Request → ℕ → Request
lower_request q n = record q { message_ptr = lower q.message_ptr n; curr_cmd = lower q.curr_cmd n }

-- The pointer, if there is one, is not before `n`.
abbrev pub Behind : ℕ → Option ℕ → Type 0
Behind n none = Unit {0}
Behind n (some p) = n ≤ p

-- The request has a message, and it and its command are not before `n`.
pub record IsBehind (n : ℕ) (q : Request) : Type 0 where
  pub place : ℕ
  pub message : q.message_ptr ≡ some place
  pub far : n ≤ place
  pub cmd : Behind n q.curr_cmd

back_cmd-exact : (o : Option ℕ) (n : ℕ) → Behind n o → back_cmd o n ≡ ok (lower o n)
back_cmd-exact none n h = refl
back_cmd-exact (some p) n h = rw (back-exact p n h) refl

back_message-exact :
    (o : Option ℕ) (p n : ℕ) → o ≡ some p → n ≤ p → back_message o n ≡ ok (lower o n)
back_message-exact none p n e h = cc
back_message-exact (some q) p n e h =
    let same : q ≡ p = some_injective e in rw (back-exact q n (omega arith)) refl

-- The entries that the links to the entry before lead to.
abbrev pub Backs : (ℕ → Request) → Option ℕ → List ℕ → Type 0
Backs f o [] = o ≡ none
Backs f o (k ∷ ks) = (o ≡ some k) × Backs f (f k).prev ks

Backs-same :
    (f g : ℕ → Request) (o : Option ℕ) (ks : List ℕ)
    → ((k : ℕ) → k ∈ ks → g k ≡ f k)
    → Backs f o ks
    → Backs g o ks
Backs-same f g o [] h b = b
Backs-same f g o (k ∷ ks) h (e, b) =
    (e, rw (h k (inl refl)) (Backs-same f g (f k).prev ks (λ x m. h x (inr m)) b))

-- The requests `ks` have moved by `n`, and the others have not.
pub record Shifted (f : ℕ → Request) (ks : List ℕ) (n : ℕ) (g : ℕ → Request) : Type 0 where
  pub moved : (k : ℕ) → k ∈ ks → g k ≡ lower_request (f k) n
  pub same : (k : ℕ) → k ∉ ks → g k ≡ f k

Shifted-next :
    (f : ℕ → Request) (i : ℕ) (ks : List ℕ) (n : ℕ) (g : ℕ → Request)
    → i ∉ ks
    → Shifted (update f i (lower_request (f i) n)) ks n g
    → Shifted f (i ∷ ks) n g
Shifted-next f i ks n g o s = record { moved = moved; same = same }
  where
    moved : (k : ℕ) → k ∈ (i ∷ ks) → g k ≡ lower_request (f k) n
    moved k (inl e) = rw e (s.same i o ∙ update_self f i _)
    moved k (inr m) =
        s.moved k m ∙ ap (λ q. lower_request q n) (update_ne f i k _ (λ e. o (mem_eq ks e m)))

    same : (k : ℕ) → k ∉ (i ∷ ks) → g k ≡ f k
    same k h = s.same k (λ m. h (inr m)) ∙ update_ne f i k _ (λ e. h (inl e))

pub shift_prev-Shifted :
    (fuel : ℕ) (f : ℕ → Request) (o : Option ℕ) (ks : List ℕ) (n : ℕ)
    → length ks < fuel
    → IsOnce ks
    → Backs f o ks
    → ((k : ℕ) → k ∈ ks → IsBehind n (f k))
    → Returns (Shifted f ks n) (shift_prev fuel f o n)
unfolding shift_prev
shift_prev-Shifted zero f o ks n h once b held = absurd (omega arith)
shift_prev-Shifted (suc fuel) f o [] n h once b held =
    rw b (returns (record { moved = λ k m. absurd m; same = λ k m. refl }))
shift_prev-Shifted (suc fuel) f o (k ∷ ks) n h (out, once) (e, b) held =
    let here = held k (inl refl) in
    let g = update f k (lower_request (f k) n) in
    let apart : (x : ℕ) → x ∈ ks → x ≢ k = λ x m h. out (mem_eq ks h m) in
    let same : (x : ℕ) → x ∈ ks → g x ≡ f x = λ x m. update_ne f k x _ (apart x m) in
    rw
      (
        e,
        back_message-exact (f k).message_ptr here.place n here.message here.far,
        back_cmd-exact (f k).curr_cmd n here.cmd,
      )
      (Returns-map
        (shift_prev-Shifted fuel g (f k).prev ks n (omega arith) once
          (Backs-same f g (f k).prev ks same b) (λ x m. rw (same x m) (held x (inr m))))
        (λ g' s. Shifted-next f k ks n g' out s))

-- The list read from its end.
abbrev pub rev_onto : List ℕ → List ℕ → List ℕ
rev_onto [] acc = acc
rev_onto (i ∷ is) acc = rev_onto is (i ∷ acc)

pub Links-Backs :
    (f : ℕ → Request) (q n : Option ℕ) (acc is : List ℕ)
    → Backs f q acc
    → Links f q is n
    → Backs f (last_or q is) (rev_onto is acc)
Links-Backs f q n acc [] b l = b
Links-Backs f q n acc (i ∷ []) b l = (refl, rw l.prev b)
Links-Backs f q n acc (i ∷ j ∷ is) b (l, ls) =
    Links-Backs f (some i) n (i ∷ acc) (j ∷ is) (refl, rw l.prev b) ls

pub rev_onto-mem : (is acc : List ℕ) (k : ℕ) → k ∈ rev_onto is acc → (k ∈ is) ⊎ (k ∈ acc)
rev_onto-mem [] acc k m = inr m
rev_onto-mem (i ∷ is) acc k m = elim (rev_onto-mem is (i ∷ acc) k m) [
  | inl a ↦ inl (inr a)
  | inr b ↦ elim b [ inl e ↦ inl (inl e) | inr c ↦ inr c ]
]

pub mem-rev_onto : (is acc : List ℕ) (k : ℕ) → (k ∈ is) ⊎ (k ∈ acc) → k ∈ rev_onto is acc
mem-rev_onto [] acc k (inl m) = absurd m
mem-rev_onto [] acc k (inr m) = m
mem-rev_onto (i ∷ is) acc k (inl (inl e)) = mem-rev_onto is (i ∷ acc) k (inr (inl e))
mem-rev_onto (i ∷ is) acc k (inl (inr m)) = mem-rev_onto is (i ∷ acc) k (inl m)
mem-rev_onto (i ∷ is) acc k (inr m) = mem-rev_onto is (i ∷ acc) k (inr (inr m))

pub IsOnce-rev_onto :
    (is acc : List ℕ) → IsOnce is → IsOnce acc → Disjoint is acc → IsOnce (rev_onto is acc)
IsOnce-rev_onto [] acc o a d = a
IsOnce-rev_onto (i ∷ is) acc (o, os) a d =
    IsOnce-rev_onto is (i ∷ acc) os (d i (inl refl), a)
      (λ k m n. elim n [ inl e ↦ o (mem_eq is e m) | inr x ↦ d k (inr m) x ])

pub length-rev_onto : (is acc : List ℕ) → length (rev_onto is acc) ≡ length is + length acc
length-rev_onto [] acc = omega arith
length-rev_onto (i ∷ is) acc = omega (arith, length-rev_onto is (i ∷ acc))
