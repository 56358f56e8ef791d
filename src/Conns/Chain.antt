-- ===== src/Conns/Chain.antt =====
-- The list of requests of a connection, as a list of indices: linked both ways, each index once,
-- and each request in progress.
use distwalk_iouring.Prelude.{
  ℕ, ◌≡◌, ◌≢◌, refl, sym, ◌∙◌, inl, inr, Option, none, some, List, [], ◌∷◌, ◌++◌,
}
use distwalk_iouring.Prelude.Int.{negsuc}
use distwalk_iouring.Request.{Request}
use distwalk_iouring.Conns.{Conns}
use distwalk_iouring.Conns.Members.{head?, last_or, ◌∈◌, IsOnce, last-mem, mem_eq, some_injective}

-- One link of the list, between the entries `q` and `n`.
pub record Link (f : ℕ → Request) (q : Option ℕ) (i : ℕ) (n : Option ℕ) : Type 0 where
  pub prev : (f i).prev ≡ q
  pub next : (f i).next ≡ n
  pub live : (f i).req_id ≢ negsuc 0

-- The requests `is`, one behind the other, behind `q` and before `n`.
abbrev pub Links : (ℕ → Request) → Option ℕ → List ℕ → Option ℕ → Type 0
Links f q [] n = Unit {0}
Links f q (i ∷ []) n = Link f q i n
Links f q (i ∷ j ∷ is) n = Link f q i (some j) × Links f (some i) (j ∷ is) n

-- Two tables have the same links at an entry.
pub record SameLink (f g : ℕ → Request) (i : ℕ) : Type 0 where
  pub prev : (g i).prev ≡ (f i).prev
  pub next : (g i).next ≡ (f i).next
  pub id : (g i).req_id ≡ (f i).req_id

pub Link-same :
    {f g : ℕ → Request} {q n : Option ℕ} {i : ℕ} → SameLink f g i → Link f q i n → Link g q i n
Link-same s l = record {
  prev = s.prev ∙ l.prev;
  next = s.next ∙ l.next;
  live = λ e. l.live (sym s.id ∙ e);
}

pub Links-same :
    {f g : ℕ → Request} (q n : Option ℕ) (is : List ℕ)
    → ((i : ℕ) → i ∈ is → SameLink f g i)
    → Links f q is n
    → Links g q is n
Links-same q n [] h l = tt
Links-same q n (i ∷ []) h l = Link-same (h i (inl refl)) l
Links-same q n (i ∷ j ∷ is) h (l, ls) =
    (Link-same (h i (inl refl)) l, Links-same (some i) n (j ∷ is) (λ k m. h k (inr m)) ls)

pub Links-live :
    (f : ℕ → Request) (q n : Option ℕ) (is : List ℕ) (i : ℕ)
    → Links f q is n
    → i ∈ is
    → (f i).req_id ≢ negsuc 0
Links-live f q n [] i l m = absurd m
Links-live f q n (k ∷ []) i l (inl e) = rw e l.live
Links-live f q n (k ∷ []) i l (inr m) = absurd m
Links-live f q n (k ∷ j ∷ is) i (l, ls) (inl e) = rw e l.live
Links-live f q n (k ∷ j ∷ is) i (l, ls) (inr m) = Links-live f (some k) n (j ∷ is) i ls m

pub record IsList (s : Conns) (c : ℕ) (is : List ℕ) : Type 0 where
  pub head : (s.conns c).req_list ≡ head? is
  pub links : Links s.requests.reqs none is none
  pub once : IsOnce is

-- A list that ends behind `r`, and one that goes on from it.
pub Links-append :
    (f : ℕ → Request) (q n : Option ℕ) (is : List ℕ) (r : ℕ) (js : List ℕ)
    → Links f q (is ++ r ∷ js) n
    → Links f q is (some r) × Links f (last_or q is) (r ∷ js) n
Links-append f q n [] r js l = (tt, l)
Links-append f q n (i ∷ []) r js (l, ls) = (l, ls)
Links-append f q n (i ∷ j ∷ is) r js (l, ls) =
    let (a, b) = Links-append f (some i) n (j ∷ is) r js ls in ((l, a), b)

-- Two parts of a list that meet.
pub Links-join :
    (f : ℕ → Request) (q : Option ℕ) (is js : List ℕ)
    → Links f q is (head? js)
    → Links f (last_or q is) js none
    → Links f q (is ++ js) none
Links-join f q [] js l m = m
Links-join f q (i ∷ []) [] l m = l
Links-join f q (i ∷ []) (j ∷ js) l m = (l, m)
Links-join f q (i ∷ k ∷ is) js (l, ls) m = (l, Links-join f (some i) (k ∷ is) js ls m)

-- Links that lead to another end than before.
pub Links-end :
    (f g : ℕ → Request) (q n n' : Option ℕ) (is : List ℕ)
    → IsOnce is
    → ((i : ℕ) → i ∈ is → ((g i).prev ≡ (f i).prev) × ((g i).req_id ≡ (f i).req_id))
    → ((i : ℕ) → i ∈ is → last_or q is ≡ some i → (g i).next ≡ n')
    → ((i : ℕ) → i ∈ is → last_or q is ≢ some i → (g i).next ≡ (f i).next)
    → Links f q is n
    → Links g q is n'
Links-end f g q n n' [] o a b c l = tt
Links-end f g q n n' (i ∷ []) o a b c l =
    let (p, d) = a i (inl refl) in
    record { prev = p ∙ l.prev; next = b i (inl refl) refl; live = λ e. l.live (sym d ∙ e) }
Links-end f g q n n' (i ∷ j ∷ is) (o, os) a b c (l, ls) =
    let (k, ek, mk) = last-mem (some i) j is in
    let (p, d) = a i (inl refl) in
    let apart : some k ≢ some i = λ e. o (mem_eq (j ∷ is) (some_injective e) mk) in
    (
      record {
        prev = p ∙ l.prev;
        next = c i (inl refl) (λ e. apart (sym ek ∙ e)) ∙ l.next;
        live = λ e. l.live (sym d ∙ e);
      },
      Links-end f g (some i) n n' (j ∷ is) os (λ x m. a x (inr m)) (λ x m. b x (inr m))
          (λ x m. c x (inr m)) ls,
    )

-- The first of the links.
pub Links-first :
    (f : ℕ → Request) (q : Option ℕ) (i : ℕ) (is : List ℕ)
    → Links f q (i ∷ is) none
    → Link f q i (head? is)
Links-first f q i [] l = l
Links-first f q i (j ∷ is) (l, ls) = l

pub Links-rest :
    (f : ℕ → Request) (q : Option ℕ) (i : ℕ) (is : List ℕ)
    → Links f q (i ∷ is) none
    → Links f (some i) is none
Links-rest f q i [] l = tt
Links-rest f q i (j ∷ is) (l, ls) = ls

-- Links that start from another place than before.
pub Links-start :
    (f g : ℕ → Request) (q q' : Option ℕ) (is : List ℕ)
    → IsOnce is
    → ((i : ℕ) → head? is ≡ some i → (g i).prev ≡ q')
    → ((i : ℕ) → i ∈ is → ((g i).next ≡ (f i).next) × ((g i).req_id ≡ (f i).req_id))
    → ((i : ℕ) → i ∈ is → head? is ≢ some i → (g i).prev ≡ (f i).prev)
    → Links f q is none
    → Links g q' is none
Links-start f g q q' [] o a b c l = tt
Links-start f g q q' (i ∷ []) o a b c l =
    let (n, d) = b i (inl refl) in
    record { prev = a i refl; next = n ∙ l.next; live = λ e. l.live (sym d ∙ e) }
Links-start f g q q' (i ∷ j ∷ is) (o, os) a b c (l, ls) =
    let (n, d) = b i (inl refl) in
    (
      record { prev = a i refl; next = n ∙ l.next; live = λ e. l.live (sym d ∙ e) },
      Links-same (some i) none (j ∷ is) same ls,
    )
  where
    same : (k : ℕ) → k ∈ (j ∷ is) → SameLink f g k
    same k m =
        let (n, d) = b k (inr m) in
        record {
          prev = c k (inr m) (λ e. o (mem_eq (j ∷ is) (sym (some_injective e)) m));
          next = n;
          id = d;
        }
