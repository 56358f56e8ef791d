-- ===== src/PQueue/Links.antt =====
-- The heap and the nodes point at each other; what swap_node() keeps of that.
use distwalk_iouring.Prelude.{ℕ, ◌≤◌, ◌<◌, ◌≡◌, ◌≢◌, refl, sym, ap, ◌∙◌, arith, ℕ_discrete}
use distwalk_iouring.Prelude.Run.{ok}
use distwalk_iouring.Prelude.Tables.{update}
use distwalk_iouring.PQueue.{PQueue, bounded, swap_node, node_at}
use distwalk_iouring.PQueue.Keys.{Keys, Swapped}

-- Each place of the heap holds a node that knows the place.
pub record IsLinked (q : PQueue) : Type 0 where
  pub fits : q.size ≤ q.capacity
  pub inside : (i : ℕ) → i < q.size → q.heap i < q.capacity
  pub place : (i : ℕ) → i < q.size → (q.nodes (q.heap i)).heap_id ≡ i

abbrev pub keys : PQueue → Keys
keys q i = (q.nodes (q.heap i)).key

-- The node `n` is in the heap.
pub record IsIn (q : PQueue) (n : ℕ) : Type 0 where
  pub at : (q.nodes n).heap_id < q.size
  pub back : q.heap (q.nodes n).heap_id ≡ n

-- The same nodes in the heap, with the same keys and data, and the same free indices.
pub record SameNodes (q r : PQueue) : Type 0 where
  pub size : r.size ≡ q.size
  pub capacity : r.capacity ≡ q.capacity
  pub stack : (i : ℕ) → r.stack i ≡ q.stack i
  pub key : (n : ℕ) → (r.nodes n).key ≡ (q.nodes n).key
  pub payload : (n : ℕ) → (r.nodes n).payload ≡ (q.nodes n).payload
  pub there : (n : ℕ) → IsIn q n → IsIn r n
  pub only : (n : ℕ) → IsIn r n → IsIn q n

pub SameNodes-refl : (q : PQueue) → SameNodes q q
SameNodes-refl q = record {
  size = refl;
  capacity = refl;
  stack = λ i. refl;
  key = λ n. refl;
  payload = λ n. refl;
  there = λ n h. h;
  only = λ n h. h;
}

pub SameNodes-trans : {q r s : PQueue} → SameNodes q r → SameNodes r s → SameNodes q s
SameNodes-trans a b = record {
  size = b.size ∙ a.size;
  capacity = b.capacity ∙ a.capacity;
  stack = λ i. b.stack i ∙ a.stack i;
  key = λ n. b.key n ∙ a.key n;
  payload = λ n. b.payload n ∙ a.payload n;
  there = λ n h. b.there n (a.there n h);
  only = λ n h. a.only n (b.only n h);
}

pub heap-injective :
    {q : PQueue} → IsLinked q → (i j : ℕ) → i < q.size → j < q.size → q.heap i ≡ q.heap j → i ≡ j
heap-injective {q} l i j p r e = sym (l.place i p) ∙ ap (λ n. (q.nodes n).heap_id) e ∙ l.place j r

pub bounded-ok {ℓ} :
    {A : Type ℓ} {q : PQueue}
    → IsLinked q
    → (i : ℕ) → i < q.size
    → (a : A) → bounded q (q.heap i) a ≡ ok a
bounded-ok l i p a = ground (arith, l.inside i p)

pub node_at-ok : {q : PQueue} → IsLinked q → (i : ℕ) → i < q.size → node_at q i ≡ ok (q.heap i)
unfolding node_at
node_at-ok {q} l i p = ground (arith, l.inside i p, l.fits)

-- What swap_node() leaves of the nodes at places `i` and `j`.
abbrev pub exchanged : PQueue → ℕ → ℕ → PQueue
exchanged q i j = record q {
  heap = update (update q.heap i (q.heap j)) j (q.heap i);
  nodes =
      update (update q.nodes (q.heap i) (record (q.nodes (q.heap i)) { heap_id = j })) (q.heap j)
        (record (q.nodes (q.heap j)) { heap_id = i });
}

module _ {q : PQueue} (l : IsLinked q) (i j : ℕ) (hi : i < q.size) (hj : j < q.size)
    (ne : i ≢ j) where
  abbrev pub q' : PQueue
  q' = exchanged q i j

  pub exchanged-left : q'.heap i ≡ q.heap j
  exchanged-left = ground arith

  pub exchanged-right : q'.heap j ≡ q.heap i
  exchanged-right = ground arith

  apart : q.heap i ≢ q.heap j
  apart e = ne (heap-injective l i j hi hj e)

  pub swap_node-ok : swap_node q (q.heap i) (q.heap j) ≡ ok q'
  unfolding swap_node
  swap_node-ok =
      ground (arith, l.inside i hi, l.inside j hj, l.place i hi, l.place j hj, l.fits, apart)

  exchanged-place : (c : ℕ) → c < q.size → (q'.nodes (q'.heap c)).heap_id ≡ c
  exchanged-place c p = elim (ℕ_discrete c j) [
    | yes e ↦ ground (arith, apart)
    | no cj ↦ elim (ℕ_discrete c i) [
      | yes e ↦ ground (arith, apart)
      | no ci ↦
          let ni : q.heap c ≢ q.heap i = λ e. ci (heap-injective l c i p hi e) in
          let nj : q.heap c ≢ q.heap j = λ e. cj (heap-injective l c j p hj e) in
          ground (arith, ni, nj, l.place c p)
    ]
  ]

  pub exchanged-IsLinked : IsLinked q'
  exchanged-IsLinked = record {
    fits = l.fits;
    inside = λ c p. ground (arith, l.inside i hi, l.inside j hj, l.inside c p);
    place = exchanged-place;
  }

  exchanged-key : (n : ℕ) → (q'.nodes n).key ≡ (q.nodes n).key
  exchanged-key n = ground arith

  pub exchanged-Swapped : Swapped (keys q) (keys q') i j
  exchanged-Swapped = record {
    at_i = exchanged-key _ ∙ ap (λ n. (q.nodes n).key) (ground arith);
    at_j = exchanged-key _ ∙ ap (λ n. (q.nodes n).key) (ground arith);
    else_where = λ c ci cj. exchanged-key _ ∙ ap (λ n. (q.nodes n).key) (ground arith);
  }

  pub exchanged-SameNodes : SameNodes q q'
  exchanged-SameNodes = record {
    size = refl;
    capacity = refl;
    stack = λ c. refl;
    key = exchanged-key;
    payload = λ n. ground arith;
    there = λ n h. ground (arith, h.at, h.back, l.place i hi, l.place j hj, apart);
    only = λ n h. ground (arith, h.at, h.back, l.place i hi, l.place j hj, apart);
  }
