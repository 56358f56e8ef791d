-- ===== src/PQueue/Insert.antt =====
-- pqueue_alloc() and pqueue_insert().
use distwalk_iouring.Prelude.{
  ℕ, ◌+◌, ◌-◌, ◌<◌, ◌≡◌, ◌≢◌, ◌⊎◌, inl, inr, refl, ◌∙◌, arith, ℕ_discrete,
}
use distwalk_iouring.Prelude.Int.{ℤ}
use distwalk_iouring.Prelude.Run.{ok, fault, ◌>>=◌, Returns, returns, Returns-bind}
use distwalk_iouring.Node.{Node}
use distwalk_iouring.Prelude.Tables.{update}
use distwalk_iouring.PQueue.{PQueue, stack_index, pqueue_alloc, pqueue_insert, up}
use distwalk_iouring.PQueue.Keys.{parent, HasHole, IsHeap, IsHeap-hole}
use distwalk_iouring.PQueue.Links.{IsLinked, keys, IsIn}
use distwalk_iouring.PQueue.Up.{Raised, up-Returns}

-- The heap is linked and in order, and the stack holds free indices, each once.
pub record IsValid (q : PQueue) : Type 0 where
  pub linked : IsLinked q
  pub heap : IsHeap (keys q) q.size
  pub free : (j : ℕ) → j < q.capacity - q.size → q.stack j < q.capacity
  pub unused : (j : ℕ) → j < q.capacity - q.size → IsIn q (q.stack j) → ⊥
  pub once : (i j : ℕ) → i < j → j < q.capacity - q.size → q.stack i ≢ q.stack j

-- pqueue_alloc() makes an empty valid queue, whatever the arrays held.
pub pqueue_alloc-IsValid :
    (nodes : ℕ → Node) (heap : ℕ → ℕ) (capacity : ℕ)
    → IsValid (pqueue_alloc nodes heap capacity)
      × ((n : ℕ) → IsIn (pqueue_alloc nodes heap capacity) n → ⊥)
unfolding pqueue_alloc
pqueue_alloc-IsValid nodes heap capacity = (
  record {
    linked = record {
      fits = omega arith;
      inside = λ i p. absurd (omega arith);
      place = λ i p. absurd (omega arith);
    };
    heap = λ c p l. absurd (omega arith);
    free = λ j l. omega arith;
    unused = λ j l h. omega (arith, h.at);
    once = λ i j l m. omega arith;
  },
  λ n h. omega (arith, h.at),
)

-- What pqueue_insert() leaves of `q`: one node more in the heap, with the key and the datum.
pub record Inserted (q : PQueue) (key : ℤ) (payload : ℕ) (n : ℕ) (r : PQueue) : Type 0 where
  pub valid : IsValid r
  pub size : r.size ≡ q.size + 1
  pub capacity : r.capacity ≡ q.capacity
  pub new : IsIn q n → ⊥
  pub there : IsIn r n
  pub has_key : (r.nodes n).key ≡ key
  pub has_payload : (r.nodes n).payload ≡ payload
  pub others : (m : ℕ) → IsIn q m → IsIn r m
  pub only : (m : ℕ) → IsIn r m → (m ≡ n) ⊎ IsIn q m
  pub kept_key : (m : ℕ) → IsIn q m → (r.nodes m).key ≡ (q.nodes m).key
  pub kept_payload : (m : ℕ) → IsIn q m → (r.nodes m).payload ≡ (q.nodes m).payload

module _ {q : PQueue} (key : ℤ) (payload : ℕ) (v : IsValid q) (room : q.size < q.capacity) where
  abbrev taken : ℕ
  taken = q.stack (q.capacity - q.size - 1)

  -- the queue before up() runs
  abbrev placed : PQueue
  placed = record q {
    nodes = update q.nodes taken (record { heap_id = q.size; key = key; payload = payload });
    heap = update q.heap q.size taken;
    size = q.size + 1;
  }

  taken_in : taken < q.capacity
  taken_in = v.free _ (omega arith)

  taken_free : IsIn q taken → ⊥
  taken_free = v.unused _ (omega arith)

  insert-eq : pqueue_insert q key payload ≡ (up (q.size + 2) placed taken >>= λ r. ok (taken, r))
  unfolding pqueue_insert stack_index
  insert-eq = ground (arith, taken_in)

  -- A place in the heap does not hold the index taken.
  other_node : (i : ℕ) → i < q.size → q.heap i ≢ taken
  other_node i p e =
      taken_free
        (record { at = rw (← e, v.linked.place i p) p; back = rw (← e, v.linked.place i p) refl })

  placed-IsLinked : IsLinked placed
  placed-IsLinked = record {
    fits = omega arith;
    inside = λ i p. ground (arith, taken_in, v.linked.inside i);
    place = λ i p. ground (arith, v.linked.place i, other_node i);
  }

  placed_key : (i : ℕ) → i < q.size → keys placed i ≡ keys q i
  placed_key i p = ground (arith, other_node i)

  placed-HasHole : HasHole (keys placed) (q.size + 1) q.size
  placed-HasHole = record {
    edges = λ c p l ne ne'.
        rw (placed_key c (omega arith), placed_key (parent c) (omega arith))
          (v.heap c p (omega arith));
    bridged = λ c p l e q. absurd (omega arith);
  }

  placed-only : (m : ℕ) → IsIn placed m → (m ≡ taken) ⊎ IsIn q m
  placed-only m h = elim (ℕ_discrete m taken) [
    | yes e ↦ inl e
    | no ne ↦ inr (ground (arith, h.at, h.back))
  ]

  placed-others : (m : ℕ) → IsIn q m → IsIn placed m
  placed-others m h =
      let ne : m ≢ taken = λ e. taken_free (rw e at h) in ground (arith, h.at, h.back)

  placed-there : IsIn placed taken
  placed-there = ground arith

  module _ {r : PQueue} (x : Raised placed taken q.size r) where
    raised-IsHeap : IsHeap (keys r) r.size
    raised-IsHeap = IsHeap-hole x.hole (x.below λ c p l e. absurd (omega arith)) x.above

    raised-unused : (j : ℕ) → j < q.capacity - (q.size + 1) → IsIn r (q.stack j) → ⊥
    raised-unused j l h = elim (placed-only (q.stack j) (x.same.only (q.stack j) h)) [
      | inl e ↦ v.once j (q.capacity - q.size - 1) (omega arith) (omega arith) e
      | inr i ↦ v.unused j (omega arith) i
    ]

    raised-IsValid : IsValid r
    raised-IsValid = record {
      linked = x.linked;
      heap = raised-IsHeap;
      free = λ j l.
          rw (x.same.stack j, x.same.capacity)
            (v.free j (omega (arith, x.same.size, x.same.capacity)));
      unused = λ j l h.
          raised-unused j (omega (arith, x.same.size, x.same.capacity)) (rw (x.same.stack j) at h);
      once = λ i j l m.
          rw (x.same.stack i, x.same.stack j)
            (v.once i j l (omega (arith, x.same.size, x.same.capacity)));
    }

    raised-Inserted : Inserted q key payload taken r
    raised-Inserted = record {
      valid = raised-IsValid;
      size = x.same.size;
      capacity = x.same.capacity;
      new = taken_free;
      there = x.same.there taken placed-there;
      has_key = x.same.key taken ∙ (ground arith);
      has_payload = x.same.payload taken ∙ (ground arith);
      others = λ m h. x.same.there m (placed-others m h);
      only = λ m h. placed-only m (x.same.only m h);
      kept_key =
          λ m h. let ne : m ≢ taken = λ e. taken_free (rw e at h) in x.same.key m ∙ (ground arith);
      kept_payload = λ m h.
          let ne : m ≢ taken = λ e. taken_free (rw e at h) in x.same.payload m ∙ (ground arith);
    }

-- pqueue_insert() on a valid queue with room ends without an access outside the arrays. It returns
-- a node that was not in the heap and now is, with the key and the datum given; the nodes that were
-- in the heap stay, with their keys and data, and no other comes in; the queue stays valid.
pub pqueue_insert-Inserted :
    {q : PQueue} (key : ℤ) (payload : ℕ)
    → IsValid q
    → q.size < q.capacity
    → Returns (λ (r : ℕ × PQueue). Inserted q key payload r.0 r.1) (pqueue_insert q key payload)
pqueue_insert-Inserted {q} key payload v room =
    let rise =
      up-Returns (q.size + 2) (placed key payload v room) q.size (omega arith)
        (placed-IsLinked key payload v room) (omega arith) (placed-HasHole key payload v room) in
    let at : (placed key payload v room).heap q.size ≡ taken key payload v room = ground arith in
    rw (insert-eq key payload v room)
      (Returns-bind (rw at at rise) λ r x. returns (raised-Inserted key payload v room x))

-- pqueue_insert() into a full queue reads in front of the stack.
pub pqueue_insert-full :
    (q : PQueue) (key : ℤ) (payload : ℕ) → q.size ≡ q.capacity → pqueue_insert q key payload ≡ fault
unfolding pqueue_insert stack_index
pqueue_insert-full q key payload e = ground arith
