-- ===== src/PQueue/TakeOut.antt =====
-- The part that pqueue_remove() and pqueue_pop() share: the last node takes the place of the one
-- that leaves the heap.
use distwalk_iouring.Prelude.{
  ℕ, suc, ◌+◌, ◌-◌, ◌<◌, ◌≡◌, ◌≢◌, refl, sym, ap, ◌∙◌, arith, ℕ_discrete,
}
use distwalk_iouring.Prelude.Run.{ok}
use distwalk_iouring.Prelude.Tables.{update}
use distwalk_iouring.PQueue.{PQueue, stack_index, take_out, take_out_at}
use distwalk_iouring.PQueue.Keys.{parent, HasHole, IsHeap}
use distwalk_iouring.PQueue.Links.{IsLinked, keys, IsIn, SameNodes, heap-injective}
use distwalk_iouring.PQueue.Insert.{IsValid}

-- What pqueue_remove() and pqueue_pop() leave of `q`: the node `n` is out of the heap and all else
-- is as it was.
pub record Removed (q : PQueue) (n : ℕ) (r : PQueue) : Type 0 where
  pub valid : IsValid r
  pub size : r.size + 1 ≡ q.size
  pub capacity : r.capacity ≡ q.capacity
  pub gone : IsIn r n → ⊥
  pub others : (m : ℕ) → IsIn q m → m ≢ n → IsIn r m
  pub only : (m : ℕ) → IsIn r m → IsIn q m
  pub kept_key : (m : ℕ) → (r.nodes m).key ≡ (q.nodes m).key
  pub kept_payload : (m : ℕ) → (r.nodes m).payload ≡ (q.nodes m).payload

module _ (q : PQueue) (n s : ℕ) (v : IsValid q) (i : IsIn q n) (es : q.size ≡ suc s) where
  abbrev pub place : ℕ
  place = (q.nodes n).heap_id

  abbrev pub last : ℕ
  last = q.heap s

  -- the queue that take_out() leaves
  abbrev pub out : PQueue
  out = record q {
    size = s;
    heap = update q.heap place last;
    nodes = update q.nodes last (record (q.nodes last) { heap_id = place });
    stack = update q.stack (q.capacity - s - 1) n;
  }

  place_in : place < suc s
  place_in = rw es at i.at

  fits : s < q.capacity
  fits = omega (arith, v.linked.fits)

  pub last_in : last < q.capacity
  last_in = v.linked.inside s (omega arith)

  last_place : (q.nodes last).heap_id ≡ s
  last_place = v.linked.place s (omega arith)

  n_in : n < q.capacity
  n_in = rw i.back at (v.linked.inside place i.at)

  take_out_at-eq : take_out_at q n (suc s) ≡ ok (last, out)
  unfolding take_out_at stack_index
  take_out_at-eq = ground (arith, n_in, last_in, fits, place_in)

  pub take_out-eq : take_out q n ≡ ok (last, out)
  unfolding take_out
  take_out-eq = ap (take_out_at q n) es ∙ take_out_at-eq

  not_last : (c : ℕ) → c < s → q.heap c ≢ last
  not_last c p e =
      let same = heap-injective v.linked c s (omega arith) (omega arith) e in omega arith

  pub out-IsLinked : IsLinked out
  out-IsLinked = record {
    fits = omega (arith, fits);
    inside = λ c p. ground (arith, last_in, v.linked.inside c);
    place = λ c p. ground (arith, v.linked.place c, not_last c p);
  }

  pub out_key : (m : ℕ) → (out.nodes m).key ≡ (q.nodes m).key
  out_key m = ground arith

  out_payload : (m : ℕ) → (out.nodes m).payload ≡ (q.nodes m).payload
  out_payload m = ground arith

  pub keys-out : (c : ℕ) → c ≢ place → keys out c ≡ keys q c
  keys-out c ne = out_key _ ∙ ap (λ m. (q.nodes m).key) (ground arith)

  out-only : (m : ℕ) → IsIn out m → IsIn q m × (m ≢ n)
  out-only m h = elim (ℕ_discrete m last) [
    | yes e ↦ (
      record { at = rw (e, last_place) (omega arith); back = rw (e, last_place) refl },
      λ e'. ground (arith, last_place, h.at),
    )
    | no ne ↦ (ground (arith, h.at, h.back), λ e'. ground (arith, h.at, h.back, i.back))
  ]

  out-others : (m : ℕ) → IsIn q m → m ≢ n → IsIn out m
  out-others m h ne = ground (arith, h.at, h.back, i.back, place_in, last_place)

  out-free : (j : ℕ) → j < q.capacity - s → out.stack j < q.capacity
  out-free j l = ground (arith, n_in, v.free j)

  out-unused : (j : ℕ) → j < q.capacity - s → IsIn out (out.stack j) → ⊥
  out-unused j l h = elim (ℕ_discrete j (q.capacity - s - 1)) [
    | yes e ↦ let top : out.stack j ≡ n = ground arith in (out-only (out.stack j) h).1 top
    | no ne ↦
        let below : out.stack j ≡ q.stack j = ground arith in
        v.unused j (omega arith) (rw below at ((out-only (out.stack j) h).0))
  ]

  out-once : (j k : ℕ) → j < k → k < q.capacity - s → out.stack j ≢ out.stack k
  out-once j k l m e = elim (ℕ_discrete k (q.capacity - s - 1)) [
    | yes top ↦ let held : q.stack j ≡ n = ground arith in v.unused j (omega arith) (rw held i)
    | no ne ↦ v.once j k l (omega arith) (ground arith)
  ]

  -- With the heap order restored, the node is removed.
  pub out-Removed :
      {r : PQueue} → IsLinked r → SameNodes out r → IsHeap (keys r) r.size → Removed q n r
  out-Removed {r} l x h = record {
    valid = record {
      linked = l;
      heap = h;
      free = λ j p. rw (x.stack j, x.capacity) (out-free j (omega (arith, x.size, x.capacity)));
      unused = λ j p k.
          out-unused j (omega (arith, x.size, x.capacity)) (x.only _ (rw (x.stack j) at k));
      once =
          λ j k p m. rw (x.stack j, x.stack k) (out-once j k p (omega (arith, x.size, x.capacity)));
    };
    size = omega (arith, x.size);
    capacity = x.capacity;
    gone = λ k. (out-only n (x.only n k)).1 refl;
    others = λ m k ne. x.there m (out-others m k ne);
    only = λ m k. (out-only m (x.only m k)).0;
    kept_key = λ m. x.key m ∙ out_key m;
    kept_payload = λ m. x.payload m ∙ out_payload m;
  }

  -- The node that has moved may be out of order where it is now, and no other is.
  pub out-HasHole : place < s → HasHole (keys out) s place
  out-HasHole lt = record {
    edges = λ c p l ne ne'. rw (keys-out c ne, keys-out (parent c) ne') (v.heap c p (omega arith));
    bridged = λ c p l e z.
        let up_edge = v.heap place z (omega arith) in
        let down_edge = v.heap c p (omega arith) in
        rw (keys-out c (omega arith), keys-out (parent place) (omega arith))
          (omega (arith, up_edge, rw e at down_edge));
  }

  -- Where the node that leaves is the last one, the rest is still a heap.
  pub out-IsHeap : place ≡ s → IsHeap (keys out) s
  out-IsHeap e c p l =
      rw (keys-out c (omega arith), keys-out (parent c) (omega arith)) (v.heap c p (omega arith))

  pub last-is-n : place ≡ s → last ≡ n
  last-is-n e = ap q.heap (sym e) ∙ i.back
