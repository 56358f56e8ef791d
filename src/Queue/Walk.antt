-- ===== src/Queue/Walk.antt =====
-- The iterator of queue.h: in which order it visits the nodes, and when it misses them.
use distwalk_iouring.Prelude.{
  ℕ, zero, suc, ◌+◌, ◌%◌, ◌≤◌, ◌<◌, ◌≡◌, refl, sym, ap, ◌∙◌, ◌⊎◌, false, some, [], arith, tabulate,
  leb,
}
use distwalk_iouring.Prelude.Int.{pos, negsuc}
use distwalk_iouring.Prelude.Run.{ok}
use distwalk_iouring.Queue.{
  Queue, queue_itr_begin, queue_itr_has_next, queue_node, queue_itr_next, walk,
}
use distwalk_iouring.Queue.Fifo.{IsValid, slot}
use native.Mathlib.Decide.{dec_lt}
use native.Mathlib.Nat.{mod-eq_of_lt, mod_self}

has_next_iff :
    (q : Queue) (i t : ℕ) → q.tail ≡ pos t → 0 < q.size → queue_itr_has_next q (pos i) ≡ leb i t
unfolding queue_itr_has_next
has_next_iff q i t e h = ground arith

has_next_none : (q : Queue) (n : ℕ) → queue_itr_has_next q (negsuc n) ≡ false
unfolding queue_itr_has_next
has_next_none q n = refl

module _ (q : Queue) (t : ℕ) (e : q.tail ≡ pos t) (some_item : 0 < q.size)
    (inside : t < q.capacity) where
  next-inner : (i : ℕ) → q.head ≤ i → i < t → queue_itr_next q (pos i) ≡ (some (pos i), pos (i + 1))
  unfolding queue_itr_next queue_node
  next-inner i h l =
      let m : (i + 1) % q.capacity ≡ i + 1 = mod-eq_of_lt (omega arith) in
      rw (m, has_next_iff q (i + 1) t e some_item, has_next_iff q i t e some_item) (ground arith)

  next-end : t + 1 < q.capacity → queue_itr_next q (pos t) ≡ (some (pos t), pos (t + 1))
  unfolding queue_itr_next queue_node
  next-end l =
      let m : (t + 1) % q.capacity ≡ t + 1 = mod-eq_of_lt l in
      rw (m, has_next_iff q (t + 1) t e some_item, has_next_iff q t t e some_item) (ground arith)

  next-wrap : t + 1 ≡ q.capacity → q.head ≡ 0 → queue_itr_next q (pos t) ≡ (some (pos t), negsuc 0)
  unfolding queue_itr_next queue_node
  next-wrap l z =
      let m : (t + 1) % q.capacity ≡ 0 = ap (λ k. k % q.capacity) l ∙ mod_self q.capacity in
      rw (m, has_next_iff q 0 t e some_item, has_next_iff q t t e some_item) (ground arith)

  -- From the node at `i` on, the nodes up to the tail.
  walk-from :
      (k i fuel : ℕ)
      → q.head ≤ i
      → i + k ≡ t
      → (t + 1 < q.capacity) ⊎ (q.head ≡ 0)
      → k + 1 < fuel
      → walk fuel q (pos i) ≡ ok (tabulate (λ j. pos j) i (suc k))
  unfolding walk
  walk-from k i zero h s c f = absurd (omega arith)
  walk-from zero i (suc zero) h s c f = absurd (omega arith)
  walk-from zero i (suc (suc fuel)) h s c f =
      let at : i ≡ t = omega arith in
      rw at (elim (dec_lt (t + 1) q.capacity) [
        | yes l ↦ ground (
          arith,
          next-end l,
          has_next_iff q t t e some_item,
          has_next_iff q (t + 1) t e some_item,
        )
        | no l ↦ ground (
          arith,
          next-wrap (omega arith) (omega arith),
          has_next_iff q t t e some_item,
          has_next_none q 0,
        )
      ])
  walk-from (suc k) i (suc fuel) h s c f =
      rw
        (
          next-inner i h (omega arith),
          has_next_iff q i t e some_item,
          walk-from k (i + 1) fuel (omega arith) (omega arith) c (omega arith),
        )
        (ground arith)

-- The iterator over a valid queue of one item or more that is not wrapped, and whose tail is not in
-- the last slot unless the head is in the first, visits the slots from the head to the tail, each
-- once and in order. The model's fuel is enough above the number of items.
pub walk_in_order :
    (q : Queue) (n fuel : ℕ)
    → IsValid q
    → q.size ≡ suc n
    → q.tail ≡ pos (q.head + n)
    → (q.head + n + 1 < q.capacity) ⊎ (q.head ≡ 0)
    → suc n < fuel
    → walk fuel q (queue_itr_begin q) ≡ ok (tabulate (λ i. pos i) q.head q.size)
unfolding queue_itr_begin
walk_in_order q n fuel v es et c f =
    walk-from q (q.head + n) et (omega arith) (omega (arith, v.tail_high, ap slot et)) n q.head fuel
      (omega arith) (omega arith) c (omega arith)
    ∙ ap (λ k. ok (tabulate (λ i. pos i) q.head k)) (sym es)

-- The iterator over a queue whose tail is in a slot before its head (a ring that is wrapped) visits
-- nothing, whatever the queue holds.
pub walk-wrapped :
    (q : Queue) (t fuel : ℕ)
    → q.tail ≡ pos t
    → t < q.head
    → walk (suc fuel) q (queue_itr_begin q) ≡ ok []
unfolding walk queue_itr_begin queue_itr_has_next
walk-wrapped q t fuel et h = ground arith
