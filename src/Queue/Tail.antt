-- ===== src/Queue/Tail.antt =====
-- queue_dequeue_tail(): the newest item, and the case in which the ring wraps behind it.
use distwalk_iouring.Prelude.{
  ℕ, suc, ◌+◌, ◌-◌, ◌%◌, ◌≤◌, ◌<◌, ◌≡◌, sym, ap, ◌∙◌, ◌⊎◌, [], ◌∷◌, ◌++◌, arith, tabulate,
  tabulate-snoc,
}
use distwalk_iouring.Prelude.Int.{ℤ, pos, negsuc, ◌-ℤ◌}
use distwalk_iouring.Prelude.Run.{fault}
use distwalk_iouring.Queue.{Queue, rem_ℤ, queue_dequeue_tail, queue_tail}
use distwalk_iouring.Queue.Fifo.{IsValid, slot, item_at, items, mod_once}
use native.Mathlib.Nat.{mod-eq_of_lt}

-- (tail - 1) % capacity
step_back : ℤ → ℕ → ℤ
unfolding rem_ℤ
step_back t c = rem_ℤ (t -ℤ pos 1) c

step_back-suc : (t c : ℕ) → t < c → step_back (pos (suc t)) c ≡ pos t
unfolding step_back ◌-ℤ◌
step_back-suc t c h = ground (arith, mod-eq_of_lt h)

step_back-zero : (c : ℕ) → 1 < c → step_back (pos 0) c ≡ negsuc 0
unfolding step_back ◌-ℤ◌
step_back-zero c h = ground (arith, mod-eq_of_lt h)

-- One step back on both sides of a remainder.
mod_back : (x y c : ℕ) → x < c → y + 1 < c + c → (x + 1) % c ≡ (y + 1) % c → x ≡ y % c
mod_back x y c hx hy e =
    let px = mod_once (x + 1) c (omega arith) (omega arith) in
    let py = mod_once (y + 1) c (omega arith) (omega arith) in
    let p = mod_once y c (omega arith) (omega arith) in
    parts x y c ((x + 1) % c) ((y + 1) % c) (y % c) hx px py p e
  where
    parts :
        (x y c mx my m : ℕ)
        → x < c
        → ((x + 1 < c) × (mx ≡ x + 1)) ⊎ ((c ≤ x + 1) × (mx ≡ x + 1 - c))
        → ((y + 1 < c) × (my ≡ y + 1)) ⊎ ((c ≤ y + 1) × (my ≡ y + 1 - c))
        → ((y < c) × (m ≡ y)) ⊎ ((c ≤ y) × (m ≡ y - c))
        → mx ≡ my
        → x ≡ m
    parts x y c mx my m h a b d e = omega arith

module _ {q : Queue} (n t : ℕ) (v : IsValid q) (e : q.size ≡ suc n)
    (et : q.tail ≡ pos (suc t)) where
  abbrev shortened : Queue
  shortened = record q { size = n; tail = pos t }

  back : step_back q.tail q.capacity ≡ pos t
  back = ap (λ k. step_back k q.capacity) et ∙ step_back-suc t q.capacity high
    where
      high : t < q.capacity
      high = omega (arith, v.tail_high, ap slot et)

  dequeue_tail-eq : queue_dequeue_tail q ≡ shortened
  unfolding queue_dequeue_tail step_back
  dequeue_tail-eq = ground (arith, back)

  -- The newest item stands in the slot of the tail.
  newest : (q.head + (0 + n)) % q.capacity ≡ suc t
  newest =
      let high : t + 2 ≤ q.capacity = omega (arith, v.tail_high, ap slot et) in
      let same : (t + 1 + 1) % q.capacity ≡ (q.head + n + 1) % q.capacity =
        ap (λ k. k % q.capacity) (omega (arith, ap slot et))
        ∙ v.tail_next
        ∙ ap (λ k. k % q.capacity) (omega arith) in
      ap (λ k. k % q.capacity) (omega arith)
      ∙ sym (
          mod_back (t + 1) (q.head + n) q.capacity (omega arith)
            (omega (arith, v.size_in, v.head_lt (omega arith))) same)
      ∙ omega arith

  shortened-IsValid : IsValid shortened
  shortened-IsValid = record {
    memory = v.memory;
    head_in = v.head_in;
    head_lt = v.head_lt;
    size_in = omega (arith, v.size_in);
    tail_low = omega arith;
    tail_high = omega (arith, v.tail_high, ap slot et);
    tail_there = λ _. omega arith;
    tail_next =
        ap (λ k. k % q.capacity) (omega arith)
        ∙ mod-eq_of_lt {n = suc t} (omega (arith, v.tail_high, ap slot et))
        ∙ sym newest
        ∙ ap (λ k. k % q.capacity) (omega arith);
  }

  items-shortened : items q ≡ items shortened ++ item_at q.nodes (suc t) ∷ []
  items-shortened =
      ap (tabulate (λ i. item_at q.nodes ((q.head + i) % q.capacity)) 0) e
      ∙ tabulate-snoc _ 0 n
      ∙ ap (λ k. items shortened ++ item_at q.nodes k ∷ []) newest

-- queue_dequeue_tail() on a queue of one item or more, whose tail is not in slot 0, drops the newest
-- item, keeps the others in order, and keeps the invariant.
pub dequeue_tail_refines :
    {q : Queue} (n t : ℕ)
    → IsValid q
    → q.size ≡ suc n
    → q.tail ≡ pos (suc t)
    → IsValid (queue_dequeue_tail q)
      × (items q ≡ items (queue_dequeue_tail q) ++ item_at q.nodes (suc t) ∷ [])
dequeue_tail_refines n t v e et =
    rw (dequeue_tail-eq n t v e et) (shortened-IsValid n t v e et, items-shortened n t v e et)

module _ {q : Queue} (n : ℕ) (v : IsValid q) (e : q.size ≡ suc (suc n)) (et : q.tail ≡ pos 0) where
  dequeue_tail-zero : queue_dequeue_tail q ≡ record q { size = suc n; tail = negsuc 0 }
  unfolding queue_dequeue_tail step_back
  dequeue_tail-zero =
      let back : step_back q.tail q.capacity ≡ negsuc 0 =
        ap (λ k. step_back k q.capacity) et
        ∙ step_back-zero q.capacity (omega (arith, v.size_in)) in
      ground (arith, back)

  -- On a valid queue of two items or more whose tail is in slot 0, queue_dequeue_tail() leaves a
  -- tail of -1: the next queue_tail() points in front of the array, although the queue holds items.
  pub dequeue_tail-wraps_wrong : queue_tail (queue_dequeue_tail q) ≡ fault
  unfolding queue_tail
  dequeue_tail-wraps_wrong = rw dequeue_tail-zero (ground arith)
