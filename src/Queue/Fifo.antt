-- ===== src/Queue/Fifo.antt =====
-- The ring holds a list of keys and data, oldest first: what each operation does to that list.
use distwalk_iouring.Prelude.{
  ℕ, suc, ◌+◌, ◌-◌, ◌%◌, ◌≤◌, ◌<◌, ◌≡◌, ◌≢◌, refl, sym, ap, ap₂, ◌∙◌, Option, none, some, List, [],
  ◌∷◌, ◌++◌, ◌⊎◌, inl, inr, arith, length, get_or, set, length-set, get_or-set_self, get_or-set_ne,
  tabulate, tabulate-ext, tabulate-snoc, tabulate-shift,
}
use distwalk_iouring.Prelude.Int.{ℤ, pos, pos_part, neg_part, ◌+ℤ◌}
use distwalk_iouring.Prelude.Run.{ok, Returns, returns}
use distwalk_iouring.Node.{Node, no_node}
use distwalk_iouring.Queue.{
  Queue, rem_ℤ, queue_alloc, queue_enqueue, queue_dequeue_head, queue_drop,
}
use native.Mathlib.Nat.{mod-add-mod, mod-eq_of_lt, mod-eq-sub-mod, mod-lt}
use native.Mathlib.Decide.{dec_lt}

-- The slot behind `tail`.
abbrev pub slot : ℤ → ℕ
slot t = pos_part t + 1 - neg_part t

pub record IsValid (q : Queue) : Type 0 where
  pub memory : q.capacity ≤ length q.nodes
  pub head_in : q.head ≤ q.capacity
  pub head_lt : 0 < q.capacity → q.head < q.capacity
  pub size_in : q.size ≤ q.capacity
  pub tail_low : neg_part q.tail ≤ 1
  pub tail_high : slot q.tail ≤ q.capacity
  pub tail_there : 0 < q.size → 0 < slot q.tail
  pub tail_next : slot q.tail % q.capacity ≡ (q.head + q.size) % q.capacity

abbrev pub item_at : List Node → ℕ → ℤ × ℕ
item_at nodes i = let n = get_or nodes i no_node in (n.key, n.payload)

-- The keys and data from the head on.
abbrev pub items : Queue → List (ℤ × ℕ)
items q = tabulate (λ i. item_at q.nodes ((q.head + i) % q.capacity)) 0 q.size

-- queue_alloc() with memory for the capacity gives a valid queue that holds nothing.
pub queue_alloc-IsValid :
    (memory : List Node) (capacity : ℕ)
    → capacity ≤ length memory
    → IsValid (queue_alloc memory capacity) × (items (queue_alloc memory capacity) ≡ [])
unfolding queue_alloc
queue_alloc-IsValid memory capacity h = (omega arith, refl)

pub queue_drop-IsValid :
    {q : Queue} → IsValid q → IsValid (queue_drop q) × (items (queue_drop q) ≡ [])
unfolding queue_drop
queue_drop-IsValid v = (omega (arith, v.memory), refl)

pub enqueue-full :
    (q : Queue) (key : ℤ) (payload : ℕ)
    → q.size ≡ q.capacity
    → queue_enqueue q key payload ≡ ok (none, q)
unfolding queue_enqueue
enqueue-full q key payload e = ground arith

tail_step : (t : ℤ) (c : ℕ) → neg_part t ≤ 1 → rem_ℤ (t +ℤ pos 1) c ≡ pos (slot t % c)
unfolding rem_ℤ ◌+ℤ◌
tail_step t c h = ground arith

-- One remainder of a number below twice the modulus.
pub mod_once : (x c : ℕ) → 0 < c → x < c + c → ((x < c) × (x % c ≡ x)) ⊎ ((c ≤ x) × (x % c ≡ x - c))
mod_once x c p h = elim (dec_lt x c) [
  | yes l ↦ inl (l, mod-eq_of_lt l)
  | no l ↦ inr (
    omega arith,
    mod-eq-sub-mod {n = x} {m = c} (omega arith) ∙ mod-eq_of_lt {n = x - c} {m = c} (omega arith),
  )
]

-- Different distances from the head, both within the capacity, are different slots.
slots_differ :
    (head cap j n : ℕ) → head < cap → j < n → n < cap → (head + j) % cap ≢ (head + n) % cap
slots_differ head cap j n h l m e = omega (
  arith,
  mod_once (head + j) cap (omega arith) (omega arith),
  mod_once (head + n) cap (omega arith) (omega arith),
  e,
)

module _ {q : Queue} (key : ℤ) (payload : ℕ) (v : IsValid q) (room : q.size < q.capacity) where
  -- the slot that queue_enqueue() fills, and the queue that it leaves
  abbrev filled : ℕ
  filled = slot q.tail % q.capacity

  abbrev enqueued : Queue
  enqueued = record q {
    tail = pos filled;
    nodes =
        set q.nodes filled
          (record (get_or q.nodes filled no_node) { key = key; payload = payload });
    size = q.size + 1;
  }

  filled_in : filled < q.capacity
  filled_in = mod-lt (slot q.tail) (omega arith)

  pub enqueue-eq : queue_enqueue q key payload ≡ ok (some filled, enqueued)
  unfolding queue_enqueue
  enqueue-eq = rw (tail_step q.tail q.capacity v.tail_low) (ground (arith, filled_in, v.memory))

  pub enqueued-IsValid : IsValid enqueued
  enqueued-IsValid = record {
    memory = omega (
      arith,
      v.memory,
      length-set q.nodes filled
          (record (get_or q.nodes filled no_node) { key = key; payload = payload }),
    );
    head_in = v.head_in;
    head_lt = v.head_lt;
    size_in = omega arith;
    tail_low = omega arith;
    tail_high = omega (arith, filled_in);
    tail_there = λ _. omega arith;
    tail_next =
        ap (λ k. k % q.capacity) (omega (arith, v.tail_next))
        ∙ mod-add-mod (q.head + q.size) q.capacity 1
        ∙ ap (λ k. k % q.capacity) (omega arith);
  }

  kept :
      (j : ℕ)
      → 0 ≤ j
      → j < 0 + q.size
      → item_at enqueued.nodes ((q.head + j) % q.capacity)
        ≡ item_at q.nodes ((q.head + j) % q.capacity)
  kept j _ l =
      ap (λ (n : Node). (n.key, n.payload))
        (get_or-set_ne q.nodes filled ((q.head + j) % q.capacity) _ no_node λ e.
          slots_differ q.head q.capacity j q.size (v.head_lt (omega arith)) (omega arith) room
            (sym e ∙ v.tail_next))

  enqueued-inside : filled < length enqueued.nodes
  enqueued-inside = omega (
    arith,
    filled_in,
    v.memory,
    length-set q.nodes filled
        (record (get_or q.nodes filled no_node) { key = key; payload = payload }),
  )

  enqueued-item : item_at enqueued.nodes filled ≡ (key, payload)
  enqueued-item =
      ap (λ (n : Node). (n.key, n.payload))
        (get_or-set_self q.nodes filled _ no_node (omega (arith, filled_in, v.memory)))

  stored : item_at enqueued.nodes ((q.head + (0 + q.size)) % q.capacity) ≡ (key, payload)
  stored =
      let e : (q.head + (0 + q.size)) % q.capacity ≡ filled =
        ap (λ k. k % q.capacity) (omega arith) ∙ sym v.tail_next in
      rw e enqueued-item

  pub items-enqueued : items enqueued ≡ items q ++ (key, payload) ∷ []
  items-enqueued =
      let e : q.size + 1 ≡ suc q.size = omega arith in
      ap (tabulate (λ i. item_at enqueued.nodes ((q.head + i) % q.capacity)) 0) e
      ∙ tabulate-snoc _ 0 q.size
      ∙ ap₂ (λ l x. l ++ x ∷ []) (tabulate-ext _ _ 0 q.size kept) stored

-- queue_enqueue() on a queue with room stores the key and the datum behind the others, keeps the
-- invariant, and returns the node that it filled, which lies inside the array.
pub enqueue_refines :
    {q : Queue} (key : ℤ) (payload : ℕ)
    → IsValid q
    → q.size < q.capacity
    → Returns
        (λ (r : Option ℕ × Queue).
          IsValid r.1
          × (items r.1 ≡ items q ++ (key, payload) ∷ [])
          × (i : ℕ) × (r.0 ≡ some i)
          × (i < length r.1.nodes)
          × (item_at r.1.nodes i ≡ (key, payload)))
        (queue_enqueue q key payload)
enqueue_refines {q} key payload v room = rw (enqueue-eq key payload v room) (
    returns (
      enqueued-IsValid key payload v room,
      items-enqueued key payload v room,
      filled key payload v room,
      refl,
      enqueued-inside key payload v room,
      enqueued-item key payload v room,
    ))

module _ {q : Queue} (n : ℕ) (v : IsValid q) (e : q.size ≡ suc n) where
  abbrev dequeued : Queue
  dequeued = record q { size = n; head = (q.head + 1) % q.capacity }

  dequeue-eq : queue_dequeue_head q ≡ dequeued
  unfolding queue_dequeue_head
  dequeue-eq = ground arith

  dequeued-IsValid : IsValid dequeued
  dequeued-IsValid = record {
    memory = v.memory;
    head_in = omega (arith, mod-lt (q.head + 1) {m = q.capacity});
    head_lt = mod-lt (q.head + 1);
    size_in = omega (arith, v.size_in);
    tail_low = v.tail_low;
    tail_high = v.tail_high;
    tail_there = λ _. v.tail_there (omega arith);
    tail_next =
        v.tail_next
        ∙ ap (λ k. k % q.capacity) (omega arith)
        ∙ sym (mod-add-mod (q.head + 1) q.capacity n);
  }

  items-dequeued : items q ≡ item_at q.nodes q.head ∷ items dequeued
  items-dequeued =
      ap (tabulate (λ i. item_at q.nodes ((q.head + i) % q.capacity)) 0) e
      ∙ ap₂ ◌∷◌ (ap (item_at q.nodes) first)
          (tabulate-shift _ 0 n ∙ tabulate-ext _ _ 0 n λ j _ _. ap (item_at q.nodes) (later j))
    where
      first : (q.head + 0) % q.capacity ≡ q.head
      first =
          ap (λ k. k % q.capacity) (omega arith)
          ∙ mod-eq_of_lt (v.head_lt (omega (arith, v.size_in)))

      later :
          (j : ℕ) → (q.head + (j + 1)) % q.capacity ≡ ((q.head + 1) % q.capacity + j) % q.capacity
      later j = ap (λ k. k % q.capacity) (omega arith) ∙ sym (mod-add-mod (q.head + 1) q.capacity j)

-- queue_dequeue_head() on a queue of one item or more drops the oldest and keeps the others in
-- order, and keeps the invariant.
pub dequeue_head_refines :
    {q : Queue} (n : ℕ)
    → IsValid q
    → q.size ≡ suc n
    → IsValid (queue_dequeue_head q)
      × (items q ≡ item_at q.nodes q.head ∷ items (queue_dequeue_head q))
dequeue_head_refines n v e = rw (dequeue-eq n v e) (dequeued-IsValid n v e, items-dequeued n v e)

dequeue_head-empty : (q : Queue) → q.size ≡ 0 → queue_dequeue_head q ≡ q
unfolding queue_dequeue_head
dequeue_head-empty q e = ground arith
