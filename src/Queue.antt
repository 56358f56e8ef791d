-- ===== src/Queue.antt =====
-- src/queue.c and src/queue.h: a queue of fixed capacity in an array of nodes, used as a ring.
--
-- A pointer to a node is its index. An index outside the array faults. `tail` is -1 at the start;
-- C's `%` rounds towards 0, so that (-1) % capacity is -1 and not capacity - 1.
pub mod Fifo
pub mod Tail
pub mod Walk
mod Tests
use distwalk_iouring.Prelude.{
  ℕ, zero, suc, ◌+◌, ◌%◌, Bool, false, ◌&&◌, Option, none, some, List, [], ◌∷◌, length, get_or, set,
  ltb, leb, ◌==◌, if◌then◌else◌,
}
use distwalk_iouring.Prelude.Int.{ℤ, pos, negsuc, ◌+ℤ◌, ◌-ℤ◌, sub_ℕ}
use distwalk_iouring.Prelude.Run.{Run, ok, fault, out_of_fuel, ◌>>=◌}
use distwalk_iouring.Node.{Node, no_node}

pub record Queue : Type 0 where
  pub nodes : List Node
  pub head : ℕ
  pub tail : ℤ
  pub size : ℕ
  pub capacity : ℕ

-- C's remainder of an int by a positive int
unfoldable pub rem_ℤ : ℤ → ℕ → ℤ
rem_ℤ (pos n) c = pos (n % c)
rem_ℤ (negsuc n) c = sub_ℕ 0 (suc n % c)

-- queue_alloc(): what malloc() returns is the argument, an array of `capacity` nodes.
unfoldable pub queue_alloc : List Node → ℕ → Queue
queue_alloc memory capacity = record {
  nodes = memory;
  head = 0;
  tail = negsuc 0;
  size = 0;
  capacity = capacity;
}

-- &queue->nodes[i], where the node will be used
abbrev pub node_index : Queue → ℤ → Run ℕ
node_index q (pos i) = if ltb i (length q.nodes) then ok i else fault
node_index q (negsuc i) = fault

unfoldable pub queue_enqueue : Queue → ℤ → ℕ → Run (Option ℕ × Queue)
queue_enqueue q key payload =
    let q' = record q { tail = rem_ℤ (q.tail +ℤ pos 1) q.capacity } in
    let store = node_index q' q'.tail >>= λ i. ok (
      some i,
      record q' {
        nodes = set q.nodes i (record (get_or q.nodes i no_node) { key = key; payload = payload });
        size = q.size + 1;
      },
    ) in
    if q.size == q.capacity then ok (none, q) else store

unfoldable pub queue_dequeue_head : Queue → Queue
queue_dequeue_head q = elim q.size [
  | zero ↦ q
  | suc n ↦ record q { size = n; head = (q.head + 1) % q.capacity }
]

unfoldable pub queue_dequeue_tail : Queue → Queue
queue_dequeue_tail q = elim q.size [
  | zero ↦ q
  | suc n ↦ record q { size = n; tail = rem_ℤ (q.tail -ℤ pos 1) q.capacity }
]

unfoldable pub queue_drop : Queue → Queue
queue_drop q = record q { head = 0; tail = negsuc 0; size = 0 }

-- The pointers are used by every caller, so that one outside the array is a fault.
unfoldable pub queue_head : Queue → Run (Option ℕ)
queue_head q = if q.size == 0 then ok none else (node_index q (pos q.head) >>= λ i. ok (some i))

unfoldable pub queue_tail : Queue → Run (Option ℕ)
queue_tail q = if q.size == 0 then ok none else (node_index q q.tail >>= λ i. ok (some i))

unfoldable pub queue_itr_begin : Queue → ℤ
queue_itr_begin q = pos q.head

-- queue->size && itr >= 0 && itr <= queue->tail
unfoldable pub queue_itr_has_next : Queue → ℤ → Bool
queue_itr_has_next q (negsuc i) = false
queue_itr_has_next q (pos i) = ltb 0 q.size && elim q.tail [ pos t ↦ leb i t | negsuc t ↦ false ]

unfoldable pub queue_node : Queue → ℤ → Option ℤ
queue_node q i = if queue_itr_has_next q i then some i else none

-- The node returned, and the new value of the iterator; a non-negative iterator only is advanced.
unfoldable pub queue_itr_next : Queue → ℤ → Option ℤ × ℤ
queue_itr_next q (negsuc i) = (none, negsuc i)
queue_itr_next q (pos i) =
    let next = (i + 1) % q.capacity in
    let next' : ℤ =
      if queue_itr_has_next q (pos next) && next == q.head then negsuc 0 else pos next in
    if queue_itr_has_next q (pos i) then (queue_node q (pos i), next') else (none, pos i)

-- The loop of queue_log() and ccmd_log(): the nodes that the iterator hands out, in order.
unfoldable pub walk : ℕ → Queue → ℤ → Run (List ℤ)
walk zero q itr = out_of_fuel
walk (suc fuel) q itr =
    let (node, itr') = queue_itr_next q itr in
    let rest = walk fuel q itr' >>= λ l. elim node [ none ↦ fault | some n ↦ ok (n ∷ l) ] in
    if queue_itr_has_next q itr then rest else ok []
