-- ===== src/PQueue.antt =====
-- src/priority_queue.c and src/priority_queue.h: a binary min-heap of timeouts.
--
-- Nodes never move: the heap holds their indices, each node knows its place in the heap, and the
-- stack holds the free indices. A node_t* is the node's index. The arrays have `capacity` entries;
-- an access outside them faults. `size` and `capacity` are C ints that are not negative; where the
-- source computes an index below 0, which is outside every array, the model faults.
pub mod Keys
pub mod Links
pub mod Up
pub mod Down
pub mod Insert
pub mod TakeOut
pub mod Remove
mod Tests
use distwalk_iouring.Prelude.{
  ℕ, zero, suc, ◌+◌, ◌-◌, ◌*◌, ◌/◌, Option, none, some, ltb, leb, ◌==◌, if◌then◌else◌,
}
use distwalk_iouring.Prelude.Int.{ℤ, ltb_ℤ}
use distwalk_iouring.Prelude.Tables.{update}
use distwalk_iouring.Prelude.Run.{Run, ok, fault, out_of_fuel, ◌>>=◌, unless_null}
use distwalk_iouring.Node.{Node}

pub record PQueue : Type 0 where
  pub nodes : ℕ → Node
  pub heap : ℕ → ℕ
  pub stack : ℕ → ℕ
  pub size : ℕ
  pub capacity : ℕ

-- an access at index `i` of an array of the queue
abbrev pub bounded {ℓ} : {A : Type ℓ} → PQueue → ℕ → A → Run A
bounded q i a = if ltb i q.capacity then ok a else fault

-- What malloc() returns are the arguments; pqueue_alloc() fills the stack.
unfoldable pub pqueue_alloc : (ℕ → Node) → (ℕ → ℕ) → ℕ → PQueue
pqueue_alloc nodes heap capacity = record {
  nodes = nodes;
  heap = heap;
  stack = λ i. i;
  size = 0;
  capacity = capacity;
}

-- swap_node(): the places in the heap of two nodes, and their records of them
unfoldable pub swap_node : PQueue → ℕ → ℕ → Run PQueue
swap_node q node0 node1 = do
  a ← bounded q node0 (q.nodes node0)
  b ← bounded q node1 (q.nodes node1)
  temp ← bounded q a.heap_id (q.heap a.heap_id)
  other ← bounded q b.heap_id (q.heap b.heap_id)
  let heap' = update (update q.heap a.heap_id other) b.heap_id temp
  let nodes' = update q.nodes node0 (record a { heap_id = b.heap_id })
  let nodes'' = update nodes' node1 (record (nodes' node1) { heap_id = a.heap_id })
  ok (record q { heap = heap'; nodes = nodes'' })

-- &queue->nodes[queue->heap[i]], of which the caller reads the key
unfoldable pub node_at : PQueue → ℕ → Run ℕ
node_at q i = bounded q i (q.heap i) >>= λ n. bounded q n n

unfoldable pub pqueue_top : PQueue → Run (Option ℕ)
pqueue_top q = if q.size == 0 then ok none else (node_at q 0 >>= λ n. ok (some n))

unfoldable pub get_parent_node : PQueue → ℕ → Run (Option ℕ)
get_parent_node q node = bounded q node (q.nodes node) >>= λ a.
    if a.heap_id == 0 then ok none else (node_at q ((a.heap_id - 1) / 2) >>= λ n. ok (some n))

unfoldable pub get_child_node : PQueue → ℕ → Run (Option ℕ)
get_child_node q node = bounded q node (q.nodes node) >>= λ a.
    let child1_idx = 2 * a.heap_id + 1 in
    let child2_idx = 2 * a.heap_id + 2 in
    let first = node_at q child1_idx >>= λ child1. ok (some child1) in
    let both = node_at q child1_idx >>= λ child1. node_at q child2_idx >>= λ child2.
    ok (if ltb_ℤ (q.nodes child1).key (q.nodes child2).key then some child1 else some child2) in
    if leb q.size child1_idx then ok none else if leb q.size child2_idx then first else both

-- The loop of up(): while (parent_node && parent_node->key > curr_node->key).
unfoldable pub up : ℕ → PQueue → ℕ → Run PQueue
up zero q curr_node = out_of_fuel
up (suc fuel) q curr_node = unless_null (get_parent_node q curr_node) (ok q) λ parent_node.
    let again = swap_node q parent_node curr_node >>= λ q'. up fuel q' curr_node in
    if ltb_ℤ (q.nodes curr_node).key (q.nodes parent_node).key then again else ok q

-- The loop of down(): while (child_node && child_node->key < curr_node->key).
unfoldable pub down : ℕ → PQueue → ℕ → Run PQueue
down zero q curr_node = out_of_fuel
down (suc fuel) q curr_node = unless_null (get_child_node q curr_node) (ok q) λ child_node.
    let again = swap_node q child_node curr_node >>= λ q'. down fuel q' curr_node in
    if ltb_ℤ (q.nodes child_node).key (q.nodes curr_node).key then again else ok q

-- queue->capacity - queue->size - 1, as an index of the stack, for the size `n`
unfoldable pub stack_index : PQueue → ℕ → Run ℕ
stack_index q n = if ltb n q.capacity then ok (q.capacity - n - 1) else fault

-- The node that was filled, and the queue. The rounds of up() are bounded by the size.
unfoldable pub pqueue_insert : PQueue → ℤ → ℕ → Run (ℕ × PQueue)
pqueue_insert q key payload = do
  free ← stack_index q q.size
  node_id ← bounded q free (q.stack free)
  node ← bounded q node_id (record { heap_id = q.size; key = key; payload = payload })
  place ← bounded q q.size q.size
  let q' = record q {
    nodes = update q.nodes node_id node;
    heap = update q.heap place node_id;
    size = q.size + 1;
  }
  q'' ← up (q.size + 2) q' node_id
  ok (node_id, q'')

-- take_out() at the size that it finds: with no node in the heap it reads heap[-1].
unfoldable pub take_out_at : PQueue → ℕ → ℕ → Run (ℕ × PQueue)
take_out_at q node zero = fault
take_out_at q node (suc size) = do
  a ← bounded q node (q.nodes node)
  last ← bounded q size (q.heap size)
  place ← bounded q a.heap_id a.heap_id
  moved ← bounded q last (q.nodes last)
  free ← stack_index q size
  ok (
    last,
    record q {
      size = size;
      heap = update q.heap place last;
      nodes = update q.nodes last (record moved { heap_id = place });
      stack = update q.stack free node;
    },
  )

-- The part that pqueue_remove() and pqueue_pop() share: the last node takes the place of `node`,
-- and `node` goes to the stack. The new queue, and the node that has moved.
unfoldable pub take_out : PQueue → ℕ → Run (ℕ × PQueue)
take_out q node = take_out_at q node q.size

unfoldable pub pqueue_remove : PQueue → ℕ → Run PQueue
pqueue_remove q node = do
  r ← take_out q node
  q' ← up (q.size + 1) r.1 r.0
  down (q.size + 1) q' r.0

unfoldable pub pqueue_pop : PQueue → Run PQueue
pqueue_pop q =
    unless_null (pqueue_top q) fault λ node. do r ← take_out q node; down (q.size + 1) r.1 r.0
