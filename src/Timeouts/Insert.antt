-- ===== src/Timeouts/Insert.antt =====
-- insert_timeout(): the timeout of a request goes into the heap.
use distwalk_iouring.Prelude.{
  ℕ, ◌*◌, ◌%◌, ◌^◌, ◌<◌, true, ◌&&◌, ltb, leb, ◌≡◌, ◌≢◌, refl, ◌⊎◌, inl, inr, none, some, arith,
  ◌==◌, if◌then◌else◌, Bool-cases,
}
use distwalk_iouring.Prelude.Int.{ℤ, pos, ◌+ℤ◌, ◌-ℤ◌, ◌*ℤ◌, pos_part, neg_part}
use distwalk_iouring.Prelude.Run.{ok, ok_if, Returns, returns, Returns-bind}
use distwalk_iouring.Timespec.{Timespec, its_to_us, us_to_its, quot_ℤ, rem_ℤ}
use distwalk_iouring.PQueue.{PQueue}
use distwalk_iouring.PQueue.Links.{IsLinked, IsIn, keys}
use distwalk_iouring.PQueue.Insert.{IsValid, Inserted, pqueue_insert-Inserted}
use distwalk_iouring.PQueue.Remove.{top-eq, top-IsIn}
use distwalk_iouring.Request.{req_get_by_id}
use distwalk_iouring.Conns.{same_ptr}
use distwalk_iouring.Timeouts.{
  IsInt, int_sum, set_timer, Worker, to_value, set_timeout, node_key, top_key, new_key, add_timeout,
  insert_timeout,
}

pub node_key-ok : {q : PQueue} (n : ℕ) → IsLinked q → IsIn q n → node_key q n ≡ ok (q.nodes n).key
unfolding node_key
node_key-ok {q} n l i =
    let inside : n < q.capacity = rw i.back at (l.inside (q.nodes n).heap_id i.at) in
    ground (arith, inside)

pub top_key-ok : {q : PQueue} → IsLinked q → 0 < q.size → top_key q ≡ ok (keys q 0)
unfolding top_key
top_key-ok {q} l h = rw (top-eq l h) (node_key-ok (q.heap 0) l (top-IsIn l h))

-- The key that insert_timeout() gives a timeout.
abbrev pub due : Worker → ℤ → Timespec → ℤ
due w micros left =
    if w.timeout_queue.size == 0
    then micros
    else micros +ℤ w.time_elapsed +ℤ keys w.timeout_queue 0 -ℤ its_to_us left

abbrev pub elapsed : Worker → ℤ
elapsed w = if w.timeout_queue.size == 0 then pos 0 else w.time_elapsed

int_sum-ok : (z : ℤ) → IsInt z → int_sum z ≡ ok z
int_sum-ok z (h, k) =
    let both : ltb (pos_part z) (2 ^ 31) && leb (neg_part z) (2 ^ 31) ≡ true = ground arith in
    rw both refl

set_timer-ok : (n : ℕ) → set_timer (us_to_its (pos n)) ≡ ok (us_to_its (pos n))
unfolding us_to_its quot_ℤ rem_ℤ ◌*ℤ◌
set_timer-ok n =
    let small : n % 1000000 * 1000 < 1000000000 = omega arith in
    let below : ltb (n % 1000000 * 1000) 1000000000 ≡ true = ground arith in ground arith

-- The sums that insert_timeout() computes, with other timeouts in the heap, are C ints.
pub record IntSums (w : Worker) (micros : ℤ) (left : Timespec) : Type 0 where
  pub elapsed : IsInt (micros +ℤ w.time_elapsed)
  pub key : IsInt (micros +ℤ w.time_elapsed +ℤ keys w.timeout_queue 0)
  pub due : IsInt (micros +ℤ w.time_elapsed +ℤ keys w.timeout_queue 0 -ℤ its_to_us left)

new_key-ok :
    (w : Worker) (micros : ℤ) (left : Timespec)
    → IsLinked w.timeout_queue
    → (0 < w.timeout_queue.size → IntSums w micros left)
    → new_key w micros left ≡ ok (due w micros left, elapsed w)
unfolding new_key
new_key-ok w micros left l h = elim (Bool-cases (w.timeout_queue.size == 0)) [
  | inl y ↦ rw y refl
  | inr n ↦
      let some_node : 0 < w.timeout_queue.size = ground arith in
      let i = h some_node in
      rw (n, top_key-ok l some_node, int_sum-ok _ i.elapsed, int_sum-ok _ i.key, int_sum-ok _ i.due)
        refl
]

-- What insert_timeout() leaves: the node `n` in the heap, as the timeout of the request `r`, and the
-- timer set for it if it is first.
pub record Armed (w : Worker) (r : ℕ) (req_id micros : ℤ) (left : Timespec) (w' : Worker)
    : Type 0 where
  pub node : ℕ
  pub inserted :
      Inserted w.timeout_queue (due w micros left) (to_value req_id) node w'.timeout_queue
  pub owner : w'.requests ≡ set_timeout w.requests r (some node)
  pub time : w'.time_elapsed ≡ elapsed w
  pub timer :
      ((w'.timeout_queue.heap 0 ≡ node) × (w'.timer ≡ us_to_its micros))
      ⊎ ((w'.timeout_queue.heap 0 ≢ node) × (w'.timer ≡ w.timer))

timer_cases :
    (top n : ℕ) (a b : Timespec)
    → ((top ≡ n) × ((if same_ptr (some top) n then a else b) ≡ a))
      ⊎ ((top ≢ n) × ((if same_ptr (some top) n then a else b) ≡ b))
timer_cases top n a b = elim (Bool-cases (top == n)) [
  | inl y ↦ inl (ground arith, rw y refl)
  | inr o ↦ inr (ground arith, rw o refl)
]

add_timeout-Armed :
    (w : Worker) (r : ℕ) (req_id : ℤ) (micros : ℕ) (left : Timespec)
    → IsValid w.timeout_queue
    → w.timeout_queue.size < w.timeout_queue.capacity
    → (0 < w.timeout_queue.size → IntSums w (pos micros) left)
    → Returns (Armed w r req_id (pos micros) left) (add_timeout w r req_id (pos micros) left)
unfolding add_timeout
add_timeout-Armed w r req_id micros left v room ints =
    rw (new_key-ok w (pos micros) left v.linked ints) (
      Returns-bind (pqueue_insert-Inserted (due w (pos micros) left) (to_value req_id) v room)
        λ put i.
          let filled : 0 < put.1.size = omega (arith, i.size) in
          let set = us_to_its (pos micros) in
          rw
            (
              top-eq i.valid.linked filled,
              set_timer-ok micros,
              ok_if (same_ptr (some (put.1.heap 0)) put.0) set w.timer,
            )
            (returns (record {
              node = put.0;
              inserted = i;
              owner = refl;
              time = refl;
              timer = timer_cases (put.1.heap 0) put.0 set w.timer;
            })))

-- insert_timeout(), on a valid heap with room, for a request in progress that has no timeout, of a
-- time that is not negative, and with sums that are C ints when the heap is not empty, ends. The heap
-- has one node more, which carries the id and is the timeout of the request; its key is `micros` in an
-- empty heap, and else the sum of `micros`, the time elapsed and the key of the first timeout, less
-- what is left of it. The timer is set for it if it is the first, and else left alone.
pub insert_timeout-Armed :
    (w : Worker) (r : ℕ) (req_id : ℤ) (micros : ℕ) (left : Timespec)
    → IsValid w.timeout_queue
    → w.timeout_queue.size < w.timeout_queue.capacity
    → req_get_by_id w.requests req_id ≡ some r
    → (w.requests.reqs r).timeout_node ≡ none
    → (0 < w.timeout_queue.size → IntSums w (pos micros) left)
    → Returns (Armed w r req_id (pos micros) left) (insert_timeout w req_id (pos micros) left)
unfolding insert_timeout
insert_timeout-Armed w r req_id micros left v room found free ints =
    rw (found, free) (add_timeout-Armed w r req_id micros left v room ints)
