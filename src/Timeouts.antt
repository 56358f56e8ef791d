-- ===== src/Timeouts.antt =====
-- src/dw_node.c, insert_timeout() and remove_timeout(): the timeouts of the requests that a worker
-- of the node has forwarded.
--
-- The worker keeps them in a heap, and one timer of the kernel that is set for the first of them.
-- What timerfd_gettime() reports is an argument; what timerfd_settime() was last given is `timer`.
-- timerfd_settime() refuses a time whose seconds are negative or whose nanoseconds are not below
-- 10^9, and then sys_check() ends the program. A sum that is no C int is a fault. In remove_timeout()
-- the keys are those of the heap, and no sum is checked.
pub mod Insert
pub mod Remove
pub mod Twice
mod Tests
use distwalk_iouring.Prelude.{
  ℕ, ◌-◌, ◌^◌, ◌≤◌, ◌<◌, Bool, true, false, not, ◌&&◌, ltb, leb, Option, none, some, ◌==◌,
  if◌then◌else◌,
}
use distwalk_iouring.Prelude.Int.{ℤ, pos, negsuc, ◌+ℤ◌, ◌-ℤ◌, ltb_ℤ, pos_part, neg_part}
use distwalk_iouring.Prelude.Run.{Run, ok, fault, ◌>>=◌, ◌>>◌, check, or_fault}
use distwalk_iouring.Prelude.Tables.{update}
use distwalk_iouring.Timespec.{Timespec, its_to_us, us_to_its}
use distwalk_iouring.PQueue.{PQueue, bounded, pqueue_top, pqueue_insert, pqueue_remove}
use distwalk_iouring.Request.{Request, Requests, req_get_by_id}
use distwalk_iouring.Conns.{same_ptr}

-- The fields of conn_worker_info_t that have to do with timeouts, with the table of requests.
pub record Worker : Type 0 where
  pub timeout_queue : PQueue
  pub requests : Requests
  pub time_elapsed : ℤ
  pub timer : Timespec

-- A C int.
abbrev pub IsInt : ℤ → Type 0
IsInt z = (pos_part z < 2 ^ 31) × (neg_part z ≤ 2 ^ 31)

-- A sum that is computed as an int.
abbrev pub int_sum : ℤ → Run ℤ
int_sum z = if ltb (pos_part z) (2 ^ 31) && leb (neg_part z) (2 ^ 31) then ok z else fault

-- sys_check(timerfd_settime(...))
abbrev pub set_timer : Timespec → Run Timespec
set_timer t =
    check (
      not (ltb_ℤ t.tv_sec (pos 0))
      && not (ltb_ℤ t.tv_nsec (pos 0))
      && ltb_ℤ t.tv_nsec (pos 1000000000))
    >> ok t

-- An int as the uint64_t of data_t.
abbrev pub to_value : ℤ → ℕ
to_value (pos n) = n
to_value (negsuc n) = 2 ^ 64 - 1 - n

-- req->timeout_node = node
abbrev pub set_timeout : Requests → ℕ → Option ℕ → Requests
set_timeout t r node = record t {
  reqs = update t.reqs r (record (t.reqs r) { timeout_node = node });
}

unfoldable pub node_key : PQueue → ℕ → Run ℤ
node_key q n = bounded q n (q.nodes n).key

unfoldable pub top_key : PQueue → Run ℤ
top_key q = do top ← pqueue_top q; n ← or_fault top; node_key q n

-- The key of a new timeout, and the time elapsed, when the timer has `left` to go.
unfoldable pub new_key : Worker → ℤ → Timespec → Run (ℤ × ℤ)
new_key w micros left =
    let behind = top_key w.timeout_queue >>= λ k. int_sum (micros +ℤ w.time_elapsed) >>= λ a.
    int_sum (a +ℤ k) >>= λ b.
    int_sum (b -ℤ its_to_us left) >>= λ new_micros. ok (new_micros, w.time_elapsed) in
    if w.timeout_queue.size == 0 then ok (micros, pos 0) else behind

-- insert_timeout() for the request `r` of that id, which has no timeout yet.
unfoldable pub add_timeout : Worker → ℕ → ℤ → ℤ → Timespec → Run Worker
add_timeout w r req_id micros left = do
  new ← new_key w micros left
  put ← pqueue_insert w.timeout_queue new.0 (to_value req_id)
  top ← pqueue_top put.1
  let set = set_timer (us_to_its micros)
  timer' ← if same_ptr top put.0 then set else ok w.timer
  let w' = record w {
    timeout_queue = put.1;
    requests = set_timeout w.requests r (some put.0);
    time_elapsed = new.1;
    timer = timer';
  }
  ok w'

abbrev pub unless_timeout : Worker → ℕ → Option ℕ → Run Worker → Run Worker
unless_timeout w r none add = add
unless_timeout w r (some node) add = ok w

abbrev pub unless_missing : Worker → Option ℕ → (ℕ → Run Worker) → Run Worker
unless_missing w none f = ok w
unless_missing w (some r) f = f r

unfoldable pub insert_timeout : Worker → ℤ → ℤ → Timespec → Run Worker
insert_timeout w req_id micros left =
    unless_missing w (req_get_by_id w.requests req_id)
      λ r. unless_timeout w r (w.requests.reqs r).timeout_node (add_timeout w r req_id micros left)

-- The end of remove_timeout(), when the first timeout has been taken out: the timer is set for the
-- next one, or disarmed.
unfoldable pub rearm : Worker → ℤ → Run Worker
rearm w time_elapsed =
    let next = top_key w.timeout_queue >>= λ next_timeout.
    ok (record w {
      time_elapsed = time_elapsed;
      timer = us_to_its (next_timeout -ℤ time_elapsed);
    }) in
    let disarmed = ok (record w { time_elapsed = pos 0; timer = us_to_its (pos 0) }) in
    if w.timeout_queue.size == 0 then disarmed else next

-- remove_timeout() for the request `r`, whose timeout is the node `n`.
unfoldable pub take_timeout : Worker → ℕ → ℕ → Timespec → Run (ℤ × Worker)
take_timeout w r n left = do
  top ← pqueue_top w.timeout_queue
  req_timeout ← node_key w.timeout_queue n
  key ← top_key w.timeout_queue
  q ← pqueue_remove w.timeout_queue n
  let time_elapsed = key -ℤ its_to_us left
  let w' = record w { timeout_queue = q; requests = set_timeout w.requests r none }
  let again = rearm w' time_elapsed
  w'' ← if same_ptr top n then again else ok w'
  ok (req_timeout -ℤ time_elapsed, w'')

abbrev pub take_from : Worker → ℕ → Option ℕ → Timespec → Run (ℤ × Worker)
take_from w r none left = ok (negsuc 0, w)
take_from w r (some n) left = take_timeout w r n left

abbrev pub take_of : Worker → Option ℕ → Timespec → Run (ℤ × Worker)
take_of w none left = ok (negsuc 0, w)
take_of w (some r) left = take_from w r (w.requests.reqs r).timeout_node left

-- The result, and the worker.
unfoldable pub remove_timeout : Worker → ℤ → Timespec → Run (ℤ × Worker)
remove_timeout w req_id left = take_of w (req_get_by_id w.requests req_id) left
