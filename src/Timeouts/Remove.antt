-- ===== src/Timeouts/Remove.antt =====
-- remove_timeout(): the timeout of a request leaves the heap, and the timer is set for the next one.
use distwalk_iouring.Prelude.{
  ℕ, ◌<◌, ◌≡◌, ◌≢◌, refl, ◌⊎◌, inl, inr, none, some, arith, ◌==◌, if◌then◌else◌, Bool-cases,
}
use distwalk_iouring.Prelude.Int.{ℤ, pos, ◌-ℤ◌}
use distwalk_iouring.Prelude.Run.{ok, ◌>>=◌, Returns, returns, Returns-bind}
use distwalk_iouring.Timespec.{Timespec, its_to_us, us_to_its}
use distwalk_iouring.PQueue.{PQueue}
use distwalk_iouring.PQueue.Links.{IsIn, keys}
use distwalk_iouring.PQueue.Insert.{IsValid}
use distwalk_iouring.PQueue.TakeOut.{Removed}
use distwalk_iouring.PQueue.Remove.{top-eq, pqueue_remove-Removed}
use distwalk_iouring.Request.{req_get_by_id}
use distwalk_iouring.Conns.{same_ptr}
use distwalk_iouring.Timeouts.{Worker, set_timeout, rearm, take_timeout, remove_timeout}
use distwalk_iouring.Timeouts.Insert.{node_key-ok, top_key-ok}

-- The time of the worker, on the scale of the keys, when the timer has `left` to go.
abbrev pub now : Worker → Timespec → ℤ
now w left = keys w.timeout_queue 0 -ℤ its_to_us left

-- What becomes of the timer and the time elapsed: nothing, when the timeout was not the first one;
-- else the timer is set to what is left of the timeout that is first now, or disarmed.
abbrev pub Rearmed : Worker → ℕ → ℤ → Worker → Type 0
Rearmed w n time w' =
    ((w.timeout_queue.heap 0 ≢ n) × (w'.timer ≡ w.timer) × (w'.time_elapsed ≡ w.time_elapsed))
    ⊎ ((w.timeout_queue.heap 0 ≡ n)
        × (0 < w'.timeout_queue.size)
        × (w'.timer ≡ us_to_its (keys w'.timeout_queue 0 -ℤ time))
        × (w'.time_elapsed ≡ time))
    ⊎ ((w.timeout_queue.heap 0 ≡ n)
        × (w'.timeout_queue.size ≡ 0)
        × (w'.timer ≡ us_to_its (pos 0))
        × (w'.time_elapsed ≡ pos 0))

pub record Disarmed (w : Worker) (r n : ℕ) (left : Timespec) (o : ℤ × Worker) : Type 0 where
  pub result : o.0 ≡ (w.timeout_queue.nodes n).key -ℤ now w left
  pub removed : Removed w.timeout_queue n o.1.timeout_queue
  pub owner : o.1.requests ≡ set_timeout w.requests r none
  pub timer : Rearmed w n (now w left) o.1

-- What rearm() does to a worker whose heap is valid.
rearm-Returns :
    (w : Worker) (time : ℤ)
    → IsValid w.timeout_queue
    → Returns
        (λ w'.
          (w'.timeout_queue ≡ w.timeout_queue)
          × (w'.requests ≡ w.requests)
          × (((0 < w.timeout_queue.size)
                × (w'.timer ≡ us_to_its (keys w.timeout_queue 0 -ℤ time))
                × (w'.time_elapsed ≡ time))
              ⊎ ((w.timeout_queue.size ≡ 0)
                  × (w'.timer ≡ us_to_its (pos 0))
                  × (w'.time_elapsed ≡ pos 0))))
        (rearm w time)
unfolding rearm
rearm-Returns w time v = elim (Bool-cases (w.timeout_queue.size == 0)) [
  | inl y ↦ rw y (returns (refl, refl, inr (ground arith, refl, refl)))
  | inr n ↦
      let filled : 0 < w.timeout_queue.size = ground arith in
      rw (n, top_key-ok v.linked filled) (returns (refl, refl, inl (filled, refl, refl)))
]

module _ (w : Worker) (r n : ℕ) (left : Timespec) (v : IsValid w.timeout_queue)
    (i : IsIn w.timeout_queue n) where
  abbrev after : PQueue → Worker
  after q = record w { timeout_queue = q; requests = set_timeout w.requests r none }

  take_rest :
      (q : PQueue)
      → Removed w.timeout_queue n q
      → Returns (Disarmed w r n left) (
          (if same_ptr (some (w.timeout_queue.heap 0)) n
            then rearm (after q) (now w left)
            else ok (after q))
          >>= λ w''. ok ((w.timeout_queue.nodes n).key -ℤ now w left, w''))
  take_rest q m = elim (Bool-cases (w.timeout_queue.heap 0 == n)) [
    | inl y ↦
        let first : w.timeout_queue.heap 0 ≡ n = ground arith in
        rw y (
          Returns-bind (rearm-Returns (after q) (now w left) m.valid) λ w'' (eq, er, t).
            returns (record {
              result = refl;
              removed = rw eq m;
              owner = er;
              timer = rw eq (elim t [
                | inl (some_left, timer, time) ↦ inr (inl (first, some_left, timer, time))
                | inr (none_left, timer, time) ↦ inr (inr (first, none_left, timer, time))
              ]);
            }))
    | inr o ↦
        let other : w.timeout_queue.heap 0 ≢ n = ground arith in
        rw o (
          returns
            (record { result = refl; removed = m; owner = refl; timer = inl (other, refl, refl) }))
  ]

  take_timeout-Disarmed : Returns (Disarmed w r n left) (take_timeout w r n left)
  unfolding take_timeout
  take_timeout-Disarmed =
      let filled : 0 < w.timeout_queue.size = omega (arith, i.at) in
      rw (top-eq v.linked filled, node_key-ok n v.linked i, top_key-ok v.linked filled)
        (Returns-bind (pqueue_remove-Removed n v i) λ q m. take_rest q m)

-- remove_timeout(), on a valid heap, for a request in progress whose timeout is the node `n` of the
-- heap, ends. It returns what is left of that timeout; the heap is without the node, and the request
-- without a timeout. If it was the first, the timer is set to what is left of the one that is first
-- now, or disarmed when there is none; if not, the timer is left alone.
pub remove_timeout-Disarmed :
    (w : Worker) (req_id : ℤ) (r n : ℕ) (left : Timespec)
    → IsValid w.timeout_queue
    → req_get_by_id w.requests req_id ≡ some r
    → (w.requests.reqs r).timeout_node ≡ some n
    → IsIn w.timeout_queue n
    → Returns (Disarmed w r n left) (remove_timeout w req_id left)
unfolding remove_timeout
remove_timeout-Disarmed w req_id r n left v found own i =
    rw (found, own) (take_timeout-Disarmed w r n left v i)
