-- ===== src/Timeouts/Twice.antt =====
-- remove_timeout() and insert_timeout(), one after the other: the time elapsed counts twice.
use distwalk_iouring.Prelude.{
  ℕ, ◌+◌, ◌^◌, ◌<◌, ◌≡◌, ◌≢◌, refl, ap, ◌∙◌, inl, inr, false, Option, none, some, arith, ◌==◌,
  ℕ_discrete,
}
use distwalk_iouring.Prelude.Int.{ℤ, pos, ◌+ℤ◌, ◌-ℤ◌}
use distwalk_iouring.Prelude.Run.{◌>>=◌, Returns, Returns-map, Returns-bind}
use distwalk_iouring.Prelude.Tables.{update_self, update_ne}
use distwalk_iouring.Timespec.{Timespec, us_to_its}
use distwalk_iouring.Timespec.Laws.{its_to_us-us_to_its}
use distwalk_iouring.PQueue.{PQueue}
use distwalk_iouring.PQueue.Links.{IsIn, keys}
use distwalk_iouring.PQueue.Insert.{IsValid}
use distwalk_iouring.PQueue.Remove.{top-IsIn}
use distwalk_iouring.Request.{Requests, req_get_by_id, slot}
use distwalk_iouring.Timeouts.{Worker, set_timeout, insert_timeout, remove_timeout}
use distwalk_iouring.Timeouts.Insert.{due, IntSums, insert_timeout-Armed}
use distwalk_iouring.Timeouts.Remove.{now, Disarmed, remove_timeout-Disarmed}

set_timeout_id :
    (t : Requests) (r : ℕ) (o : Option ℕ) (k : ℕ)
    → ((set_timeout t r o).reqs k).req_id ≡ (t.reqs k).req_id
set_timeout_id t r o k = elim (ℕ_discrete k r) [
  | yes e ↦
      rw e (ap (λ q. q.req_id) (update_self t.reqs r (record (t.reqs r) { timeout_node = o })))
  | no n ↦ ap (λ q. q.req_id) (update_ne t.reqs r k (record (t.reqs r) { timeout_node = o }) n)
]

req_get_by_id-set_timeout :
    (t : Requests) (r : ℕ) (o : Option ℕ) (id : ℤ)
    → req_get_by_id (set_timeout t r o) id ≡ req_get_by_id t id
unfolding req_get_by_id
req_get_by_id-set_timeout t r o id = rw (set_timeout_id t r o (slot id)) refl

-- Every timeout but `n` is at the time `e` or later, and its sum with `micros` and `e` is a C int.
abbrev pub Ahead : PQueue → ℕ → ℕ → ℕ → Type 0
Ahead q n e micros =
    (m : ℕ)
    → IsIn q m
    → m ≢ n
    → (rest : ℕ) × ((q.nodes m).key ≡ pos (e + rest)) × (micros + e + (e + rest) < 2 ^ 31)

-- The key of a new timeout, in a worker that has just set its timer at the time `e`.
due_twice :
    (w : Worker) (micros e rest : ℕ)
    → 0 < w.timeout_queue.size
    → w.time_elapsed ≡ pos e
    → keys w.timeout_queue 0 ≡ pos (e + rest)
    → w.timer ≡ us_to_its (pos rest)
    → due w (pos micros) w.timer ≡ pos (micros + e + e)
unfolding ◌+ℤ◌ ◌-ℤ◌
due_twice w micros e rest filled time key timer =
    let some_node : (w.timeout_queue.size == 0) ≡ false = ground arith in
    rw (some_node, time, key, timer, (its_to_us-us_to_its rest).1) (ground arith)

ints_twice :
    (w : Worker) (micros e rest : ℕ)
    → w.time_elapsed ≡ pos e
    → keys w.timeout_queue 0 ≡ pos (e + rest)
    → w.timer ≡ us_to_its (pos rest)
    → micros + e + (e + rest) < 2 ^ 31
    → IntSums w (pos micros) w.timer
unfolding ◌+ℤ◌ ◌-ℤ◌
ints_twice w micros e rest time key timer small = record {
  elapsed = rw time (ground arith);
  key = rw (time, key) (ground arith);
  due = rw (time, key, timer, (its_to_us-us_to_its rest).1) (ground arith);
}

minus_time : (e rest : ℕ) → pos (e + rest) -ℤ pos e ≡ pos rest
unfolding ◌-ℤ◌
minus_time e rest = ground arith

module _ (w : Worker) (n e r micros : ℕ) (left : Timespec) (v : ℤ) (w1 : Worker)
    (d : Disarmed w r n left (v, w1)) (first : w.timeout_queue.heap 0 ≡ n)
    (time : now w left ≡ pos e) (ahead : Ahead w.timeout_queue n e micros)
    (more : 1 < w.timeout_queue.size) where
  filled : 0 < w1.timeout_queue.size
  filled = omega (arith, d.removed.size)

  root-IsIn : IsIn w1.timeout_queue (w1.timeout_queue.heap 0)
  root-IsIn = top-IsIn d.removed.valid.linked filled

  pub next_key :
      (rest : ℕ) × (keys w1.timeout_queue 0 ≡ pos (e + rest)) × (micros + e + (e + rest) < 2 ^ 31)
  next_key =
      let m = w1.timeout_queue.heap 0 in
      let ne : m ≢ n = λ h. d.removed.gone (rw (← h) root-IsIn) in
      let (rest, k, small) = ahead m (d.removed.only m root-IsIn) ne in
      (rest, d.removed.kept_key m ∙ k, small)

  pub now_set :
      (w1.timer ≡ us_to_its (keys w1.timeout_queue 0 -ℤ pos e)) × (w1.time_elapsed ≡ pos e)
  now_set = elim d.timer [
    | inl (other, t, x) ↦ absurd (other first)
    | inr c ↦ elim c [
      | inl (f, l, t, x) ↦ (rw (← time) t, x ∙ time)
      | inr (f, l, t, x) ↦ absurd (let h = filled in omega arith)
    ]
  ]

  pub due-twice :
      (due w1 (pos micros) w1.timer ≡ pos (micros + e + e)) × IntSums w1 (pos micros) w1.timer
  due-twice =
      let (rest, k, small) = next_key in
      let (t, x) = now_set in
      let timer = t ∙ ap us_to_its (ap (λ z. z -ℤ pos e) k ∙ minus_time e rest) in
      (due_twice w1 micros e rest filled x k timer, ints_twice w1 micros e rest x k timer small)

-- What a new timeout of the request `q` is: a node of the heap, with the key given.
abbrev pub HasTimeout : Worker → ℕ → ℤ → Type 0
HasTimeout w q key =
    (m : ℕ) × ((w.requests.reqs q).timeout_node ≡ some m)
    × IsIn w.timeout_queue m
    × ((w.timeout_queue.nodes m).key ≡ key)

-- On a valid heap, when the first timeout is removed at the time `e`, with all others later, and the
-- timeout of another request, of `micros`, is inserted right then, and the sums are C ints: its key is
-- `micros` + 2`e`, while it is due at the time `micros` + `e`.
pub insert_timeout-twice :
    (w : Worker) (id1 id2 : ℤ) (r1 r2 n e micros : ℕ) (left : Timespec)
    → IsValid w.timeout_queue
    → 1 < w.timeout_queue.size
    → req_get_by_id w.requests id1 ≡ some r1
    → (w.requests.reqs r1).timeout_node ≡ some n
    → IsIn w.timeout_queue n
    → w.timeout_queue.heap 0 ≡ n
    → now w left ≡ pos e
    → Ahead w.timeout_queue n e micros
    → req_get_by_id w.requests id2 ≡ some r2
    → r2 ≢ r1
    → (w.requests.reqs r2).timeout_node ≡ none
    → Returns
        (λ w2. HasTimeout w2 r2 (pos (micros + e + e)))
        (remove_timeout w id1 left >>= λ o. insert_timeout o.1 id2 (pos micros) o.1.timer)
insert_timeout-twice w id1 id2 r1 r2 n e micros left v more f1 own i first time ahead f2 ne free =
    Returns-bind (remove_timeout-Disarmed w id1 r1 n left v f1 own i) λ (res, w1) d.
      let room : w1.timeout_queue.size < w1.timeout_queue.capacity =
        omega (arith, d.removed.size, d.removed.capacity, v.linked.fits) in
      let twice = due-twice w n e r1 micros left res w1 d first time ahead more in
      let found : req_get_by_id w1.requests id2 ≡ some r2 =
        ap (λ t. req_get_by_id t id2) d.owner
        ∙ req_get_by_id-set_timeout w.requests r1 none id2
        ∙ f2 in
      let free' : (w1.requests.reqs r2).timeout_node ≡ none =
        ap (λ t. (t.reqs r2).timeout_node) d.owner
        ∙ ap (λ q. q.timeout_node)
            (update_ne w.requests.reqs r1 r2 (record (w.requests.reqs r1) { timeout_node = none })
              ne)
        ∙ free in
      Returns-map
        (insert_timeout-Armed w1 r2 id2 micros w1.timer d.removed.valid room found free'
          (λ _. twice.1))
        λ w2 a. (
          a.node,
          ap (λ t. (t.reqs r2).timeout_node) a.owner
              ∙ ap (λ q. q.timeout_node)
                  (update_self w1.requests.reqs r2
                    (record (w1.requests.reqs r2) { timeout_node = some a.node })),
          a.inserted.there,
          a.inserted.has_key ∙ twice.0,
        )
