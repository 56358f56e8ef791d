-- ===== src/Poll/Once.antt =====
-- dw_poll_next() for poll(), called until it returns 0: every descriptor that is ready, once.
--
-- That two lists hold the same events, each as often, is said by sums: whatever weight the events
-- are given, both have the same total.
use distwalk_iouring.Prelude.{
  ℕ, zero, suc, ◌+◌, ◌-◌, ◌≤◌, ◌<◌, ◌≡◌, refl, sym, ap, ap₂, ◌∙◌, Bool, true, false, ◌&&◌, Option,
  none, some, List, [], ◌∷◌, arith, ltb, if◌then◌else◌, lt→ltb, ltb→lt,
}
use native.Mathlib.Decide.{dec_lt}
use distwalk_iouring.Prelude.Run.{
  ok, ok_if, ◌>>=◌, Returns, returns, Returns-bind, Returns-if, Returns-map,
}
use distwalk_iouring.Prelude.Tables.{update}
use distwalk_iouring.Poll.{PollFd, PollFds, max_pollfd, move_last, poll_del_pos}
use distwalk_iouring.Poll.Next.{
  Event, is_ready, event_of, seek_ready, poll_next_at, poll_next, poll_events,
}

module _ (w : Event → ℕ) where
  abbrev pub weight : (ℕ → PollFd) → ℕ → ℕ
  weight t j = if is_ready (t j) then w (event_of (t j)) else 0

  -- the ready ones of the `n` entries from `i` on
  abbrev pub total : (ℕ → PollFd) → ℕ → ℕ → ℕ
  total t i zero = 0
  total t i (suc n) = weight t i + total t (i + 1) n

  abbrev pub sum_events : List Event → ℕ
  sum_events [] = 0
  sum_events (e ∷ es) = w e + sum_events es

  -- the entries that dw_poll_next() has not come to
  abbrev pub left : PollFds → ℕ
  left p = p.n_pollfds - p.iter

  abbrev pub pending : PollFds → ℕ
  pending p = total p.pollfds p.iter (left p)

  total-ext :
      (t t' : ℕ → PollFd) (i n : ℕ) → ((j : ℕ) → i ≤ j → t j ≡ t' j) → total t i n ≡ total t' i n
  total-ext t t' i zero h = refl
  total-ext t t' i (suc n) h =
      ap₂ ◌+◌ (ap (λ e. if is_ready e then w (event_of e) else 0) (h i (omega arith)))
        (total-ext t t' (i + 1) n λ j p. h j (omega arith))

  total-snoc : (t : ℕ → PollFd) (i n : ℕ) → total t i (suc n) ≡ total t i n + weight t (i + n)
  total-snoc t i zero = let e : i + 0 ≡ i = omega arith in rw e (omega arith)
  total-snoc t i (suc n) =
      let e : i + 1 + n ≡ i + suc n = omega arith in
      let s : total t (i + 1) (suc n) ≡ total t (i + 1) n + weight t (i + suc n) =
        rw e at (total-snoc t (i + 1) n) in
      omega (arith, s)

  -- Where the search stops: at an entry that is ready, or at the end, with none that is ready before.
  record Found (n : ℕ) (t : ℕ → PollFd) (i k : ℕ) : Type 0 where
    from : i ≤ k
    upto : k ≤ i + n
    same : total t i n ≡ total t k (i + n - k)
    ready : k < i + n → is_ready (t k) ≡ true

  skip_first :
      (n : ℕ) (t : ℕ → PollFd) (i : ℕ)
      → is_ready (t i) ≡ false
      → total t i (suc n) ≡ total t (i + 1) n
  skip_first n t i e = rw e (omega arith)

  seek-Found :
      (n : ℕ) (t : ℕ → PollFd) (i : ℕ)
      → (0 < n → i + n ≤ max_pollfd)
      → Returns (Found n t i) (seek_ready n t i)
  unfolding seek_ready
  seek-Found zero t i inside =
      let e : i + 0 - i ≡ 0 = omega arith in
      returns (record {
        from = omega arith;
        upto = omega arith;
        same = rw e refl;
        ready = λ h. absurd (omega arith);
      })
  seek-Found (suc n) t i inside =
      let l = inside (omega arith) in
      let read : ltb i max_pollfd ≡ true = ground arith in
      rw read (
        Returns-if (is_ready (t i))
          (λ e.
            let z : i + suc n - i ≡ suc n = omega arith in
            returns (record {
              from = omega arith;
              upto = omega arith;
              same = rw (z, e) refl;
              ready = λ h. e;
            }))
          (λ e. Returns-map (seek-Found n t (i + 1) (λ h. omega arith)) λ k f.
            let z : i + 1 + n - k ≡ i + suc n - k = omega arith in
            record {
              from = omega (arith, f.from);
              upto = omega (arith, f.upto);
              same = skip_first n t i e ∙ (rw z at f.same);
              ready = λ h. f.ready (omega arith);
            }))

  -- What dw_poll_next() leaves to do: nothing was ready, or the event that it returns is done.
  abbrev pub Step : PollFds → Option Event × PollFds → Type 0
  Step p (none, p') = pending p ≡ 0
  Step p (some e, p') =
      (pending p ≡ w e + pending p') × (left p' < left p) × (p'.n_pollfds ≤ p.n_pollfds)

  update_self : (t : ℕ → PollFd) (k : ℕ) (e : PollFd) → update t k e k ≡ e
  update_self t k e = ground arith

  update_above : (t : ℕ → PollFd) (k : ℕ) (e : PollFd) (j : ℕ) → k + 1 ≤ j → update t k e j ≡ t j
  update_above t k e j h = ground arith

  -- The last entry takes the place of entry `k`, which is before it.
  moved :
      (t : ℕ → PollFd) (k d : ℕ)
      → total t k (suc (suc d)) ≡ weight t k + total (update t k (t (k + suc d))) k (suc d)
  moved t k d =
      let t' = update t k (t (k + suc d)) in
      let at_k : weight t' k ≡ weight t (k + suc d) =
        ap (λ e. if is_ready e then w (event_of e) else 0) (update_self t k (t (k + suc d))) in
      let behind : total t' (k + 1) d ≡ total t (k + 1) d =
        total-ext t' t (k + 1) d (λ j p. update_above t k (t (k + suc d)) j p) in
      let end : k + 1 + d ≡ k + suc d = omega arith in
      let all : total t (k + 1) (suc d) ≡ total t (k + 1) d + weight t (k + suc d) =
        rw end at (total-snoc t (k + 1) d) in
      omega (arith, at_k, behind, all)

  swapped :
      (t : ℕ → PollFd) (k m : ℕ)
      → k ≤ m
      → total t k (suc m - k)
        ≡ weight t k + total (if ltb k m then update t k (t m) else t) k (m - k)
  swapped t k m h = elim (dec_lt k m) [
    | yes l ↦
        let d = m - k - 1 in
        let e1 : suc m - k ≡ suc (suc d) = omega arith in
        let e2 : m - k ≡ suc d = omega arith in
        let e3 : k + suc d ≡ m = omega arith in
        let final : weight t k + total (update t k (t (k + suc d))) k (suc d)
            ≡ weight t k + total (update t k (t m)) k (m - k) =
          ap₂ (λ x n. weight t k + total (update t k (t x)) k n) e3 (sym e2) in
        rw (lt→ltb k m l) (ap (total t k) e1 ∙ moved t k d ∙ final)
    | no l ↦
        let e1 : suc m - k ≡ 1 = omega arith in let e2 : m - k ≡ 0 = omega arith in rw (e1, e2) refl
  ]

  ready_weight : (t : ℕ → PollFd) (k : ℕ) → is_ready (t k) ≡ true → weight t k ≡ w (event_of (t k))
  ready_weight t k e = rw e refl

  move_last-eq :
      (t : ℕ → PollFd) (m i : ℕ)
      → m < max_pollfd
      → move_last t m i ≡ ok (if ltb i m then update t i (t m) else t)
  unfolding move_last
  move_last-eq t m i h =
      let inside : ltb m max_pollfd ≡ true = ground arith in
      rw inside (ok_if (ltb i m) (update t i (t m)) t)

  del-eq :
      (p : PollFds) (i m : ℕ)
      → p.n_pollfds ≡ suc m
      → m < max_pollfd
      → poll_del_pos p i
        ≡ ok (record p {
          n_pollfds = m;
          pollfds = if ltb i m then update p.pollfds i (p.pollfds m) else p.pollfds;
        })
  unfolding poll_del_pos
  del-eq p i m e h = rw (e, move_last-eq p.pollfds m i h) refl

  module _ (p : PollFds) (place : ℕ) (f : Found (left p) p.pollfds p.iter place) where
    nothing : ltb place p.n_pollfds && is_ready (p.pollfds place) ≡ false → pending p ≡ 0
    nothing c = elim (dec_lt place p.n_pollfds) [
      | yes l ↦ absurd (and_true (lt→ltb place p.n_pollfds l) (f.ready (omega (arith, f.from))) c)
      | no l ↦
          let z : p.iter + left p - place ≡ 0 = omega (arith, f.from, f.upto) in
          f.same ∙ ap (total p.pollfds place) z
    ]
      where
        and_true : {a b : Bool} → a ≡ true → b ≡ true → a && b ≡ false → ⊥
        and_true ea eb h = cc

    module _ (c : ltb place p.n_pollfds && is_ready (p.pollfds place) ≡ true) where
      inside : place < p.n_pollfds
      inside = ltb→lt _ _ (and_left _ _ c)
        where
          and_left : (a b : Bool) → a && b ≡ true → a ≡ true
          and_left true b h = refl
          and_left false b h = h

      is_ready-place : is_ready (p.pollfds place) ≡ true
      is_ready-place = and_right _ _ c
        where
          and_right : (a b : Bool) → a && b ≡ true → b ≡ true
          and_right true b h = h
          and_right false b h = cc

      -- With the entry in its place, or with the last one in its place.
      goes_on :
          pending p
          ≡ w (event_of (p.pollfds place)) + total p.pollfds (place + 1) (p.n_pollfds - (place + 1))
      goes_on =
          let z : p.iter + left p - place ≡ suc (p.n_pollfds - (place + 1)) =
            omega (arith, f.from, inside) in
          f.same
          ∙ ap (total p.pollfds place) z
          ∙ ap (λ x. x + total p.pollfds (place + 1) (p.n_pollfds - (place + 1)))
              (ready_weight p.pollfds place is_ready-place)

      goes_off :
          (m : ℕ)
          → p.n_pollfds ≡ suc m
          → pending p
            ≡ w (event_of (p.pollfds place))
              + total
                  (if ltb place m then update p.pollfds place (p.pollfds m) else p.pollfds)
                  place
                  (m - place)
      goes_off m e =
          let t = if ltb place m then update p.pollfds place (p.pollfds m) else p.pollfds in
          let z : p.iter + left p - place ≡ suc m - place = omega (arith, f.from, inside) in
          f.same
          ∙ ap (total p.pollfds place) z
          ∙ swapped p.pollfds place m (omega (arith, inside))
          ∙ ap (λ x. x + total t place (m - place)) (ready_weight p.pollfds place is_ready-place)

  poll_next_at-Step :
      (p : PollFds) (place : ℕ)
      → Found (left p) p.pollfds p.iter place
      → p.n_pollfds ≤ max_pollfd
      → Returns (Step p) (poll_next_at p place)
  unfolding poll_next_at
  poll_next_at-Step p place f fits =
      Returns-if (ltb place p.n_pollfds && is_ready (p.pollfds place))
        (λ c.
          let l = inside p place f c in
          let e : p.n_pollfds ≡ suc (p.n_pollfds - 1) = omega arith in
          Returns-if (p.pollfds place).flags.oneshot
            (λ _. rw (del-eq (record p { iter = place }) place (p.n_pollfds - 1) e (omega arith)) (
              returns
                (goes_off p place f c (p.n_pollfds - 1) e, omega (arith, f.from), omega arith)))
            (λ _. returns (goes_on p place f c, omega (arith, f.from), omega arith)))
        (λ c. returns {value = (none, record p { iter = place })} (nothing p place f c))

  poll_next-Step : (p : PollFds) → p.n_pollfds ≤ max_pollfd → Returns (Step p) (poll_next p)
  unfolding poll_next
  poll_next-Step p fits =
      Returns-bind (seek-Found (left p) p.pollfds p.iter (λ h. omega arith))
        λ place f. poll_next_at-Step p place f fits

  -- Every call of dw_poll_next() for poll() up to the one that returns 0, from any state of the
  -- iteration, with MAX_POLLFD entries at most in use: the calls end, without an access outside the
  -- table, and the events that they return are those of the entries that were ready and had not been
  -- come to, each once, whether or not an entry is taken out of the table on the way. (They have the
  -- same total for any weight of events.)
  pub poll_events-once :
      (fuel : ℕ) (p : PollFds)
      → p.n_pollfds ≤ max_pollfd
      → left p < fuel
      → Returns (λ (r : List Event × PollFds). sum_events r.0 ≡ pending p) (poll_events fuel p)
  unfolding poll_events
  poll_events-once zero p fits h = absurd (omega arith)
  poll_events-once (suc fuel) p fits h =
      Returns-bind (poll_next-Step p fits) λ r x. on (poll_events-once fuel) r x
    where
      on :
          ((q : PollFds)
            → q.n_pollfds ≤ max_pollfd
            → left q < fuel
            → Returns
                (λ (s : List Event × PollFds). sum_events s.0 ≡ pending q)
                (poll_events fuel q))
          → (r : Option Event × PollFds) → Step p r
          → Returns
              (λ (s : List Event × PollFds). sum_events s.0 ≡ pending p)
              (elim r.0 [
                | none ↦ ok ([], r.1)
                | some e ↦ poll_events fuel r.1 >>= λ s. ok (e ∷ s.0, s.1)
              ])
      on again (none, q) x = returns (sym x)
      on again (some e, q) (x, l, k) =
          Returns-bind (again q (omega arith) (omega arith)) λ s y. returns (omega (arith, x, y))
