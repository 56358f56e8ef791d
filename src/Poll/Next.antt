-- ===== src/Poll/Next.antt =====
-- src/dw_poll.c, dw_poll_next(): the descriptors that are ready, one by one.
use distwalk_iouring.Prelude.{
  ℕ, zero, suc, ◌+◌, ◌-◌, Bool, true, false, ◌&&◌, ◌||◌, Option, none, some, List, [], ◌∷◌, ltb,
  if◌then◌else◌,
}
use distwalk_iouring.Prelude.Int.{ℤ}
use distwalk_iouring.Prelude.Run.{Run, ok, out_of_fuel, ◌>>=◌}
use distwalk_iouring.Poll.{
  Flags, Entry, PollFd, SelectFds, PollFds, entry_at, select_del_rd_pos, select_del_wr_pos,
  poll_del_pos,
}

-- revents != 0
abbrev pub is_ready : PollFd → Bool
is_ready e = let r = e.revents in r.rin || (r.rout || (r.rerr || (r.rhup || r.rother)))

-- *flags and *aux, as the caller gets them
pub record Event : Type 0 where
  pub flags : Flags
  pub aux : ℕ

abbrev pub event_of : PollFd → Event
event_of e = record {
  flags = record {
    pollin = e.revents.rin;
    pollout = e.revents.rout;
    pollerr = e.revents.rerr;
    pollhup = e.revents.rhup;
    oneshot = false;
  };
  aux = e.aux;
}

-- The while loop, from `iter` on: `n` is the number of entries that are left.
unfoldable pub seek_ready : ℕ → (ℕ → PollFd) → ℕ → Run ℕ
seek_ready zero t iter = ok iter
seek_ready (suc n) t iter = entry_at t iter >>= λ e.
    let on = seek_ready n t (iter + 1) in if is_ready e then ok iter else on

-- The event of entry `i`, at which the loop has stopped, and the iteration behind it. Each entry in
-- front of the count at which the loop stops has been read.
unfoldable pub poll_next_at : PollFds → ℕ → Run (Option Event × PollFds)
poll_next_at p i =
    let p' = record p { iter = i } in
    let e = p.pollfds i in
    let found =
      if e.flags.oneshot
      then (poll_del_pos p' i >>= λ p''. ok (some (event_of e), p''))
      else ok (some (event_of e), record p' { iter = i + 1 }) in
    if ltb i p.n_pollfds && is_ready e then found else ok (none, p')

-- dw_poll_next() for poll(): nothing, or the next event; the event and the queue of the others.
unfoldable pub poll_next : PollFds → Run (Option Event × PollFds)
poll_next p = seek_ready (p.n_pollfds - p.iter) p.pollfds p.iter >>= λ i. poll_next_at p i

-- The while loops of select(): entries of `t` from `i` on, of which `n` are left.
unfoldable pub seek_set : ℕ → (ℕ → Entry) → (ℤ → Bool) → ℕ → Run ℕ
seek_set zero t set i = ok i
seek_set (suc n) t set i =
    entry_at t i >>= λ e. let on = seek_set n t set (i + 1) in if set e.fd then ok i else on

abbrev pub only_in : Flags
only_in = record {
  pollin = true;
  pollout = false;
  pollerr = false;
  pollhup = false;
  oneshot = false;
}

abbrev pub only_out : Flags
only_out = record {
  pollin = false;
  pollout = true;
  pollerr = false;
  pollhup = false;
  oneshot = false;
}

-- The second half of dw_poll_next() for select(): the descriptors to write to.
unfoldable pub select_next_wr : SelectFds → Run (Option Event × SelectFds)
select_next_wr s = do
  k ← seek_set (s.n_rd_fd + s.n_wr_fd - s.iter) s.wr s.wr_fds (s.iter - s.n_rd_fd)
  let s' = record s { iter = s.n_rd_fd + k }
  let e = s.wr k
  let event : Event = record { flags = only_out; aux = e.aux }
  let once = select_del_wr_pos s' k >>= λ s''. ok (some event, s'')
  let found =
      if e.flags.oneshot then once else ok (some event, record s' { iter = s.n_rd_fd + k + 1 })
  if ltb k s.n_wr_fd && s.wr_fds e.fd then found else ok (none, s')

unfoldable pub select_next : SelectFds → Run (Option Event × SelectFds)
select_next s = do
  i ← seek_set (s.n_rd_fd - s.iter) s.rd s.rd_fds s.iter
  let s' = record s { iter = i }
  let e = s.rd i
  let event : Event = record { flags = only_in; aux = e.aux }
  let once = select_del_rd_pos s' i >>= λ s''. ok (some event, s'')
  let found = if e.flags.oneshot then once else ok (some event, record s' { iter = i + 1 })
  let rest = select_next_wr s'
  if ltb i s.n_rd_fd && s.rd_fds e.fd then found else rest

-- The callers' loop: while (dw_poll_next(...)), with the events in order.
unfoldable pub poll_events : ℕ → PollFds → Run (List Event × PollFds)
poll_events zero p = out_of_fuel
poll_events (suc fuel) p = poll_next p >>= λ r.
    let more : Event → Run (List Event × PollFds) =
      λ e. poll_events fuel r.1 >>= λ s. ok (e ∷ s.0, s.1) in
    elim r.0 [ none ↦ ok ([], r.1) | some e ↦ more e ]
