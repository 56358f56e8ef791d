-- ===== src/Poll/Modify.antt =====
-- src/dw_poll.c, dw_poll_mod() and, in src/dw_poll.h, dw_poll_del().
use distwalk_iouring.Prelude.{
  ℕ, zero, suc, ◌+◌, Bool, false, ◌&&◌, ◌||◌, not, ltb, ◌==◌, if◌then◌else◌,
}
use distwalk_iouring.Prelude.Int.{ℤ, pos, eq_ℤ}
use distwalk_iouring.Prelude.Run.{Run, ok, ◌>>=◌}
use distwalk_iouring.Prelude.Tables.{update}
use distwalk_iouring.Poll.{
  Flags, Entry, PollFd, SelectFds, PollFds, entry_at, select_del_rd_pos, select_del_wr_pos,
  select_add_rd, select_add_wr, poll_del_pos, poll_add,
}

-- The search loops: the first entry with the descriptor, or the count.
unfoldable pub find_entry : ℕ → (ℕ → Entry) → ℤ → ℕ → Run ℕ
find_entry zero t fd i = ok i
find_entry (suc n) t fd i =
    entry_at t i >>= λ e. let on = find_entry n t fd (i + 1) in if eq_ℤ e.fd fd then ok i else on

unfoldable pub find_pollfd : ℕ → (ℕ → PollFd) → ℤ → ℕ → Run ℕ
find_pollfd zero t fd i = ok i
find_pollfd (suc n) t fd i =
    entry_at t i >>= λ e. let on = find_pollfd n t fd (i + 1) in if eq_ℤ e.fd fd then ok i else on

-- flags & ~DW_POLLONESHOT
abbrev pub no_oneshot : Flags → Flags
no_oneshot flags = record flags { oneshot = false }

-- The two halves of dw_poll_mod() for select().
unfoldable pub select_mod_rd : SelectFds → ℤ → Flags → ℕ → Run SelectFds
select_mod_rd s fd flags aux = find_entry s.n_rd_fd s.rd fd 0 >>= λ i.
    let old = s.rd i in
    let del = select_del_rd_pos s i in
    let add = select_add_rd s (record { fd = fd; aux = aux; flags = flags }) in
    let set =
      ok (record s { rd = update s.rd i (record old { aux = aux; flags = no_oneshot flags }) }) in
    if ltb i s.n_rd_fd && not flags.pollin
    then del
    else if i == s.n_rd_fd && flags.pollin
    then add
    else if ltb i s.n_rd_fd && flags.pollin
    then set
    else ok s

unfoldable pub select_mod_wr : SelectFds → ℤ → Flags → ℕ → Run SelectFds
select_mod_wr s fd flags aux = find_entry s.n_wr_fd s.wr fd 0 >>= λ i.
    let old = s.wr i in
    let del = select_del_wr_pos s i in
    let add = select_add_wr s (record { fd = fd; aux = aux; flags = flags }) in
    let set =
      ok (record s { wr = update s.wr i (record old { aux = aux; flags = no_oneshot flags }) }) in
    if ltb i s.n_wr_fd && not flags.pollout
    then del
    else if i == s.n_wr_fd && flags.pollout
    then add
    else if ltb i s.n_wr_fd && flags.pollout
    then set
    else ok s

unfoldable pub select_mod : SelectFds → ℤ → Flags → ℕ → Run (ℤ × SelectFds)
select_mod s fd flags aux = do
  s1 ← select_mod_rd s fd flags aux
  s2 ← select_mod_wr s1 fd flags aux
  ok (pos 0, s2)

abbrev pub is_zero : Flags → Bool
is_zero f = not (f.pollin || (f.pollout || (f.pollerr || (f.pollhup || f.oneshot))))

-- dw_poll_mod() for poll(). After the entry was deleted the index is compared with the new count.
unfoldable pub poll_mod : PollFds → ℤ → Flags → ℕ → Run (ℤ × PollFds)
poll_mod p fd flags aux = find_pollfd p.n_pollfds p.pollfds fd 0 >>= λ i.
    let old = p.pollfds i in
    let asked = record old { want_in = flags.pollin; want_out = flags.pollout } in
    let p' = record p { pollfds = update p.pollfds i asked } in
    let kept = record p {
      pollfds = update p.pollfds i (record asked { aux = aux; flags = no_oneshot flags });
    } in
    let last : PollFds → Run (ℤ × PollFds) = λ q.
      let add = poll_add q fd flags aux in
      if i == q.n_pollfds && not (is_zero flags) then add else ok (pos 0, q) in
    let here =
      if not (flags.pollin || flags.pollout) then (poll_del_pos p' i >>= last) else last kept in
    if ltb i p.n_pollfds then here else last p

abbrev pub no_flags : Flags
no_flags = record {
  pollin = false;
  pollout = false;
  pollerr = false;
  pollhup = false;
  oneshot = false;
}

unfoldable pub select_del : SelectFds → ℤ → Run (ℤ × SelectFds)
select_del s fd = select_mod s fd no_flags 0

unfoldable pub poll_del : PollFds → ℤ → Run (ℤ × PollFds)
poll_del p fd = poll_mod p fd no_flags 0
