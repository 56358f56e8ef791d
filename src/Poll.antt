-- ===== src/Poll.antt =====
-- src/dw_poll.h and src/dw_poll.c: the descriptors that are watched, by select(), poll() or epoll.
--
-- A flag word is the record of its bits, and fd_set a predicate on descriptors. Arrays have
-- MAX_POLLFD entries; an access outside them faults. What select(), poll(), epoll_wait() and
-- epoll_ctl() answer is an argument.
pub mod Modify
pub mod Next
pub mod Once
pub mod Full
mod Tests
use distwalk_iouring.Prelude.{
  ℕ, zero, suc, ◌+◌, ◌-◌, Bool, true, false, ◌&&◌, ◌||◌, not, ltb, ◌==◌, if◌then◌else◌,
}
use distwalk_iouring.Prelude.Int.{ℤ, pos, negsuc}
use distwalk_iouring.Prelude.Tables.{update}
use distwalk_iouring.Prelude.Run.{Run, ok, fault, ◌>>=◌}

abbrev pub max_pollfd : ℕ
max_pollfd = 8192

-- dw_poll_flags
pub record Flags : Type 0 where
  pub pollin : Bool
  pub pollout : Bool
  pub pollerr : Bool
  pub pollhup : Bool
  pub oneshot : Bool

-- what select() watches for one descriptor: entry i of rd_fd, rd_aux and rd_flags, or of the wr ones
pub record Entry : Type 0 where
  pub fd : ℤ
  pub aux : ℕ
  pub flags : Flags

-- revents of poll(); `rother` is any bit that the program does not name.
pub record Revents : Type 0 where
  pub rin : Bool
  pub rout : Bool
  pub rerr : Bool
  pub rhup : Bool
  pub rother : Bool

abbrev pub no_revents : Revents
no_revents = record { rin = false; rout = false; rerr = false; rhup = false; rother = false }

-- A struct pollfd, with entry i of aux and flags.
pub record PollFd : Type 0 where
  pub fd : ℤ
  pub want_in : Bool
  pub want_out : Bool
  pub revents : Revents
  pub aux : ℕ
  pub flags : Flags

pub record SelectFds : Type 0 where
  pub rd : ℕ → Entry
  pub wr : ℕ → Entry
  pub n_rd_fd : ℕ
  pub n_wr_fd : ℕ
  pub rd_fds : ℤ → Bool
  pub wr_fds : ℤ → Bool
  pub iter : ℕ

pub record PollFds : Type 0 where
  pub pollfds : ℕ → PollFd
  pub n_pollfds : ℕ
  pub iter : ℕ

-- entry `i` of an array
abbrev pub entry_at {ℓ} : {A : Type ℓ} → (ℕ → A) → ℕ → Run A
entry_at t i = if ltb i max_pollfd then ok (t i) else fault

-- Entry `n`, the last one, takes the place of entry `i`, if that is before it.
unfoldable pub move_last {ℓ} : {A : Type ℓ} → (ℕ → A) → ℕ → ℕ → Run (ℕ → A)
move_last t n i =
    let move = entry_at t n >>= λ e. ok (update t i e) in if ltb i n then move else ok t

-- dw_select_del_rd_pos(), on one of the two tables of select(): the table and its count
unfoldable pub del_entry : (ℕ → Entry) → ℕ → ℕ → Run ((ℕ → Entry) × ℕ)
del_entry t zero i = fault
del_entry t (suc n) i = move_last t n i >>= λ t'. ok (t', n)

-- dw_select_add_rd(), which does not look whether the table is full
unfoldable pub add_entry : (ℕ → Entry) → ℕ → Entry → Run ((ℕ → Entry) × ℕ)
add_entry t n e = if ltb n max_pollfd then ok (update t n e, n + 1) else fault

unfoldable pub select_del_rd_pos : SelectFds → ℕ → Run SelectFds
select_del_rd_pos s i = do r ← del_entry s.rd s.n_rd_fd i; ok (record s { rd = r.0; n_rd_fd = r.1 })

unfoldable pub select_del_wr_pos : SelectFds → ℕ → Run SelectFds
select_del_wr_pos s i = do r ← del_entry s.wr s.n_wr_fd i; ok (record s { wr = r.0; n_wr_fd = r.1 })

unfoldable pub select_add_rd : SelectFds → Entry → Run SelectFds
select_add_rd s e = do r ← add_entry s.rd s.n_rd_fd e; ok (record s { rd = r.0; n_rd_fd = r.1 })

unfoldable pub select_add_wr : SelectFds → Entry → Run SelectFds
select_add_wr s e = do r ← add_entry s.wr s.n_wr_fd e; ok (record s { wr = r.0; n_wr_fd = r.1 })

-- dw_poll_del_pos()
unfoldable pub poll_del_pos : PollFds → ℕ → Run PollFds
poll_del_pos p i =
    let del : ℕ → Run PollFds = λ n. elim n [
      | zero ↦ fault
      | suc m ↦ move_last p.pollfds m i >>= λ t. ok (record p { n_pollfds = m; pollfds = t })
    ] in
    del p.n_pollfds

abbrev pub new_pollfd : ℤ → Flags → ℕ → PollFd
new_pollfd fd flags aux = record {
  fd = fd;
  want_in = flags.pollin;
  want_out = flags.pollout;
  revents = no_revents;
  aux = aux;
  flags = flags;
}

-- The two cases of dw_poll_add() that keep a table of their own; the result is 0 or -1.
unfoldable pub select_add : SelectFds → ℤ → Flags → ℕ → Run (ℤ × SelectFds)
select_add s fd flags aux =
    let e : Entry = record { fd = fd; aux = aux; flags = flags } in
    let rd = select_add_rd s e in
    let add = (if flags.pollin then rd else ok s) >>= λ s1.
    let wr = select_add_wr s1 e in (if flags.pollout then wr else ok s1) >>= λ s2. ok (pos 0, s2) in
    if (flags.pollin && s.n_rd_fd == max_pollfd) || (flags.pollout && s.n_wr_fd == max_pollfd)
    then ok (negsuc 0, s)
    else add

unfoldable pub poll_add : PollFds → ℤ → Flags → ℕ → Run (ℤ × PollFds)
poll_add p fd flags aux =
    let add =
      if ltb p.n_pollfds max_pollfd
      then ok (
        pos 0,
        record p {
          pollfds = update p.pollfds p.n_pollfds (new_pollfd fd flags aux);
          n_pollfds = p.n_pollfds + 1;
        },
      )
      else fault in
    if p.n_pollfds == max_pollfd then ok (negsuc 0, p) else add

-- dw_poll_wait(), once select() or poll() has answered: `ready` says that the answer is above 0.
unfoldable pub select_wait : SelectFds → Bool → (ℤ → Bool) → (ℤ → Bool) → SelectFds
select_wait s ready rd_fds wr_fds = record s {
  rd_fds = rd_fds;
  wr_fds = wr_fds;
  iter = if ready then 0 else s.n_rd_fd + s.n_wr_fd;
}

unfoldable pub poll_wait : PollFds → Bool → (ℕ → Revents) → PollFds
poll_wait p ready revents = record p {
  pollfds = λ i. record (p.pollfds i) { revents = revents i };
  iter = if ready then 0 else p.n_pollfds;
}
