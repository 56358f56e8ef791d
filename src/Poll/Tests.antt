-- ===== src/Poll/Tests.antt =====
-- Tables with one descriptor each, and the theorems on them.
use distwalk_iouring.Prelude.{ℕ, ◌≡◌, refl, true, false, List, arith}
use distwalk_iouring.Prelude.Int.{pos, negsuc}
use distwalk_iouring.Prelude.Run.{ok, fault, Returns}
use distwalk_iouring.Poll.{Flags, PollFd, SelectFds, PollFds, no_revents, max_pollfd, select_add}
use distwalk_iouring.Poll.Modify.{select_mod}
use distwalk_iouring.Poll.Next.{Event, poll_events}
use distwalk_iouring.Poll.Once.{sum_events, pending, poll_events-once}
use distwalk_iouring.Poll.Full.{select_mod-overflows}

abbrev read_once : Flags
read_once = record {
  pollin = true;
  pollout = false;
  pollerr = false;
  pollhup = false;
  oneshot = true;
}

-- Every descriptor can be read from and is watched for one event.
abbrev readable : ℕ → PollFd
readable i = record {
  fd = pos i;
  want_in = true;
  want_out = false;
  revents = record no_revents { rin = true };
  aux = i;
  flags = read_once;
}

abbrev three : PollFds
three = record { pollfds = readable; n_pollfds = 3; iter = 0 }

poll_events-once_example :
    Returns
      (λ (r : List Event × PollFds). sum_events (λ e. e.aux) r.0 ≡ pending (λ e. e.aux) three)
      (poll_events 4 three)
poll_events-once_example = poll_events-once (λ e. e.aux) 4 three (omega arith) (omega arith)

abbrev full : SelectFds
full = record {
  rd = λ i. record { fd = pos 7; aux = i; flags = read_once };
  wr = λ i. record { fd = pos 7; aux = i; flags = read_once };
  n_rd_fd = max_pollfd;
  n_wr_fd = 0;
  rd_fds = λ fd. false;
  wr_fds = λ fd. false;
  iter = 0;
}

select_mod-overflows_example :
    (select_add full (pos 9) read_once 1 ≡ ok (negsuc 0, full))
    × (select_mod full (pos 9) read_once 1 ≡ fault)
select_mod-overflows_example = select_mod-overflows full (pos 9) read_once 1 refl refl (λ j l. refl)
