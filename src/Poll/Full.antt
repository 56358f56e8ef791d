-- ===== src/Poll/Full.antt =====
-- src/dw_poll.c: what dw_poll_add() and dw_poll_mod() do once the table of select() is full.
use distwalk_iouring.Prelude.{
  ℕ, zero, suc, ◌+◌, ◌<◌, ◌≤◌, ◌≡◌, refl, ap, ◌∙◌, true, false, arith, ltb,
}
use distwalk_iouring.Prelude.Int.{ℤ, negsuc, eq_ℤ}
use distwalk_iouring.Prelude.Run.{ok, fault}
use distwalk_iouring.Poll.{
  max_pollfd, Flags, Entry, SelectFds, add_entry, select_add_rd, select_add,
}
use distwalk_iouring.Poll.Modify.{find_entry, select_mod_rd, select_mod}

find_entry-absent :
    (n : ℕ) (t : ℕ → Entry) (fd : ℤ) (i : ℕ)
    → ((j : ℕ) → j < i + n → eq_ℤ (t j).fd fd ≡ false)
    → i + n ≤ max_pollfd
    → find_entry n t fd i ≡ ok (i + n)
unfolding find_entry
find_entry-absent zero t fd i h k = ap ok (omega arith)
find_entry-absent (suc n) t fd i h k =
    let inside : ltb i max_pollfd ≡ true = ground arith in
    let e : i + 1 + n ≡ i + suc n = omega arith in
    rw (inside, h i (omega arith))
      (find_entry-absent n t fd (i + 1) (λ j l. h j (omega arith)) (omega arith) ∙ ap ok e)

-- With a full table of descriptors to read from, and a descriptor that is not in it: dw_poll_add()
-- refuses it with -1 and leaves the table as it is, but dw_poll_mod() writes it behind the table.
pub select_mod-overflows :
    (s : SelectFds) (fd : ℤ) (flags : Flags) (aux : ℕ)
    → s.n_rd_fd ≡ max_pollfd
    → flags.pollin ≡ true
    → ((j : ℕ) → j < max_pollfd → eq_ℤ (s.rd j).fd fd ≡ false)
    → (select_add s fd flags aux ≡ ok (negsuc 0, s)) × (select_mod s fd flags aux ≡ fault)
unfolding select_add select_mod select_mod_rd select_add_rd add_entry
select_mod-overflows s fd flags aux full reads absent =
    let at : find_entry max_pollfd s.rd fd 0 ≡ ok max_pollfd =
      find_entry-absent max_pollfd s.rd fd 0 (λ j l. absent j (omega arith)) (omega arith) in
    (rw (full, reads) refl, rw (full, at, reads) refl)
