-- ===== src/Timespec.antt =====
-- src/timespec.h: arithmetic on struct timespec. Seconds and nanoseconds are unbounded integers
-- here: what the program adds and subtracts are clock readings, far from the ends of a 64-bit long.
pub mod Laws
mod Tests
use distwalk_iouring.Prelude.{
  ℕ, zero, suc, ◌+◌, ◌*◌, ◌/◌, ◌%◌, Bool, true, false, not, ◌&&◌, ◌||◌, ltb, leb, if◌then◌else◌,
}
use distwalk_iouring.Prelude.Int.{
  ℤ, pos, negsuc, pos_part, neg_part, sub_ℕ, ◌+ℤ◌, ◌-ℤ◌, ◌*ℤ◌, ltb_ℤ,
}
use distwalk_iouring.Prelude.Run.{Run, ok, out_of_fuel, ◌>>=◌}

pub record Timespec : Type 0 where
  pub tv_sec : ℤ
  pub tv_nsec : ℤ

abbrev pub billion : ℕ
billion = 1000000000

-- The loop of ts_add(): carry while there is a whole second in the nanoseconds.
unfoldable pub carry : ℕ → Timespec → Run Timespec
carry zero c = out_of_fuel
carry (suc fuel) c =
    let again =
      carry fuel (record { tv_sec = c.tv_sec +ℤ pos 1; tv_nsec = c.tv_nsec -ℤ pos billion }) in
    if ltb_ℤ c.tv_nsec (pos billion) then ok c else again

-- The loop of ts_sub(): borrow while the nanoseconds are negative.
unfoldable pub borrow : ℕ → Timespec → Run Timespec
borrow zero c = out_of_fuel
borrow (suc fuel) c =
    let again =
      borrow fuel (record { tv_sec = c.tv_sec -ℤ pos 1; tv_nsec = c.tv_nsec +ℤ pos billion }) in
    if ltb_ℤ c.tv_nsec (pos 0) then again else ok c

-- Each round takes a second away from the nanoseconds, so this fuel is enough.
unfoldable pub ts_add : Timespec → Timespec → Run Timespec
ts_add a b =
    let nsec = a.tv_nsec +ℤ b.tv_nsec in
    carry (pos_part nsec / billion + 2) (record { tv_sec = a.tv_sec +ℤ b.tv_sec; tv_nsec = nsec })

unfoldable pub ts_sub : Timespec → Timespec → Run Timespec
ts_sub a b =
    let nsec = a.tv_nsec -ℤ b.tv_nsec in
    borrow (neg_part nsec / billion + 2) (record { tv_sec = a.tv_sec -ℤ b.tv_sec; tv_nsec = nsec })

-- C's quotient of an integer by a positive number: towards 0
unfoldable pub quot_ℤ : ℤ → ℕ → ℤ
quot_ℤ (pos n) d = pos (n / d)
quot_ℤ (negsuc n) d = sub_ℕ 0 (suc n / d)

-- C's remainder, of the sign of the dividend
unfoldable pub rem_ℤ : ℤ → ℕ → ℤ
rem_ℤ (pos n) d = pos (n % d)
rem_ℤ (negsuc n) d = sub_ℕ 0 (suc n % d)

unfoldable pub ts_sub_us : Timespec → Timespec → Run ℤ
ts_sub_us a b = do c ← ts_sub a b; ok (c.tv_sec *ℤ pos 1000000 +ℤ quot_ℤ c.tv_nsec 1000)

unfoldable pub ts_sub_ns : Timespec → Timespec → Run ℤ
ts_sub_ns a b = do c ← ts_sub a b; ok (c.tv_sec *ℤ pos billion +ℤ c.tv_nsec)

unfoldable pub ts_leq : Timespec → Timespec → Run Bool
ts_leq a b = do
  ts ← ts_sub a b
  let sec_zero = not (ltb_ℤ ts.tv_sec (pos 0)) && not (ltb_ℤ (pos 0) ts.tv_sec)
  ok (ltb_ℤ ts.tv_sec (pos 0) || (sec_zero && ltb_ℤ ts.tv_nsec (pos 0)))

-- its_to_us(): the it_value of a timer, in microseconds
unfoldable pub its_to_us : Timespec → ℤ
its_to_us t = t.tv_sec *ℤ pos 1000000 +ℤ quot_ℤ t.tv_nsec 1000

-- us_to_its(): the it_value of the timer; the interval is 0
unfoldable pub us_to_its : ℤ → Timespec
us_to_its micros = record {
  tv_sec = quot_ℤ micros 1000000;
  tv_nsec = rem_ℤ micros 1000000 *ℤ pos 1000;
}
