-- ===== src/Timespec/Tests.antt =====
-- The theorems on two times that are more than a second apart in both fields.
use distwalk_iouring.Prelude.{refl, arith}
use distwalk_iouring.Prelude.Int.{pos}
use distwalk_iouring.Timespec.{Timespec}
use distwalk_iouring.Timespec.Laws.{IsNormal}

abbrev early : Timespec
early = record { tv_sec = pos 3; tv_nsec = pos 999999999 }

abbrev late : Timespec
late = record { tv_sec = pos 5; tv_nsec = pos 2 }

early-IsNormal : IsNormal early
early-IsNormal = (refl, omega arith)

late-IsNormal : IsNormal late
late-IsNormal = (refl, omega arith)
