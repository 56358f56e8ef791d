-- ===== src/Request/Tests.antt =====
-- A table with one request in progress, and the theorems on it.
use distwalk_iouring.Prelude.{◌≡◌, refl, ap, arith, ℕ_discrete}
use distwalk_iouring.Prelude.Int.{pos, neg_part}
use distwalk_iouring.Prelude.Tables.{update}
use distwalk_iouring.Request.{Requests, unused, slot, req_alloc}
use distwalk_iouring.Request.Table.{IsLive, IsValid, Allocated, req_alloc-Allocated}

-- Request 65541 is in slot 5, and the next id is 65542.
abbrev one : Requests
one = record {
  reqs = update (λ i. unused) 5 (record unused { req_id = pos 65541 });
  last_reqs = pos 65542;
}

one-IsLive : IsLive one 5
one-IsLive e = omega (arith, ap neg_part e)

one-IsValid : IsValid one
unfolding slot
one-IsValid i l = elim (ℕ_discrete i 5) [
  | yes e ↦ rw e refl
  | no ne ↦ let at : one.reqs i ≡ unused = ground arith in absurd (l (ap (λ r. r.req_id) at))
]

req_alloc-Allocated_example : Allocated one (req_alloc one) × IsValid (req_alloc one).1
req_alloc-Allocated_example = req_alloc-Allocated one one-IsValid
