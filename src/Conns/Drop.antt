-- ===== src/Conns/Drop.antt =====
-- req_unlink(): the links of the requests that stay.
use distwalk_iouring.Prelude.{
  ℕ, ◌≡◌, ◌≢◌, refl, ap, ◌∙◌, Bool, true, false, Option, none, some, arith, ◌==◌, if◌then◌else◌,
  ℕ_discrete,
}
use distwalk_iouring.Request.{Request, Requests, req_unlink, set_prev, set_next}
use distwalk_iouring.Conns.{same_ptr}

pub set_prev-prev :
    (f : ℕ → Request) (o v : Option ℕ) (k : ℕ)
    → (set_prev f o v k).prev ≡ (if same_ptr o k then v else (f k).prev)
set_prev-prev f none v k = refl
set_prev-prev f (some i) v k = ground arith

pub set_prev-next :
    (f : ℕ → Request) (o v : Option ℕ) (k : ℕ) → (set_prev f o v k).next ≡ (f k).next
set_prev-next f none v k = refl
set_prev-next f (some i) v k = ground arith

set_next-next :
    (f : ℕ → Request) (o v : Option ℕ) (k : ℕ)
    → (set_next f o v k).next ≡ (if same_ptr o k then v else (f k).next)
set_next-next f none v k = refl
set_next-next f (some i) v k = ground arith

set_next-prev : (f : ℕ → Request) (o v : Option ℕ) (k : ℕ) → (set_next f o v k).prev ≡ (f k).prev
set_next-prev f none v k = refl
set_next-prev f (some i) v k = ground arith

pub same_ptr_at : (o : Option ℕ) (k : ℕ) → o ≡ some k → same_ptr o k ≡ true
same_ptr_at none k e = cc
same_ptr_at (some i) k e = ground (arith, e)

pub same_ptr_off : (o : Option ℕ) (k : ℕ) → o ≢ some k → same_ptr o k ≡ false
same_ptr_off none k e = refl
same_ptr_off (some i) k e = elim (ℕ_discrete i k) [
  | yes h ↦ absurd (e (ap some h))
  | no h ↦ ground arith
]

if_same {ℓ} : {A : Type ℓ} (b : Bool) (a : A) → (if b then a else a) ≡ a
if_same true a = refl
if_same false a = refl

-- The links of the entries other than `r`, after req_unlink() of `r`.
module _ (t : Requests) (r k : ℕ) (other : k ≢ r) where
  abbrev pub after : ℕ → Request
  after = (req_unlink t r).1.reqs

  miss : (k == r) ≡ false
  miss = ground arith

  pub unlink-prev :
      (after k).prev ≡ (if same_ptr (t.reqs r).next k then (t.reqs r).prev else (t.reqs k).prev)
  unfolding req_unlink
  unlink-prev =
      let f1 = set_prev t.reqs (t.reqs r).next (t.reqs r).prev in
      rw miss (
        set_next-prev f1 (f1 r).prev (f1 r).next k
        ∙ set_prev-prev t.reqs (t.reqs r).next (t.reqs r).prev k)

  pub unlink-next :
      (after k).next ≡ (if same_ptr (t.reqs r).prev k then (t.reqs r).next else (t.reqs k).next)
  unfolding req_unlink
  unlink-next =
      let f1 = set_prev t.reqs (t.reqs r).next (t.reqs r).prev in
      let ep : (f1 r).prev ≡ (t.reqs r).prev =
        set_prev-prev t.reqs (t.reqs r).next (t.reqs r).prev r
        ∙ if_same (same_ptr (t.reqs r).next r) (t.reqs r).prev in
      let en : (f1 r).next ≡ (t.reqs r).next =
        set_prev-next t.reqs (t.reqs r).next (t.reqs r).prev r in
      let ek : (f1 k).next ≡ (t.reqs k).next =
        set_prev-next t.reqs (t.reqs r).next (t.reqs r).prev k in
      rw miss (set_next-next f1 (f1 r).prev (f1 r).next k ∙ rw (ep, en, ek) refl)
