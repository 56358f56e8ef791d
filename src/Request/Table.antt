-- ===== src/Request/Table.antt =====
-- The entries of the table are found by their ids.
use distwalk_iouring.Prelude.{
  ℕ, ◌≡◌, ◌≢◌, refl, sym, ap, ◌∙◌, inl, inr, Option, none, some, ℕ_discrete, Bool-cases,
}
use distwalk_iouring.Prelude.Int.{negsuc}
use distwalk_iouring.Prelude.Tables.{update, update_self, update_ne}
use distwalk_iouring.Prelude.Int.{eq_ℤ, eq_ℤ_refl, eq_ℤ_yields, eq_ℤ_differs}
use distwalk_iouring.Request.{Request, Requests, slot, next_id, req_alloc, req_get_by_id}

abbrev pub IsLive : Requests → ℕ → Type 0
IsLive t i = (t.reqs i).req_id ≢ negsuc 0

-- A request in progress is in the slot of its id.
abbrev pub IsValid : Requests → Type 0
IsValid t = (i : ℕ) → IsLive t i → slot (t.reqs i).req_id ≡ i

-- In a valid table, req_get_by_id() of the id of a request in progress finds that request.
pub req_get_by_id-live :
    (t : Requests) (i : ℕ) → IsValid t → IsLive t i → req_get_by_id t (t.reqs i).req_id ≡ some i
unfolding req_get_by_id
req_get_by_id-live t i v l = rw (v i l, eq_ℤ_refl (t.reqs i).req_id) refl

-- What req_alloc() does to a table `t`: nothing but to use up the id, when the slot of the id is taken;
-- or a new request with that id, in a slot that was free, with the other requests as they were.
abbrev pub Allocated : Requests → Option ℕ × Requests → Type 0
Allocated t (none, t') =
    IsLive t (slot t.last_reqs) × (t' ≡ record t { last_reqs = next_id t.last_reqs })
Allocated t (some i, t') =
    ((t.reqs i).req_id ≡ negsuc 0)
    × ((t'.reqs i).req_id ≡ t.last_reqs)
    × ((t'.reqs i).prev ≡ none)
    × (req_get_by_id t' t.last_reqs ≡ some i)
    × ((j : ℕ) → j ≢ i → t'.reqs j ≡ t.reqs j)

module _ (t : Requests) (v : IsValid t) (r : Request) (named : r.req_id ≡ t.last_reqs) where
  abbrev place : ℕ
  place = slot t.last_reqs

  abbrev filled : Requests
  filled = record { reqs = update t.reqs place r; last_reqs = next_id t.last_reqs }

  filled-IsValid : IsValid filled
  filled-IsValid j l = elim (ℕ_discrete j place) [
    | yes e ↦
        let at : filled.reqs j ≡ r = ap filled.reqs e ∙ update_self t.reqs place r in
        ap (λ x. slot x.req_id) at ∙ ap slot named ∙ sym e
    | no ne ↦
        let at : filled.reqs j ≡ t.reqs j = update_ne t.reqs place j r ne in
        let live : IsLive t j = rw at at l in ap (λ x. slot x.req_id) at ∙ v j live
  ]

  filled-found : req_get_by_id filled t.last_reqs ≡ some place
  unfolding req_get_by_id
  filled-found =
      let id : (filled.reqs place).req_id ≡ t.last_reqs =
        ap (λ x. x.req_id) (update_self t.reqs place r) ∙ named in
      rw (id, eq_ℤ_refl t.last_reqs) refl

-- req_alloc() on a valid table: the table stays valid; either the slot of the next id is taken, and
-- only the id is used up, or that slot was free and now holds a request with the id, which
-- req_get_by_id() finds, and every other request is as it was.
pub req_alloc-Allocated :
    (t : Requests) → IsValid t → Allocated t (req_alloc t) × IsValid (req_alloc t).1
unfolding req_alloc
req_alloc-Allocated t v = elim (Bool-cases (eq_ℤ (t.reqs (slot t.last_reqs)).req_id (negsuc 0))) [
  | inl e ↦
      let r = record (t.reqs (slot t.last_reqs)) {
        req_id = t.last_reqs;
        curr_cmd = none;
        fwd_replies_left = negsuc 0;
        next = none;
        prev = none;
      } in
      rw e (
        (
          eq_ℤ_yields _ _ e,
          ap (λ x. x.req_id) (update_self t.reqs (slot t.last_reqs) r),
          ap (λ x. x.prev) (update_self t.reqs (slot t.last_reqs) r),
          filled-found t v r refl,
          λ j ne. update_ne t.reqs (slot t.last_reqs) j r ne,
        ),
        filled-IsValid t v r refl,
      )
  | inr e ↦ rw e ((eq_ℤ_differs _ _ e, refl), v)
]
