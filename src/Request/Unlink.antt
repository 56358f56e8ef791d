-- ===== src/Request/Unlink.antt =====
-- req_unlink(): the request leaves the table, and its neighbours are joined.
use distwalk_iouring.Prelude.{
  ℕ, ◌≡◌, ◌≢◌, refl, ap, ◌∙◌, true, Option, none, some, arith, ◌==◌, ℕ_discrete,
}
use distwalk_iouring.Prelude.Int.{negsuc}
use distwalk_iouring.Prelude.Tables.{update, update_self, update_ne}
use distwalk_iouring.Request.{Request, Requests, slot, req_unlink, set_prev, set_next}
use distwalk_iouring.Request.Table.{IsLive, IsValid}

-- A field of an entry other than `r`, but for the two links, after req_unlink() of `r`.
module _ {ℓ} {A : Type ℓ} (field : Request → A)
    (no_prev : (q : Request) (v : Option ℕ) → field (record q { prev = v }) ≡ field q)
    (no_next : (q : Request) (v : Option ℕ) → field (record q { next = v }) ≡ field q) where
  update_field :
      (f : ℕ → Request) (i j : ℕ) (q : Request)
      → field q ≡ field (f i)
      → field (update f i q j) ≡ field (f j)
  update_field f i j q e = elim (ℕ_discrete j i) [
    | yes h ↦ rw h (ap field (update_self f i q) ∙ e)
    | no h ↦ ap field (update_ne f i j q h)
  ]

  set_prev_field :
      (f : ℕ → Request) (o v : Option ℕ) (j : ℕ) → field (set_prev f o v j) ≡ field (f j)
  set_prev_field f none v j = refl
  set_prev_field f (some i) v j = update_field f i j _ (no_prev (f i) v)

  set_next_field :
      (f : ℕ → Request) (o v : Option ℕ) (j : ℕ) → field (set_next f o v j) ≡ field (f j)
  set_next_field f none v j = refl
  set_next_field f (some i) v j = update_field f i j _ (no_next (f i) v)

  pub field_after :
      (t : Requests) (r j : ℕ) → j ≢ r → field ((req_unlink t r).1.reqs j) ≡ field (t.reqs j)
  unfolding req_unlink
  field_after t r j ne =
      let f1 = set_prev t.reqs (t.reqs r).next (t.reqs r).prev in
      let f2 = set_next f1 (f1 r).prev (f1 r).next in
      ap field (update_ne f2 r j _ ne)
      ∙ set_next_field f1 (f1 r).prev (f1 r).next j
      ∙ set_prev_field t.reqs (t.reqs r).next (t.reqs r).prev j

pub set_prev_id :
    (f : ℕ → Request) (o v : Option ℕ) (j : ℕ) → (set_prev f o v j).req_id ≡ (f j).req_id
set_prev_id = set_prev_field (λ q. q.req_id) (λ q v. refl) (λ q v. refl)

pub update_id :
    (f : ℕ → Request) (i j : ℕ) (q : Request)
    → q.req_id ≡ (f i).req_id
    → (update f i q j).req_id ≡ (f j).req_id
update_id = update_field (λ q. q.req_id) (λ q v. refl) (λ q v. refl)

-- The id of an entry, after req_unlink() of `r`.
pub id_after :
    (t : Requests) (r j : ℕ) → j ≢ r → ((req_unlink t r).1.reqs j).req_id ≡ (t.reqs j).req_id
id_after = field_after (λ q. q.req_id) (λ q v. refl) (λ q v. refl)

id_gone : (t : Requests) (r : ℕ) → ((req_unlink t r).1.reqs r).req_id ≡ negsuc 0
unfolding req_unlink
id_gone t r = let y : (r == r) ≡ true = ground arith in rw y refl

pub followed : (t : Requests) (r : ℕ) → (req_unlink t r).0 ≡ (t.reqs r).next
unfolding req_unlink
followed t r = refl

-- req_unlink() on a valid table: the entry is free, every other request keeps its id, the table
-- stays valid, and what is returned is the entry that followed.
pub req_unlink-freed :
    (t : Requests) (r : ℕ)
    → IsValid t
    → (((req_unlink t r).1.reqs r).req_id ≡ negsuc 0)
      × ((j : ℕ) → j ≢ r → ((req_unlink t r).1.reqs j).req_id ≡ (t.reqs j).req_id)
      × IsValid (req_unlink t r).1
      × ((req_unlink t r).0 ≡ (t.reqs r).next)
req_unlink-freed t r v = (id_gone t r, id_after t r, valid, followed t r)
  where
    valid : IsValid (req_unlink t r).1
    valid j l = elim (ℕ_discrete j r) [
      | yes e ↦ absurd (l (rw e (id_gone t r)))
      | no ne ↦
          let at = id_after t r j ne in
          let live : IsLive t j = λ e. l (at ∙ e) in ap slot at ∙ v j live
    ]
