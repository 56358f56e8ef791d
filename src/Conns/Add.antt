-- ===== src/Conns/Add.antt =====
-- conn_req_add(): a new request at the head of the list of its connection.
use distwalk_iouring.Prelude.{ℕ, ◌≡◌, ◌≢◌, refl, sym, ap, ◌∙◌, Option, none, some, List, [], ◌∷◌}
use distwalk_iouring.Prelude.Int.{pos, negsuc}
use distwalk_iouring.Prelude.Tables.{update, update_self, update_ne}
use distwalk_iouring.Request.{Request, Requests, req_alloc, set_prev, slot, next_id}
use distwalk_iouring.Request.Table.{IsLive, IsValid, Allocated, req_alloc-Allocated}
use distwalk_iouring.Request.Unlink.{set_prev_id, update_id}
use distwalk_iouring.Conns.{Conns, conn_req_add, link_new}
use distwalk_iouring.Conns.Chain.{Links, Links-same, Links-live, Links-start, IsList}
use distwalk_iouring.Conns.Members.{head?, ◌∈◌, ◌∉◌}
use distwalk_iouring.Conns.Drop.{same_ptr_at, same_ptr_off, set_prev-prev, set_prev-next}
use distwalk_iouring.Conns.Remove.{KeepsOthers, head-mem}

-- What conn_req_add() does for a connection that has the requests `is`.
abbrev pub Added : Conns → ℕ → List ℕ → Option ℕ × Conns → Type 0
Added s c is (none, s') =
    IsLive s.requests (slot s.requests.last_reqs)
    × (s' ≡ record s { requests = record s.requests { last_reqs = next_id s.requests.last_reqs } })
Added s c is (some i, s') =
    IsList s' c (i ∷ is)
    × ((s'.requests.reqs i).req_id ≡ s.requests.last_reqs)
    × ((s'.requests.reqs i).conn_id ≡ pos c)
    × ((s'.requests.reqs i).target ≡ (s.conns c).target)
    × KeepsOthers s s' c is

keep_other :
    (f : ℕ → Request) (o : Option ℕ) (v : Option ℕ) (k : ℕ) → o ≢ some k → set_prev f o v k ≡ f k
keep_other f none v k e = refl
keep_other f (some i) v k e = update_ne f i k _ (λ h. e (ap some (sym h)))

cons_links :
    (f : ℕ → Request) (i : ℕ) (is : List ℕ)
    → (f i).prev ≡ none
    → (f i).next ≡ head? is
    → (f i).req_id ≢ negsuc 0
    → Links f (some i) is none
    → Links f none (i ∷ is) none
cons_links f i [] p n l ls = record { prev = p; next = n; live = l }
cons_links f i (j ∷ is) p n l ls = (record { prev = p; next = n; live = l }, ls)

-- The table after the entry `i` of `t`, that was free in `s`, is put in front of the list.
module _ (s : Conns) (c : ℕ) (is : List ℕ) (list : IsList s c is) (i : ℕ) (t : Requests)
    (free : (s.requests.reqs i).req_id ≡ negsuc 0) (live : (t.reqs i).req_id ≢ negsuc 0)
    (first : (t.reqs i).prev ≡ none) (rest : (j : ℕ) → j ≢ i → t.reqs j ≡ s.requests.reqs j) where
  abbrev new : Request
  new = record (t.reqs i) {
    conn_id = pos c;
    target = (s.conns c).target;
    next = (s.conns c).req_list;
  }

  abbrev with_new : ℕ → Request
  with_new = update t.reqs i new

  abbrev linked : ℕ → Request
  linked = set_prev with_new (s.conns c).req_list (some i)

  fresh : (k : ℕ) → (s.requests.reqs k).req_id ≢ negsuc 0 → k ≢ i
  fresh k l e = l (ap (λ x. (s.requests.reqs x).req_id) e ∙ free)

  member_ne : (k : ℕ) → k ∈ is → k ≢ i
  member_ne k m = fresh k (Links-live s.requests.reqs none none is k list.links m)

  head_ne : (k : ℕ) → k ∉ is → (s.conns c).req_list ≢ some k
  head_ne k n e = n (head-mem is k (sym list.head ∙ e))

  pub outside : (k : ℕ) → k ≢ i → k ∉ is → linked k ≡ s.requests.reqs k
  outside k ne n =
      keep_other with_new (s.conns c).req_list (some i) k (head_ne k n)
      ∙ update_ne t.reqs i k new ne
      ∙ rest k ne

  pub at_new : linked i ≡ new
  at_new =
      keep_other with_new (s.conns c).req_list (some i) i (head_ne i (λ m. member_ne i m refl))
      ∙ update_self t.reqs i new

  before : (k : ℕ) → k ∈ is → with_new k ≡ s.requests.reqs k
  before k m = update_ne t.reqs i k new (member_ne k m) ∙ rest k (member_ne k m)

  behind : Links linked (some i) is none
  behind =
      Links-start s.requests.reqs linked none (some i) is list.once
        (λ k e.
          set_prev-prev with_new (s.conns c).req_list (some i) k
          ∙ rw (same_ptr_at (s.conns c).req_list k (list.head ∙ e)) refl)
        (λ k m. (
          set_prev-next with_new (s.conns c).req_list (some i) k ∙ ap (λ x. x.next) (before k m),
          set_prev_id with_new (s.conns c).req_list (some i) k ∙ ap (λ x. x.req_id) (before k m),
        ))
        (λ k m e.
          set_prev-prev with_new (s.conns c).req_list (some i) k
          ∙ rw (same_ptr_off (s.conns c).req_list k (λ h. e (sym list.head ∙ h)))
              (ap (λ x. x.prev) (before k m)))
        list.links

  pub in_front : Links linked none (i ∷ is) none
  in_front =
      cons_links linked i is (ap (λ x. x.prev) at_new ∙ first) (ap (λ x. x.next) at_new ∙ list.head)
        (λ e. live (sym (ap (λ x. x.req_id) at_new) ∙ e)) behind

  pub others : KeepsOthers s (link_new s c (some i) t).1 c is
  others d ks ne apart l = record {
    head = ap (λ x. x.req_list) (update_ne s.conns c d _ ne) ∙ l.head;
    links =
        Links-same none none ks
          (λ k m.
            let e =
              outside k (fresh k (Links-live s.requests.reqs none none ks k l.links m))
                (λ n. apart k m n) in
            record {
              prev = ap (λ x. x.prev) e;
              next = ap (λ x. x.next) e;
              id = ap (λ x. x.req_id) e;
            })
          l.links;
    once = l.once;
  }

  pub link_new-Added :
      (t.reqs i).req_id ≡ s.requests.last_reqs → Added s c is (some i, (link_new s c (some i) t).1)
  link_new-Added named = (
    record {
      head = ap (λ x. x.req_list) (update_self s.conns c _);
      links = in_front;
      once = ((λ m. member_ne i m refl), list.once);
    },
    ap (λ x. x.req_id) at_new ∙ named,
    ap (λ x. x.conn_id) at_new,
    ap (λ x. x.target) at_new,
    others,
  )

same_ids :
    (t u : Requests) → ((k : ℕ) → (u.reqs k).req_id ≡ (t.reqs k).req_id) → IsValid t → IsValid u
same_ids t u e v k l = ap slot (e k) ∙ v k (λ h. l (e k ∙ h))

link_new-IsValid :
    (s : Conns) (c : ℕ) (r : Option ℕ) (t : Requests)
    → IsValid t
    → IsValid (link_new s c r t).1.requests
link_new-IsValid s c none t v = v
link_new-IsValid s c (some i) t v =
    let new = record (t.reqs i) {
      conn_id = pos c;
      target = (s.conns c).target;
      next = (s.conns c).req_list;
    } in
    same_ids t (link_new s c (some i) t).1.requests
      (λ k.
        set_prev_id (update t.reqs i new) (s.conns c).req_list (some i) k
        ∙ update_id t.reqs i k new refl)
      v

from_alloc :
    (s : Conns) (c : ℕ) (is : List ℕ) (r : Option ℕ) (t : Requests)
    → s.requests.last_reqs ≢ negsuc 0
    → IsList s c is
    → Allocated s.requests (r, t)
    → Added s c is (link_new s c r t)
from_alloc s c is none t ne list (taken, same) = (taken, ap (λ x. record s { requests = x }) same)
from_alloc s c is (some i) t ne list (free, named, first, found, rest) =
    link_new-Added s c is list i t free (λ e. ne (sym named ∙ e)) first rest named

-- conn_req_add() to a connection with the requests `is`, when the table is valid and its next id is
-- not -1: if the slot of that id is taken, only the id is used up. Otherwise a new request, with the
-- id, the connection and its target, is in front of `is`; a list of another connection that shares
-- no request with `is` stays. The table stays valid in both cases.
pub conn_req_add-Added :
    (s : Conns) (c : ℕ) (is : List ℕ)
    → IsValid s.requests
    → s.requests.last_reqs ≢ negsuc 0
    → IsList s c is
    → Added s c is (conn_req_add s c) × IsValid (conn_req_add s c).1.requests
unfolding conn_req_add
conn_req_add-Added s c is v ne list =
    let (r, t) = req_alloc s.requests in
    let (a, w) = req_alloc-Allocated s.requests v in
    (from_alloc s c is r t ne list a, link_new-IsValid s c r t w)
