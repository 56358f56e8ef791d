-- ===== src/Conns/Remove.antt =====
-- conn_req_remove() and req_unlink(): the request leaves the list of its connection, and no other.
use distwalk_iouring.Prelude.{
  ℕ, ◌≡◌, ◌≢◌, refl, sym, ap, ◌∙◌, inl, Option, none, some, List, [], ◌∷◌, ◌++◌, if◌then◌else◌,
}
use distwalk_iouring.Prelude.Tables.{update_self, update_ne}
use distwalk_iouring.Request.{Request, Requests, req_unlink}
use distwalk_iouring.Request.Unlink.{id_after, followed}
use distwalk_iouring.Conns.{Conns, same_ptr, drop_request}
use distwalk_iouring.Conns.Chain.{
  Link, Links, SameLink, Links-same, Links-append, Links-first, Links-rest, Links-start, Links-join,
  Links-end, IsList,
}
use distwalk_iouring.Conns.Members.{
  head?, last_or, ◌∈◌, ◌∉◌, IsOnce, Disjoint, IsOnce-append, IsOnce-take, IsOnce-drop, last-mem,
  some_injective, mem_eq, mem_middle, mem_of_left, mem_of_right,
}
use distwalk_iouring.Conns.Drop.{same_ptr_at, same_ptr_off, unlink-prev, unlink-next}

pub head-mem : (is : List ℕ) (i : ℕ) → head? is ≡ some i → i ∈ is
head-mem [] i e = cc
head-mem (j ∷ is) i e = inl (sym (some_injective e))

pub last_or-mem : (is : List ℕ) (i : ℕ) → last_or none is ≡ some i → i ∈ is
last_or-mem [] i e = cc
last_or-mem (j ∷ is) i e =
    let (k, ek, m) = last-mem none j is in mem_eq (j ∷ is) (some_injective (sym ek ∙ e)) m

module _ (t : Requests) (is : List ℕ) (r : ℕ) (js : List ℕ)
    (links : Links t.reqs none (is ++ r ∷ js) none) (once : IsOnce (is ++ r ∷ js)) where
  abbrev after : ℕ → Request
  after = (req_unlink t r).1.reqs

  link : Link t.reqs (last_or none is) r (head? js)
  link = Links-first t.reqs (last_or none is) r js (Links-append t.reqs none none is r js links).1

  at_next : (k : ℕ) → k ≢ r → head? js ≡ some k → (after k).prev ≡ last_or none is
  at_next k ne e =
      unlink-prev t r k ne ∙ rw (same_ptr_at (t.reqs r).next k (link.next ∙ e)) link.prev

  off_next : (k : ℕ) → k ≢ r → head? js ≢ some k → (after k).prev ≡ (t.reqs k).prev
  off_next k ne e =
      unlink-prev t r k ne ∙ rw (same_ptr_off (t.reqs r).next k (λ h. e (sym link.next ∙ h))) refl

  at_prev : (k : ℕ) → k ≢ r → last_or none is ≡ some k → (after k).next ≡ head? js
  at_prev k ne e =
      unlink-next t r k ne ∙ rw (same_ptr_at (t.reqs r).prev k (link.prev ∙ e)) link.next

  off_prev : (k : ℕ) → k ≢ r → last_or none is ≢ some k → (after k).next ≡ (t.reqs k).next
  off_prev k ne e =
      unlink-next t r k ne ∙ rw (same_ptr_off (t.reqs r).prev k (λ h. e (sym link.prev ∙ h))) refl

  left_ne : (k : ℕ) → k ∈ is → k ≢ r
  left_ne k m e = (IsOnce-append is r js once).0 (mem_eq is e m)

  right_ne : (k : ℕ) → k ∈ js → k ≢ r
  right_ne k m e = (IsOnce-append is r js once).1 (mem_eq js e m)

  apart : Disjoint is js
  apart = (IsOnce-append is r js once).2

  left : Links after none is (head? js)
  left =
      Links-end t.reqs after none (some r) (head? js) is
        (IsOnce-take is js (IsOnce-append is r js once).3)
        (λ k m. (
          off_next k (left_ne k m) (λ e. apart k m (head-mem js k e)),
          id_after t r k (left_ne k m),
        ))
        (λ k m e. at_prev k (left_ne k m) e) (λ k m e. off_prev k (left_ne k m) e)
        (Links-append t.reqs none none is r js links).0

  right : Links after (last_or none is) js none
  right =
      Links-start t.reqs after (some r) (last_or none is) js
        (IsOnce-drop is js (IsOnce-append is r js once).3)
        (λ k e. at_next k (right_ne k (head-mem js k e)) e)
        (λ k m. (
          off_prev k (right_ne k m) (λ e. apart k (last_or-mem is k e) m),
          id_after t r k (right_ne k m),
        ))
        (λ k m e. off_next k (right_ne k m) e)
        (Links-rest t.reqs (last_or none is) r js (Links-append t.reqs none none is r js links).1)

  pub joined : Links after none (is ++ js) none
  joined = Links-join after none is js left right

  pub elsewhere : (k : ℕ) → k ∉ is → k ∉ js → k ≢ r → SameLink t.reqs after k
  elsewhere k ni nj ne = record {
    prev = off_next k ne (λ e. nj (head-mem js k e));
    next = off_prev k ne (λ e. ni (last_or-mem is k e));
    id = id_after t r k ne;
  }

-- The head of the list, when the request at it leaves.
new_head :
    (h : Option ℕ) (is : List ℕ) (r : ℕ) (js : List ℕ)
    → h ≡ head? (is ++ r ∷ js)
    → r ∉ is
    → (if same_ptr h r then head? js else h) ≡ head? (is ++ js)
new_head h [] r js e o = rw (same_ptr_at h r e) refl
new_head h (i ∷ is) r js e o = rw (same_ptr_off h r (λ k. o (inl (some_injective (sym k ∙ e))))) e

-- The lists of the other connections, as far as they share no request with `is`, are as they were.
abbrev pub KeepsOthers : Conns → Conns → ℕ → List ℕ → Type 0
KeepsOthers s s' c is =
    (d : ℕ) (ks : List ℕ) → d ≢ c → Disjoint ks is → IsList s d ks → IsList s' d ks

-- A request in the list of a connection, when conn_req_remove() takes it out: the list of the
-- connection holds the other requests, in order, what is returned is the request that came behind
-- it, and a list of another connection that shares no request with it stays.
pub drop_request-IsList :
    (s : Conns) (c : ℕ) (is : List ℕ) (r : ℕ) (js : List ℕ)
    → IsList s c (is ++ r ∷ js)
    → IsList (drop_request s c r).1 c (is ++ js)
      × ((drop_request s c r).0 ≡ head? js)
      × KeepsOthers s (drop_request s c r).1 c (is ++ r ∷ js)
unfolding drop_request
drop_request-IsList s c is r js l =
    let next : (s.requests.reqs r).next ≡ head? js =
      (link s.requests is r js l.links l.once).next in
    let conn = s.conns c in
    let h = if same_ptr conn.req_list r then (s.requests.reqs r).next else conn.req_list in
    let at = update_self s.conns c (record conn { req_list = h }) in
    let parts = IsOnce-append is r js l.once in
    (
      record {
        head = ap (λ x. x.req_list) at ∙ rw next (new_head conn.req_list is r js l.head parts.0);
        links = joined s.requests is r js l.links l.once;
        once = parts.3;
      },
      followed s.requests r ∙ next,
      λ d ks ne apart lk. record {
        head =
            ap (λ x. x.req_list) (update_ne s.conns c d (record conn { req_list = h }) ne)
            ∙ lk.head;
        links =
            Links-same none none ks
              (λ k m.
                elsewhere s.requests is r js l.links l.once k
                  (λ i. apart k m (mem_of_left is r js k i))
                  (λ i. apart k m (mem_of_right is r js k i))
                  (λ e. apart k m (mem_eq (is ++ r ∷ js) (sym e) (mem_middle is r js))))
              lk.links;
        once = lk.once;
      },
    )
