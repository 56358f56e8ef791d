-- ===== src/Conns/Whole.antt =====
-- conn_req_remove(), from the message in the buffer to the list of the connection.
use distwalk_iouring.Prelude.{
  ℕ, suc, ◌+◌, ◌<◌, ◌≡◌, ◌≢◌, refl, ap, ◌∙◌, ◌⊎◌, inl, inr, Bool, true, false, ◌&&◌, Option, none,
  some, List, [], ◌∷◌, ◌++◌, arith, length-append, ltb, lt→ltb, if◌then◌else◌,
}
use distwalk_iouring.Prelude.Tables.{update_self}
use distwalk_iouring.Prelude.Run.{Returns, returns, Returns-bind, Returns-if}
use distwalk_iouring.Memory.{read_u8}
use distwalk_iouring.Connection.{buf_size}
use distwalk_iouring.Connection.Receive.{IsReceiving}
use distwalk_iouring.Request.{max_reqs}
use distwalk_iouring.Request.Table.{IsValid}
use distwalk_iouring.Request.Unlink.{field_after}
use distwalk_iouring.Conns.{
  Conns, defragment, defragment_at, drop_request, same_ptr, conn_req_remove,
}
use distwalk_iouring.Conns.Chain.{Links-append, Links-first, Links-same, IsList}
use distwalk_iouring.Conns.Members.{head?, last_or, ◌∈◌, ◌∉◌, IsOnce-append, IsOnce-take, mem_eq}
use distwalk_iouring.Conns.Remove.{KeepsOthers, drop_request-IsList}
use distwalk_iouring.Conns.Count.{requests_bound}
use distwalk_iouring.Conns.Cut.{cut_message-Cut}
use distwalk_iouring.Conns.Shift.{
  Backs, Links-Backs, shift_prev-Shifted, rev_onto, rev_onto-mem, IsOnce-rev_onto, length-rev_onto,
}
use distwalk_iouring.Conns.Defrag.{Messages, SameMessage, Defragged, weaken_request, unmoved, moved}

and_cases : (a b : Bool) → (a && b) ≡ false → b ≡ true → a ≡ false
and_cases true b e t = cc
and_cases false b e t = refl

and_left : (a b : Bool) → (a && b) ≡ true → a ≡ true
and_left true b e = refl
and_left false b e = cc

defragment-Defragged :
    (s : Conns) (c : ℕ) (is : List ℕ) (r : ℕ) (js : List ℕ) (m n : ℕ)
    → IsValid s.requests
    → IsList s c (is ++ r ∷ js)
    → Messages s c is r m n
    → Returns (Defragged s c is m n) (defragment s c r)
unfolding defragment defragment_at
defragment-Defragged s c is r js m n v l h =
    let reqs = s.requests.reqs in
    let (left, right) = Links-append reqs none none is r js l.links in
    let behind = (Links-first reqs (last_or none is) r js right).prev in
    let count = requests_bound s c (is ++ r ∷ js) v l in
    let size = length-append is (r ∷ js) in
    let size' = length-rev_onto is [] in
    let backs : Backs reqs (reqs r).prev (rev_onto is []) =
      rw behind (Links-Backs reqs none (some r) [] is refl left) in
    let once =
      IsOnce-rev_onto is [] (IsOnce-take is js (IsOnce-append is r js l.once).3) tt (λ k a b. b) in
    let inside : m < buf_size =
      omega (arith, h.header, h.handed, h.valid.handed, h.valid.accounted) in
    rw (h.here, h.size)
      (Returns-if ((s.conns c).enable_defrag && ltb m buf_size)
        (λ y. Returns-bind (cut_message-Cut (s.conns c) m n h.valid h.handed) λ conn' cut.
          Returns-bind
            (shift_prev-Shifted (suc max_reqs) reqs (reqs r).prev (rev_onto is []) n (omega arith)
              once backs
              (λ k mk.
                weaken_request m n (reqs k) (h.newer k (in_list k (rev_onto-mem is [] k mk)))))
            λ f sh. returns (moved s c is r m n h conn' cut f sh (and_left _ _ y)))
        (λ e. returns (unmoved s c is r m n h (and_cases _ _ e (lt→ltb m buf_size inside)))))
  where
    in_list : (k : ℕ) → (k ∈ is) ⊎ (k ∈ []) → k ∈ is
    in_list k (inl a) = a
    in_list k (inr b) = absurd b

-- What conn_req_remove() of the request `r` leaves: the request that came behind it, and a list, a
-- buffer and messages without it.
pub record Removed (s : Conns) (c : ℕ) (is : List ℕ) (r : ℕ) (js : List ℕ) (m n : ℕ)
    (o : Option ℕ × Conns) : Type 0 where
  pub next : o.0 ≡ head? js
  pub list : IsList o.1 c (is ++ js)
  pub valid : IsReceiving (o.1.conns c)
  pub room :
      (o.1.conns c).curr_recv_buf + (if (s.conns c).enable_defrag then n else 0)
      ≡ (s.conns c).curr_recv_buf
  pub newer : (k : ℕ) → k ∈ is → SameMessage s o.1 c k
  pub older :
      (k : ℕ) → k ∉ is → k ≢ r → (o.1.requests.reqs k).message_ptr ≡ (s.requests.reqs k).message_ptr
  pub below : (i : ℕ) → i < m → read_u8 (o.1.conns c).recv_buf i ≡ read_u8 (s.conns c).recv_buf i
  pub others : KeepsOthers s o.1 c (is ++ r ∷ js)

-- The part of the state that drop_request() leaves alone.
module _ (s : Conns) (c r : ℕ) where
  abbrev dropped : Conns
  dropped = (drop_request s c r).1

  dropped_conn : (o : Option ℕ) × (dropped.conns c ≡ record (s.conns c) { req_list = o })
  unfolding drop_request
  dropped_conn =
      let conn = s.conns c in
      let o = if same_ptr conn.req_list r then (s.requests.reqs r).next else conn.req_list in
      (o, update_self s.conns c (record conn { req_list = o }))

  dropped_bytes : (dropped.conns c).recv_buf ≡ (s.conns c).recv_buf
  dropped_bytes = let (o, e) = dropped_conn in ap (λ g. g.recv_buf) e

  dropped_end : (dropped.conns c).curr_recv_buf ≡ (s.conns c).curr_recv_buf
  dropped_end = let (o, e) = dropped_conn in ap (λ g. g.curr_recv_buf) e

  dropped-IsReceiving : IsReceiving (s.conns c) → IsReceiving (dropped.conns c)
  dropped-IsReceiving v =
      let (o, e) = dropped_conn in
      rw e (record { memory = v.memory; accounted = v.accounted; handed = v.handed })

  dropped_message :
      (k : ℕ) → k ≢ r → (dropped.requests.reqs k).message_ptr ≡ (s.requests.reqs k).message_ptr
  unfolding drop_request
  dropped_message = field_after (λ q. q.message_ptr) (λ q v. refl) (λ q v. refl) s.requests r

Defragged-IsList :
    {s : Conns} {c : ℕ} {is : List ℕ} {m n : ℕ} {s1 : Conns} (ks : List ℕ)
    → Defragged s c is m n s1
    → (d : ℕ) → (s1.conns d).req_list ≡ (s.conns d).req_list
    → IsList s d ks
    → IsList s1 d ks
Defragged-IsList ks g d e l = record {
  head = e ∙ l.head;
  links = Links-same none none ks (λ k mk. g.links k) l.links;
  once = l.once;
}

Removed-of :
    (s : Conns) (c : ℕ) (is : List ℕ) (r : ℕ) (js : List ℕ) (m n : ℕ) (s1 : Conns)
    → IsList s c (is ++ r ∷ js)
    → Defragged s c is m n s1
    → Removed s c is r js m n (drop_request s1 c r)
Removed-of s c is r js m n s1 l g =
    let (list, next, keeps) =
      drop_request-IsList s1 c is r js (Defragged-IsList (is ++ r ∷ js) g c g.list l) in
    let out = (IsOnce-append is r js l.once).0 in
    record {
      next = next;
      list = list;
      valid = dropped-IsReceiving s1 c r g.valid;
      room = rw (dropped_end s1 c r) g.room;
      newer = λ k mk p e.
          let (q, eq, same) = g.newer k mk p e in
          (
            q,
            dropped_message s1 c r k (λ h. out (mem_eq is h mk)) ∙ eq,
            λ x b. ap (λ z. read_u8 z (q + x)) (dropped_bytes s1 c r) ∙ same x b,
          );
      older = λ k o ne. dropped_message s1 c r k ne ∙ ap (λ q. q.message_ptr) (g.rest k o);
      below = λ i b. ap (λ z. read_u8 z i) (dropped_bytes s1 c r) ∙ g.below i b;
      others = λ d ks ne apart lk.
          keeps d ks ne apart (Defragged-IsList ks g d (ap (λ z. z.req_list) (g.others d ne)) lk);
    }

-- conn_req_remove() of a request in the list of its connection, whose message has been handed out,
-- with the messages of the requests that came later behind it, ends without an access outside the
-- buffer, with defragmentation or not. The request has left the list and no other has, in this list
-- or in one that shares no request with it; the buffer is valid, shorter by the message when it
-- defragments; and the message of every other request of the list is still there with its bytes.
pub conn_req_remove-Removed :
    (s : Conns) (c : ℕ) (is : List ℕ) (r : ℕ) (js : List ℕ) (m n : ℕ)
    → IsValid s.requests
    → IsList s c (is ++ r ∷ js)
    → Messages s c is r m n
    → Returns (Removed s c is r js m n) (conn_req_remove s c r)
unfolding conn_req_remove
conn_req_remove-Removed s c is r js m n v l h =
    Returns-bind (defragment-Defragged s c is r js m n v l h)
      λ s1 g. returns (Removed-of s c is r js m n s1 l g)
