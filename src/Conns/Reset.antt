-- ===== src/Conns/Reset.antt =====
-- conn_reset(): every request of the connection leaves the table.
use distwalk_iouring.Prelude.{
  ℕ, zero, suc, ◌<◌, ◌≡◌, refl, ◌∙◌, inl, inr, none, List, [], ◌∷◌, arith, length,
}
use distwalk_iouring.Prelude.Int.{negsuc}
use distwalk_iouring.Prelude.Run.{Returns, returns, Returns-map, Returns-bind}
use distwalk_iouring.Request.{Requests, max_reqs, req_unlink}
use distwalk_iouring.Request.Table.{IsValid}
use distwalk_iouring.Request.Unlink.{req_unlink-freed, followed}
use distwalk_iouring.Conns.{Conns, unlink_all, conn_reset}
use distwalk_iouring.Conns.Chain.{Links, SameLink, Links-same, Links-first, IsList}
use distwalk_iouring.Conns.Members.{head?, ◌∈◌, ◌∉◌, IsOnce, Disjoint}
use distwalk_iouring.Conns.Remove.{joined, elsewhere}
use distwalk_iouring.Conns.Count.{requests_bound}

-- The requests `is` are out of the table, and the others as they were.
pub record Freed (t : Requests) (is : List ℕ) (t' : Requests) : Type 0 where
  pub freed : (k : ℕ) → k ∈ is → (t'.reqs k).req_id ≡ negsuc 0
  pub same : (k : ℕ) → k ∉ is → SameLink t.reqs t'.reqs k
  pub valid : IsValid t'

Freed-next :
    (t : Requests) (i : ℕ) (is : List ℕ) (t' : Requests)
    → IsValid t
    → Links t.reqs none (i ∷ is) none
    → IsOnce (i ∷ is)
    → Freed (req_unlink t i).1 is t'
    → Freed t (i ∷ is) t'
Freed-next t i is t' v l (o, os) f = record { freed = freed; same = same; valid = f.valid }
  where
    freed : (k : ℕ) → k ∈ (i ∷ is) → (t'.reqs k).req_id ≡ negsuc 0
    freed k (inl e) = rw e ((f.same i o).id ∙ (req_unlink-freed t i v).0)
    freed k (inr m) = f.freed k m

    same : (k : ℕ) → k ∉ (i ∷ is) → SameLink t.reqs t'.reqs k
    same k n =
        let a = f.same k (λ m. n (inr m)) in
        let b = elsewhere t [] i is l (o, os) k (λ m. m) (λ m. n (inr m)) (λ e. n (inl e)) in
        record { prev = a.prev ∙ b.prev; next = a.next ∙ b.next; id = a.id ∙ b.id }

unlink_all-Freed :
    (fuel : ℕ) (t : Requests) (is : List ℕ)
    → length is < fuel
    → IsValid t
    → Links t.reqs none is none
    → IsOnce is
    → Returns (Freed t is) (unlink_all fuel t (head? is))
unfolding unlink_all
unlink_all-Freed zero t is h v l o = absurd (omega arith)
unlink_all-Freed (suc fuel) t [] h v l o = returns (record {
  freed = λ k m. absurd m;
  same = λ k n. record { prev = refl; next = refl; id = refl };
  valid = v;
})
unlink_all-Freed (suc fuel) t (i ∷ is) h v l o =
    let next : (req_unlink t i).0 ≡ head? is =
      followed t i ∙ (Links-first t.reqs none i is l).next in
    let after = joined t [] i is l o in
    let valid = (req_unlink-freed t i v).2 in
    rw next (
      Returns-map (unlink_all-Freed fuel (req_unlink t i).1 is (omega arith) valid after o.1)
        (λ t' f. Freed-next t i is t' v l o f))

-- conn_reset() of a connection with the requests `is`, on a valid table, ends. It takes every one of
-- them out of the table, which stays valid, keeps the links and ids of all others, and a list of
-- another connection that shares none of them; and it changes no connection, so that the head of
-- the list still names the first of the requests that are gone.
pub conn_reset-Freed :
    (s : Conns) (c : ℕ) (is : List ℕ)
    → IsValid s.requests
    → IsList s c is
    → Returns
        (λ s'.
          (s'.conns ≡ s.conns)
          × Freed s.requests is s'.requests
          × ((d : ℕ) (ks : List ℕ) → Disjoint ks is → IsList s d ks → IsList s' d ks))
        (conn_reset s c)
unfolding conn_reset
conn_reset-Freed s c is v l =
    let bound = requests_bound s c is v l in
    let all : Returns (Freed s.requests is)
        (unlink_all (suc max_reqs) s.requests (s.conns c).req_list) =
      rw l.head (unlink_all-Freed (suc max_reqs) s.requests is (omega arith) v l.links l.once) in
    Returns-bind all (λ t f. returns (refl, f, λ d ks apart k. kept t f ks d apart k))
  where
    kept :
        (t : Requests)
        → Freed s.requests is t
        → (ks : List ℕ) (d : ℕ) → Disjoint ks is
        → IsList s d ks
        → IsList (record s { requests = t }) d ks
    kept t f ks d apart k = record {
      head = k.head;
      links = Links-same none none ks (λ i m. f.same i (λ n. apart i m n)) k.links;
      once = k.once;
    }
