-- ===== src/PQueue/Up.antt =====
-- up() ends, and takes a node that is too low in the heap to its place.
use distwalk_iouring.Prelude.{
  ℕ, zero, suc, ◌<◌, ◌≡◌, ◌≢◌, refl, true, false, arith, ℕ_discrete, none, some,
}
use distwalk_iouring.Prelude.Int.{ℤ, ◌≤ℤ◌, ltb_ℤ}
use distwalk_iouring.Prelude.Run.{ok, Returns, returns, Returns-map, Returns-if}
use distwalk_iouring.PQueue.{PQueue, get_parent_node, up}
use distwalk_iouring.PQueue.Keys.{
  Keys, parent, HasHole, IsBelow, IsAbove, Swapped, up-HasHole, up-IsBelow,
}
use distwalk_iouring.PQueue.Links.{
  IsLinked, keys, SameNodes, SameNodes-refl, SameNodes-trans, node_at-ok, exchanged, exchanged-left,
  swap_node-ok, exchanged-IsLinked, exchanged-Swapped, exchanged-SameNodes,
}

pub Swapped-sym : {k k' : Keys} {i j : ℕ} → Swapped k k' i j → Swapped k k' j i
Swapped-sym s = record { at_i = s.at_j; at_j = s.at_i; else_where = λ c a b. s.else_where c b a }

module _ {q : PQueue} (l : IsLinked q) (i : ℕ) (h : i < q.size) where
  parent-root : i ≡ 0 → get_parent_node q (q.heap i) ≡ ok none
  unfolding get_parent_node
  parent-root e = ground (arith, l.inside i h, l.place i h)

  parent-inner : i ≢ 0 → get_parent_node q (q.heap i) ≡ ok (some (q.heap (parent i)))
  unfolding get_parent_node
  parent-inner e = ground (arith, l.inside i h, l.place i h, node_at-ok l (parent i) (omega arith))

-- What up() makes of the heap `q` with the node `n` at place `i`.
pub record Raised (q : PQueue) (n i : ℕ) (r : PQueue) : Type 0 where
  pub linked : IsLinked r
  pub same : SameNodes q r
  pub to : ℕ
  pub inside : to < r.size
  pub here : r.heap to ≡ n
  pub hole : HasHole (keys r) r.size to
  pub above : IsAbove (keys r) to
  pub below : IsBelow (keys q) q.size i → IsBelow (keys r) r.size to

pub not_less : (a b : ℤ) → ltb_ℤ a b ≡ false → b ≤ℤ a
not_less a b h = ground arith

pub less : (a b : ℤ) → ltb_ℤ a b ≡ true → a ≤ℤ b
less a b h = ground arith

pub up-Returns :
    (fuel : ℕ) (q : PQueue) (i : ℕ)
    → i < fuel
    → IsLinked q
    → i < q.size
    → HasHole (keys q) q.size i
    → Returns (Raised q (q.heap i) i) (up fuel q (q.heap i))
unfolding up
up-Returns zero q i f l h o = absurd (omega arith)
up-Returns (suc fuel) q i f l h o = elim (ℕ_discrete i 0) [
  | yes e ↦ rw (parent-root l i h e) (
      returns (record {
        linked = l;
        same = SameNodes-refl q;
        to = i;
        inside = h;
        here = refl;
        hole = o;
        above = λ p. absurd (omega arith);
        below = λ b. b;
      }))
  | no ne ↦ rw (parent-inner l i h ne) (
      Returns-if (ltb_ℤ (keys q i) (keys q (parent i)))
        (λ e.
          let p : parent i < q.size = omega arith in
          let pos : 0 < i = omega arith in
          let apart : parent i ≢ i = omega arith in
          let s = Swapped-sym (exchanged-Swapped l (parent i) i p h apart) in
          let q' = exchanged q (parent i) i in
          let rest =
            up-Returns fuel q' (parent i) (omega arith)
              (exchanged-IsLinked l (parent i) i p h apart) p
              (up-HasHole o h pos (less (keys q i) (keys q (parent i)) e) s) in
          let here = exchanged-left l (parent i) i p h apart in
          rw (swap_node-ok l (parent i) i p h apart) (
            Returns-map (rw here at rest) λ r x. record {
              linked = x.linked;
              same = SameNodes-trans (exchanged-SameNodes l (parent i) i p h apart) x.same;
              to = x.to;
              inside = x.inside;
              here = x.here;
              hole = x.hole;
              above = x.above;
              below = λ _. x.below (up-IsBelow o h pos (less (keys q i) (keys q (parent i)) e) s);
            }))
        (λ e. returns (record {
          linked = l;
          same = SameNodes-refl q;
          to = i;
          inside = h;
          here = refl;
          hole = o;
          above = λ p. not_less (keys q i) (keys q (parent i)) e;
          below = λ b. b;
        })))
]
