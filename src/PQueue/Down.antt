-- ===== src/PQueue/Down.antt =====
-- down() ends, and takes a node that is too high in the heap to its place.
use distwalk_iouring.Prelude.{
  ℕ, zero, suc, ◌+◌, ◌*◌, ◌≤◌, ◌<◌, ◌≡◌, ◌≢◌, ◌⊎◌, inl, inr, refl, false, arith, leb, if◌then◌else◌,
  Option, none, some, leb→le,
}
use distwalk_iouring.Prelude.Int.{◌≤ℤ◌, ltb_ℤ}
use distwalk_iouring.Prelude.Run.{
  ok, ◌>>=◌, Returns, returns, Returns-map, Returns-if, Returns-choice, Returns-unless_null,
}
use distwalk_iouring.PQueue.{PQueue, get_child_node, swap_node, down}
use distwalk_iouring.PQueue.Keys.{
  parent, HasHole, IsBelow, IsAbove, IsHeap, IsHeap-hole, down-HasHole, down-IsAbove,
}
use distwalk_iouring.PQueue.Up.{less, not_less}
use distwalk_iouring.PQueue.Links.{
  IsLinked, keys, SameNodes, SameNodes-refl, SameNodes-trans, bounded-ok, node_at-ok, exchanged,
  exchanged-left, swap_node-ok, exchanged-IsLinked, exchanged-Swapped, exchanged-SameNodes,
}

-- What get_child_node() finds for the node at place `i`: the place of a child with the least key.
pub data Child (q : PQueue) (i : ℕ) : Option ℕ → Type 0 where
  leaf : q.size ≤ 2 * i + 1 → Child q i none
  least :
      (m : ℕ)
      → m < q.size
      → (m ≡ 2 * i + 1) ⊎ (m ≡ 2 * i + 2)
      → ((c : ℕ) → 0 < c → c < q.size → parent c ≡ i → keys q m ≤ℤ keys q c)
      → Child q i (some (q.heap m))

not_leb : (a b : ℕ) → leb a b ≡ false → b < a
not_leb a b h = ground arith

module _ {q : PQueue} (l : IsLinked q) (i : ℕ) (h : i < q.size) where
  children : (c : ℕ) → 0 < c → parent c ≡ i → (c ≡ 2 * i + 1) ⊎ (c ≡ 2 * i + 2)
  children c p e = omega arith

  get_child_node-Returns : Returns (Child q i) (get_child_node q (q.heap i))
  unfolding get_child_node
  get_child_node-Returns =
      let first = 2 * i + 1 in
      let second = 2 * i + 2 in
      rw (bounded-ok l i h, l.place i h)
        (Returns-if (leb q.size first) (λ e. returns (leaf (leb→le _ _ e)))
          λ e.
            let p1 : first < q.size = not_leb _ _ e in
            rw (node_at-ok l first p1) (
              Returns-if (leb q.size second)
                (λ e'. returns (
                  least first p1 (inl refl) λ c p r k. elim (children c p k) [
                    | inl at ↦ rw at (omega arith)
                    | inr at ↦ absurd (omega (arith, leb→le _ _ e'))
                  ]))
                λ e'.
                  let p2 : second < q.size = not_leb _ _ e' in
                  rw (node_at-ok l second p2) (
                    Returns-choice (ltb_ℤ (keys q first) (keys q second)) _ _
                      (λ b. least first p1 (inl refl) λ c p r k. elim (children c p k) [
                        | inl at ↦ rw at (omega arith)
                        | inr at ↦ rw at (less (keys q first) (keys q second) b)
                      ])
                      (λ b. least second p2 (inr refl) λ c p r k. elim (children c p k) [
                        | inl at ↦ rw at (not_less (keys q first) (keys q second) b)
                        | inr at ↦ rw at (omega arith)
                      ]))))

-- What down() makes of the heap `q` with a node at place `i`.
pub record Lowered (q : PQueue) (r : PQueue) : Type 0 where
  pub linked : IsLinked r
  pub same : SameNodes q r
  pub heap : IsHeap (keys r) r.size

pub down-Returns :
    (fuel : ℕ) (q : PQueue) (i : ℕ)
    → q.size ≤ fuel + i
    → IsLinked q
    → i < q.size
    → HasHole (keys q) q.size i
    → IsAbove (keys q) i
    → Returns (Lowered q) (down fuel q (q.heap i))
unfolding down
down-Returns zero q i f l h o a = absurd (omega arith)
down-Returns (suc fuel) q i f l h o a =
    Returns-unless_null (get_child_node-Returns l i h) at_leaf (at_child (down-Returns fuel))
  where
    done : IsBelow (keys q) q.size i → Returns (Lowered q) (ok q)
    done b = returns (record { linked = l; same = SameNodes-refl q; heap = IsHeap-hole o b a })

    at_leaf : Child q i none → Returns (Lowered q) (ok q)
    at_leaf (leaf none_below) = done λ c p r k. absurd (omega arith)

    at_child :
        ((p : PQueue) (j : ℕ)
          → p.size ≤ fuel + j
          → IsLinked p
          → j < p.size
          → HasHole (keys p) p.size j
          → IsAbove (keys p) j
          → Returns (Lowered p) (down fuel p (p.heap j)))
        → (n : ℕ) → Child q i (some n)
        → Returns (Lowered q) (
            if ltb_ℤ (q.nodes n).key (q.nodes (q.heap i)).key
            then swap_node q n (q.heap i) >>= (λ q'. down fuel q' (q.heap i))
            else ok q)
    at_child again n (least m inside child below) =
        Returns-if (ltb_ℤ (keys q m) (keys q i))
          (λ e.
            let apart : m ≢ i = omega arith in
            let up_edge : parent m ≡ i = omega arith in
            let s = exchanged-Swapped l m i inside h apart in
            let lower = less (keys q m) (keys q i) e in
            let rest =
              again (exchanged q m i) m (omega arith) (exchanged-IsLinked l m i inside h apart)
                inside (down-HasHole o (omega arith) up_edge inside below lower s)
                (down-IsAbove o (omega arith) up_edge inside below lower s) in
            rw (swap_node-ok l m i inside h apart) (
              Returns-map (rw (exchanged-left l m i inside h apart) at rest) λ r x. record {
                linked = x.linked;
                same = SameNodes-trans (exchanged-SameNodes l m i inside h apart) x.same;
                heap = x.heap;
              }))
          (λ e. done λ c p r k. omega (arith, below c p r k, not_less (keys q m) (keys q i) e))
