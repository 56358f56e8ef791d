-- ===== src/PQueue/Remove.antt =====
-- pqueue_remove(), pqueue_top() and pqueue_pop().
use distwalk_iouring.Prelude.{
  ℕ, suc, ◌+◌, ◌-◌, ◌≤◌, ◌<◌, ◌≡◌, ◌≢◌, refl, ap, arith, ℕ_discrete, Option, none, some, false,
}
use distwalk_iouring.Prelude.Int.{◌≤ℤ◌, ltb_ℤ}
use distwalk_iouring.Prelude.Run.{ok, ◌>>=◌, Returns, returns, Returns-bind, Returns-map}
use distwalk_iouring.PQueue.{
  PQueue, get_parent_node, get_child_node, up, down, pqueue_top, pqueue_remove, pqueue_pop,
}
use distwalk_iouring.PQueue.Keys.{parent, root_least}
use distwalk_iouring.PQueue.Links.{
  IsLinked, keys, IsIn, SameNodes-refl, SameNodes-trans, node_at-ok,
}
use distwalk_iouring.PQueue.Up.{up-Returns}
use distwalk_iouring.PQueue.Down.{Lowered, down-Returns}
use distwalk_iouring.PQueue.Insert.{IsValid}
use distwalk_iouring.PQueue.TakeOut.{
  Removed, last, last_in, keys-out, out, take_out-eq, out-IsLinked, out_key, out-Removed,
  out-HasHole, out-IsHeap,
}

module _ (q : PQueue) (n s : ℕ) (v : IsValid q) (i : IsIn q n) (es : q.size ≡ suc s) where
  abbrev o : PQueue
  o = out q n s v i es

  abbrev moved : ℕ
  moved = last q n s v i es

  module _ (at_end : (q.nodes n).heap_id ≡ s) where
    linked : IsLinked o
    linked = out-IsLinked q n s v i es

    moved_in : moved < o.capacity
    moved_in = last_in q n s v i es

    moved_place : (o.nodes moved).heap_id ≡ s
    moved_place = ground arith

    no_parent : s ≡ 0 → get_parent_node o moved ≡ ok none
    unfolding get_parent_node
    no_parent e = ground (arith, moved_in, moved_place)

    a_parent : s ≢ 0 → get_parent_node o moved ≡ ok (some (o.heap (parent s)))
    unfolding get_parent_node
    a_parent e = ground (arith, moved_in, moved_place, node_at-ok linked (parent s) (omega arith))

    no_child : get_child_node o moved ≡ ok none
    unfolding get_child_node
    no_child = ground (arith, moved_in, moved_place)

    -- The heap order of `q` between the last node and its parent.
    in_order : s ≢ 0 → ltb_ℤ (o.nodes moved).key (keys o (parent s)) ≡ false
    in_order e =
        let edge = v.heap s (omega arith) (omega arith) in
        rw (out_key q n s v i es moved, keys-out q n s v i es (parent s) (omega arith))
          (ground (arith, edge))

    -- The node that leaves is the last one: up() and down() move nothing.
    up-still : (fuel : ℕ) → up (suc fuel) o moved ≡ ok o
    unfolding up
    up-still fuel = elim (ℕ_discrete s 0) [
      | yes e ↦ rw (no_parent e)
      | no ne ↦ rw (a_parent ne, in_order ne)
    ]

    down-still : (fuel : ℕ) → down (suc fuel) o moved ≡ ok o
    unfolding down
    down-still fuel = rw no_child

    end-Removed : Removed q n o
    end-Removed =
        out-Removed q n s v i es linked (SameNodes-refl o) (out-IsHeap q n s v i es at_end)

  sunk-Removed : {r : PQueue} → Lowered o r → Removed q n r
  sunk-Removed x = out-Removed q n s v i es x.linked x.same x.heap

  sift-Removed :
      (fuel : ℕ)
      → q.size ≤ fuel
      → Returns (Removed q n) (up (suc fuel) o moved >>= λ r. down (suc fuel) r moved)
  sift-Removed fuel f = elim (ℕ_discrete (q.nodes n).heap_id s) [
    | yes e ↦ rw (up-still e fuel, down-still e fuel) (returns (end-Removed e))
    | no ne ↦
        let lt : (q.nodes n).heap_id < s = omega (arith, i.at) in
        let here : o.heap (q.nodes n).heap_id ≡ moved = ground arith in
        let rise =
          up-Returns (suc fuel) o (q.nodes n).heap_id (omega arith) (out-IsLinked q n s v i es) lt
            (out-HasHole q n s v i es lt) in
        Returns-bind (rw here at rise) λ r x.
          let sink =
            down-Returns (suc fuel) r x.to (omega (arith, x.same.size)) x.linked x.inside x.hole
              x.above in
          Returns-map (rw x.here at sink)
            λ t y. out-Removed q n s v i es y.linked (SameNodes-trans x.same y.same) y.heap
  ]

-- pqueue_remove() of a node of a valid queue ends without an access outside the arrays. That node
-- leaves the heap; every other stays, with its key and datum; the queue stays valid.
pub pqueue_remove-Removed :
    {q : PQueue} (n : ℕ) → IsValid q → IsIn q n → Returns (Removed q n) (pqueue_remove q n)
unfolding pqueue_remove
pqueue_remove-Removed {q} n v i =
    let es : q.size ≡ suc (q.size - 1) = omega (arith, i.at) in
    let e : q.size + 1 ≡ suc q.size = omega arith in
    rw (take_out-eq q n (q.size - 1) v i es, e)
      (sift-Removed q n (q.size - 1) v i es q.size (omega arith))

pub top-eq : {q : PQueue} → IsLinked q → 0 < q.size → pqueue_top q ≡ ok (some (q.heap 0))
unfolding pqueue_top
top-eq l h = ground (arith, node_at-ok l 0 h)

pub top-IsIn : {q : PQueue} → IsLinked q → 0 < q.size → IsIn q (q.heap 0)
top-IsIn {q} l h = record { at = rw (l.place 0 h) h; back = ap q.heap (l.place 0 h) }

top_least : {q : PQueue} → IsValid q → (m : ℕ) → IsIn q m → keys q 0 ≤ℤ (q.nodes m).key
top_least {q} v m i =
    rw (ap (λ n. (q.nodes n).key) i.back) at (root_least (keys q) (q.nodes m).heap_id v.heap i.at)

-- The node that pqueue_top() returns, of a valid queue that is not empty, is in the heap, and no
-- node of the heap has a smaller key.
pub pqueue_top-least :
    {q : PQueue}
    → IsValid q
    → 0 < q.size
    → Returns
        (λ (r : Option ℕ).
          (n : ℕ) × (r ≡ some n)
          × IsIn q n
          × ((m : ℕ) → IsIn q m → (q.nodes n).key ≤ℤ (q.nodes m).key))
        (pqueue_top q)
pqueue_top-least {q} v h =
    rw (top-eq v.linked h) (returns (q.heap 0, refl, top-IsIn v.linked h, top_least v))

module _ (q : PQueue) (s : ℕ) (v : IsValid q) (es : q.size ≡ suc s) where
  abbrev root : ℕ
  root = q.heap 0

  root_in : IsIn q root
  root_in = top-IsIn v.linked (omega arith)

  root_place : (q.nodes root).heap_id ≡ 0
  root_place = v.linked.place 0 (omega arith)

  sink-Removed :
      (fuel : ℕ)
      → q.size ≤ fuel
      → Returns
          (Removed q root)
          (down (suc fuel) (out q root s v root_in es) (last q root s v root_in es))
  sink-Removed fuel f = elim (ℕ_discrete (q.nodes root).heap_id s) [
    | yes e ↦
        rw (down-still q root s v root_in es e fuel) (returns (end-Removed q root s v root_in es e))
    | no ne ↦
        let lt : (q.nodes root).heap_id < s = omega (arith, root_in.at) in
        let p = out q root s v root_in es in
        let here : p.heap (q.nodes root).heap_id ≡ last q root s v root_in es = ground arith in
        let sink =
          down-Returns (suc fuel) p (q.nodes root).heap_id (omega arith)
            (out-IsLinked q root s v root_in es) lt (out-HasHole q root s v root_in es lt)
            (λ z. absurd (omega (arith, root_place))) in
        Returns-map (rw here at sink) λ t y. sunk-Removed q root s v root_in es y
  ]

-- pqueue_pop() on a valid queue that is not empty takes out the node at the root, whose key is the
-- least, and nothing else; the queue stays valid.
pub pqueue_pop-Removed :
    {q : PQueue}
    → IsValid q
    → 0 < q.size
    → Returns
        (λ r. Removed q (q.heap 0) r × ((m : ℕ) → IsIn q m → keys q 0 ≤ℤ (q.nodes m).key))
        (pqueue_pop q)
unfolding pqueue_pop
pqueue_pop-Removed {q} v h =
    let es : q.size ≡ suc (q.size - 1) = omega arith in
    let e : q.size + 1 ≡ suc q.size = omega arith in
    rw
      (
        top-eq v.linked h,
        take_out-eq q (q.heap 0) (q.size - 1) v (root_in q (q.size - 1) v es) es,
        e,
      )
      (Returns-map (sink-Removed q (q.size - 1) v es q.size (omega arith)) λ r x. (x, top_least v))
