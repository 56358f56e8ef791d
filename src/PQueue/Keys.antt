-- ===== src/PQueue/Keys.antt =====
-- The heap order, on the keys by place: what one exchange on the way up or down does to it.
use distwalk_iouring.Prelude.{ℕ, zero, suc, ◌-◌, ◌/◌, ◌<◌, ◌≡◌, ◌≢◌, ap, arith, ℕ_discrete}
use distwalk_iouring.Prelude.Int.{ℤ, ◌≤ℤ◌}

abbrev pub parent : ℕ → ℕ
parent c = (c - 1) / 2

abbrev pub Keys : Type 0
Keys = ℕ → ℤ

-- No key is above that of a child.
abbrev pub IsHeap : Keys → ℕ → Type 0
IsHeap k n = (c : ℕ) → 0 < c → c < n → k (parent c) ≤ℤ k c

-- In order but for the edges at place `i`, and in order across `i`.
pub record HasHole (k : Keys) (n i : ℕ) : Type 0 where
  pub edges : (c : ℕ) → 0 < c → c < n → c ≢ i → parent c ≢ i → k (parent c) ≤ℤ k c
  pub bridged : (c : ℕ) → 0 < c → c < n → parent c ≡ i → 0 < i → k (parent i) ≤ℤ k c

abbrev pub IsBelow : Keys → ℕ → ℕ → Type 0
IsBelow k n i = (c : ℕ) → 0 < c → c < n → parent c ≡ i → k i ≤ℤ k c

abbrev pub IsAbove : Keys → ℕ → Type 0
IsAbove k i = 0 < i → k (parent i) ≤ℤ k i

pub record Swapped (k k' : Keys) (i j : ℕ) : Type 0 where
  pub at_i : k' i ≡ k j
  pub at_j : k' j ≡ k i
  pub else_where : (c : ℕ) → c ≢ i → c ≢ j → k' c ≡ k c

pub IsHeap-hole : {k : Keys} {n i : ℕ} → HasHole k n i → IsBelow k n i → IsAbove k i → IsHeap k n
IsHeap-hole {k} {n} {i} h below above c p l = elim (ℕ_discrete c i) [
  | yes e ↦ rw e (above (omega arith))
  | no ne ↦ elim (ℕ_discrete (parent c) i) [
    | yes e ↦ rw e (below c p l e)
    | no ne' ↦ h.edges c p l ne ne'
  ]
]

-- The exchange of up(): the key at `i` is below its parent's and takes its place.
module _ {k k' : Keys} {n i : ℕ} (h : HasHole k n i) (inside : i < n) (pos : 0 < i)
    (above : k i ≤ℤ k (parent i)) (s : Swapped k k' i (parent i)) where
  up-edges : (c : ℕ) → 0 < c → c < n → c ≢ parent i → parent c ≢ parent i → k' (parent c) ≤ℤ k' c
  up-edges c p l ne ne' = elim (ℕ_discrete (parent c) i) [
    | yes e ↦ rw (e, s.at_i, s.else_where c (omega arith) ne) (h.bridged c p l e pos)
    | no apart ↦
        let ne_i : c ≢ i = λ e. ne' (ap parent e) in
        rw (s.else_where c ne_i ne, s.else_where (parent c) apart ne') (h.edges c p l ne_i apart)
  ]

  up-bridged :
      (c : ℕ) → 0 < c → c < n → parent c ≡ parent i → 0 < parent i → k' (parent (parent i)) ≤ℤ k' c
  up-bridged c p l e q =
      let up_edge = h.edges (parent i) q (omega arith) (omega arith) (omega arith) in
      elim (ℕ_discrete c i) [
        | yes e' ↦
            rw (e', s.at_i, s.else_where (parent (parent i)) (omega arith) (omega arith)) up_edge
        | no ne ↦
            rw
              (
                s.else_where c ne (omega arith),
                s.else_where (parent (parent i)) (omega arith) (omega arith),
              )
              (omega (arith, up_edge, rw e at (h.edges c p l ne (omega arith))))
      ]

  pub up-HasHole : HasHole k' n (parent i)
  up-HasHole = record { edges = up-edges; bridged = up-bridged }

  pub up-IsBelow : IsBelow k' n (parent i)
  up-IsBelow c p l e = elim (ℕ_discrete c i) [
    | yes e' ↦ rw (e', s.at_i, s.at_j) above
    | no ne ↦
        rw (s.else_where c ne (omega arith), s.at_j)
          (omega (arith, above, rw e at (h.edges c p l ne (omega arith))))
  ]

-- The exchange of down(): the least key below place `i` takes its place.
module _ {k k' : Keys} {n i m : ℕ} (h : HasHole k n i) (pos : 0 < m) (child : parent m ≡ i)
    (inside : m < n) (least : (c : ℕ) → 0 < c → c < n → parent c ≡ i → k m ≤ℤ k c)
    (below : k m ≤ℤ k i) (s : Swapped k k' m i) where
  down-edges : (c : ℕ) → 0 < c → c < n → c ≢ m → parent c ≢ m → k' (parent c) ≤ℤ k' c
  down-edges c p l ne ne' = elim (ℕ_discrete c i) [
    | yes e ↦
        rw (e, s.at_j, s.else_where (parent i) (omega arith) (omega arith))
          (h.bridged m pos inside child (omega arith))
    | no apart ↦ elim (ℕ_discrete (parent c) i) [
      | yes e ↦ rw (e, s.at_j, s.else_where c ne apart) (least c p l e)
      | no other ↦
          rw (s.else_where c ne apart, s.else_where (parent c) ne' other)
            (h.edges c p l apart other)
    ]
  ]

  pub down-HasHole : HasHole k' n m
  down-HasHole = record {
    edges = down-edges;
    bridged = λ c p l e q.
        rw (child, s.at_j, s.else_where c (omega arith) (omega arith))
          (rw e at (h.edges c p l (omega arith) (omega arith)));
  }

  pub down-IsAbove : IsAbove k' m
  down-IsAbove _ = rw (child, s.at_i, s.at_j) below

root_below : (fuel : ℕ) (k : Keys) {n : ℕ} (i : ℕ) → IsHeap k n → i < fuel → i < n → k 0 ≤ℤ k i
root_below zero k i h f l = absurd (omega arith)
root_below (suc fuel) k i h f l = elim (ℕ_discrete i 0) [
  | yes e ↦ rw e (omega arith)
  | no ne ↦
      omega (arith, h i (omega arith) l, root_below fuel k (parent i) h (omega arith) (omega arith))
]

-- The root of a heap has the least key.
pub root_least : (k : Keys) {n : ℕ} (i : ℕ) → IsHeap k n → i < n → k 0 ≤ℤ k i
root_least k i h l = root_below (suc i) k i h (omega arith) l
