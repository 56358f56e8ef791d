-- ===== src/Conns/Find.antt =====
-- conn_find_sock() and conn_find_existing(): the first entry of the table that passes a test.
use distwalk_iouring.Prelude.{
  ℕ, ℕ_discrete, zero, suc, ◌+◌, ◌≤◌, ◌<◌, clash, ◌≡◌, ◌≢◌, refl, ap, ◌∙◌, ◌⊎◌, inl, inr, Bool,
  true, false, arith, ltb, ltb→lt, dec_lt, Bool-cases,
}
use distwalk_iouring.Prelude.Int.{ℤ, pos, negsuc, eq_ℤ, eq_ℤ_yields, eq_ℤ_differs}
use distwalk_iouring.Prelude.Run.{ok, aborted, Returns, returns}
use distwalk_iouring.Conns.{Conns, max_conns}
use distwalk_iouring.Conns.Lookup.{first_conn, found_or, conn_find_sock}

-- Where a loop over `n` entries from `i` on stops.
pub record First (test : ℕ → Bool) (i n j : ℕ) : Type 0 where
  pub from : i ≤ j
  pub upto : j ≤ i + n
  pub before : (k : ℕ) → i ≤ k → k < j → test k ≡ false
  pub found : j < i + n → test j ≡ true

pub first_conn-First : (n : ℕ) (test : ℕ → Bool) (i : ℕ) → First test i n (first_conn n test i)
unfolding first_conn
first_conn-First zero test i = record {
  from = omega arith;
  upto = omega arith;
  before = λ k a b. absurd (omega arith);
  found = λ h. absurd (omega arith);
}
first_conn-First (suc n) test i = elim (Bool-cases (test i)) [
  | inl y ↦ rw y (record {
    from = omega arith;
    upto = omega arith;
    before = λ k a b. absurd (omega arith);
    found = λ h. y;
  })
  | inr n0 ↦
      let f = first_conn-First n test (i + 1) in
      rw n0 (record {
        from = omega (arith, f.from);
        upto = omega (arith, f.upto);
        before =
            λ k a b. elim (ℕ_discrete k i) [ yes e ↦ rw e n0 | no ne ↦ f.before k (omega arith) b ];
        found = λ h. f.found (omega arith);
      })
]

-- The answer of a search: the first entry that passes, or -1 when none does.
abbrev pub Found : (ℕ → Bool) → ℤ → Type 0
Found test v =
    ((i : ℕ) × (v ≡ pos i) × (i < max_conns) × (test i ≡ true) × ((j : ℕ) → j < i → test j ≡ false))
    ⊎ ((v ≡ negsuc 0) × ((j : ℕ) → j < max_conns → test j ≡ false))

pub ltb_fails : (a b : ℕ) → ltb a b ≡ false → b ≤ a
ltb_fails a b h = ground arith

pub search-Found : (test : ℕ → Bool) → Found test (found_or (first_conn max_conns test 0))
search-Found test =
    let i = first_conn max_conns test 0 in
    let f = first_conn-First max_conns test 0 in
    elim (Bool-cases (ltb i max_conns)) [
      | inl y ↦
          let l = ltb→lt i max_conns y in
          rw y (inl (i, refl, l, f.found (omega arith), λ j b. f.before j (omega arith) b))
      | inr n ↦
          let l = ltb_fails i max_conns n in
          rw n (inr (refl, λ j b. f.before j (omega arith) (omega arith)))
    ]

-- conn_find_sock() aborts on the descriptor -1, and of any other returns the first entry that has
-- it, or -1 when no entry has.
pub conn_find_sock-Found :
    (s : Conns) (sock : ℤ)
    → ((sock ≡ negsuc 0) × (conn_find_sock s sock ≡ aborted))
      ⊎ ((sock ≢ negsuc 0)
          × Returns (Found (λ i. eq_ℤ (s.conns i).sock sock)) (conn_find_sock s sock))
unfolding conn_find_sock
conn_find_sock-Found s sock = elim (Bool-cases (eq_ℤ sock (negsuc 0))) [
  | inl y ↦ rw y (inl (eq_ℤ_yields _ _ y, refl))
  | inr n ↦
      rw n (inr (eq_ℤ_differs _ _ n, returns (search-Found (λ i. eq_ℤ (s.conns i).sock sock))))
]

search_first :
    (test : ℕ → Bool) (c : ℕ)
    → c < max_conns
    → test c ≡ true
    → ((j : ℕ) → j < c → test j ≡ false)
    → found_or (first_conn max_conns test 0) ≡ pos c
search_first test c inside t b = elim (search-Found test) [
  | inl (i, e, l, ti, bi) ↦ elim (dec_lt i c) [
    | yes h ↦ clash ti (b i h)
    | no h ↦ elim (dec_lt c i) [
      | yes k ↦ clash t (bi c k)
      | no k ↦ let same : i ≡ c = omega arith in e ∙ ap pos same
    ]
  ]
  | inr (e, bi) ↦ clash t (bi c inside)
]

pub conn_find_sock_first :
    (s : Conns) (sock : ℤ) (c : ℕ)
    → sock ≢ negsuc 0
    → c < max_conns
    → eq_ℤ (s.conns c).sock sock ≡ true
    → ((j : ℕ) → j < c → eq_ℤ (s.conns j).sock sock ≡ false)
    → conn_find_sock s sock ≡ ok (pos c)
unfolding conn_find_sock
conn_find_sock_first s sock c live inside has first = elim (Bool-cases (eq_ℤ sock (negsuc 0))) [
  | inl y ↦ absurd (live (eq_ℤ_yields _ _ y))
  | inr n ↦ rw n (ap ok (search_first (λ i. eq_ℤ (s.conns i).sock sock) c inside has first))
]
