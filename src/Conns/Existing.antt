-- ===== src/Conns/Existing.antt =====
-- conn_find_existing(): a connection over which a message can go on.
use distwalk_iouring.Prelude.{
  ℕ, ◌<◌, ◌≡◌, ◌≢◌, refl, ◌⊎◌, inl, inr, Bool, true, false, not, ◌&&◌, ◌||◌, arith, ◌==◌,
  Bool-cases,
}
use distwalk_iouring.Prelude.Int.{ℤ, pos, negsuc, eq_ℤ, eq_ℤ_yields, eq_ℤ_differs}
use distwalk_iouring.Connection.{Connection, Address, Proto, udp, tcp, tls, dpdk, other_proto}
use distwalk_iouring.Conns.{Conns, max_conns}
use distwalk_iouring.Conns.Lookup.{is_tcp, is_dpdk, can_forward, conn_find_existing}
use distwalk_iouring.Conns.Find.{search-Found}

-- What conn_find_existing() asks of an entry. For UDP it is any socket of the thread that does not
-- listen; for TCP a connection with that peer; for DPDK the port of the thread; for TLS nothing
-- will do, and for a number that is none of them.
abbrev pub Forwards : Address → Proto → ℕ → Connection → Type 0
Forwards target udp self c =
    (c.sock ≢ negsuc 0) × ((c.is_listen ≡ false) × (c.parent_thread ≡ self))
Forwards target tcp self c =
    (c.sock ≢ negsuc 0)
    × ((c.is_listen ≡ false)
        × ((c.target.sin_port ≡ target.sin_port)
            × ((c.target.sin_addr ≡ target.sin_addr) × (c.proto ≡ tcp))))
Forwards target tls self c = ⊥
Forwards target other_proto self c = ⊥
Forwards target dpdk self c = (c.proto ≡ dpdk) × (c.parent_thread ≡ self)

-- A test that says whether `P` holds.
record Reflects (P : Type 0) (b : Bool) : Type 0 where
  to : b ≡ true → P
  from : P → b ≡ true

Reflects-and : {P Q : Type 0} {a b : Bool} → Reflects P a → Reflects Q b → Reflects (P × Q) (a && b)
Reflects-and {a = true} p q = record { to = λ e. (p.to refl, q.to e); from = λ h. q.from h.1 }
Reflects-and {a = false} p q = record { to = λ e. absurd (cc); from = λ h. p.from h.0 }

Reflects-or_false : {P : Type 0} (a b : Bool) → Reflects P a → b ≡ false → Reflects P (a || b)
Reflects-or_false true b r e = r
Reflects-or_false false b r e = rw e r

Reflects-never : {b : Bool} → b ≡ false → Reflects ⊥ b
Reflects-never e = record { to = λ t. cc; from = λ h. absurd h }

Reflects-eq : (a b : ℕ) → Reflects (a ≡ b) (a == b)
Reflects-eq a b = record { to = λ e. ground arith; from = λ e. ground arith }

Reflects-sock : (v : ℤ) → Reflects (v ≢ negsuc 0) (not (eq_ℤ v (negsuc 0)))
Reflects-sock v = elim (Bool-cases (eq_ℤ v (negsuc 0))) [
  | inl y ↦ rw y (record { to = λ t. cc; from = λ h. absurd (h (eq_ℤ_yields v (negsuc 0) y)) })
  | inr n ↦ rw n (record { to = λ t. eq_ℤ_differs v (negsuc 0) n; from = λ h. refl })
]

Reflects-not : (b : Bool) → Reflects (b ≡ false) (not b)
Reflects-not true = record { to = λ t. cc; from = λ h. cc }
Reflects-not false = record { to = λ t. refl; from = λ h. refl }

Reflects-is_tcp : (p : Proto) → Reflects (p ≡ tcp) (is_tcp p)
Reflects-is_tcp udp = record { to = λ t. cc; from = λ h. cc }
Reflects-is_tcp tcp = record { to = λ t. refl; from = λ h. refl }
Reflects-is_tcp tls = record { to = λ t. cc; from = λ h. cc }
Reflects-is_tcp dpdk = record { to = λ t. cc; from = λ h. cc }
Reflects-is_tcp other_proto = record { to = λ t. cc; from = λ h. cc }

Reflects-is_dpdk : (p : Proto) → Reflects (p ≡ dpdk) (is_dpdk p)
Reflects-is_dpdk udp = record { to = λ t. cc; from = λ h. cc }
Reflects-is_dpdk tcp = record { to = λ t. cc; from = λ h. cc }
Reflects-is_dpdk tls = record { to = λ t. cc; from = λ h. cc }
Reflects-is_dpdk other_proto = record { to = λ t. cc; from = λ h. cc }
Reflects-is_dpdk dpdk = record { to = λ t. refl; from = λ h. refl }

Reflects-same : {P : Type 0} {a b : Bool} → b ≡ a → Reflects P a → Reflects P b
Reflects-same e r = rw e r

or_false : (a : Bool) → (a || false) ≡ a
or_false true = refl
or_false false = refl

neither : (a b : Bool) → (a && (b && false)) ≡ false
neither true true = refl
neither true false = refl
neither false b = refl

can_forward-Reflects :
    (target : Address) (proto : Proto) (self : ℕ) (c : Connection)
    → Reflects (Forwards target proto self c) (can_forward target proto self c)
unfolding can_forward
can_forward-Reflects target udp self c = Reflects-and (Reflects-sock c.sock) (
    Reflects-and (Reflects-not c.is_listen)
      (Reflects-or_false _ false (Reflects-eq c.parent_thread self) refl))
can_forward-Reflects target tcp self c = Reflects-and (Reflects-sock c.sock) (
    Reflects-and (Reflects-not c.is_listen) (
      Reflects-and (Reflects-eq c.target.sin_port target.sin_port)
        (Reflects-and (Reflects-eq c.target.sin_addr target.sin_addr) (Reflects-is_tcp c.proto))))
can_forward-Reflects target tls self c = Reflects-never (neither _ _)
can_forward-Reflects target other_proto self c = Reflects-never (neither _ _)
can_forward-Reflects target dpdk self c =
    Reflects-or_false _ _
      (Reflects-and (Reflects-is_dpdk c.proto) (Reflects-eq c.parent_thread self)) (neither _ _)

-- conn_find_existing() returns the first entry that meets what it asks for the protocol, or -1
-- when none does.
pub conn_find_existing-Forwards :
    (s : Conns) (target : Address) (proto : Proto) (self : ℕ)
    → ((i : ℕ) × (conn_find_existing s target proto self ≡ pos i)
        × (i < max_conns)
        × Forwards target proto self (s.conns i)
        × ((j : ℕ) → j < i → Forwards target proto self (s.conns j) → ⊥))
      ⊎ ((conn_find_existing s target proto self ≡ negsuc 0)
          × ((j : ℕ) → j < max_conns → Forwards target proto self (s.conns j) → ⊥))
unfolding conn_find_existing
conn_find_existing-Forwards s target proto self =
    elim (search-Found (λ i. can_forward target proto self (s.conns i))) [
      | inl (i, e, l, t, b) ↦ inl (i, e, l, (meets i).to t, λ j h. refuses j (b j h))
      | inr (e, b) ↦ inr (e, λ j h. refuses j (b j h))
    ]
  where
    meets :
        (j : ℕ)
        → Reflects
            (Forwards target proto self (s.conns j))
            (can_forward target proto self (s.conns j))
    meets j = can_forward-Reflects target proto self (s.conns j)

    refuses :
        (j : ℕ)
        → can_forward target proto self (s.conns j) ≡ false
        → Forwards target proto self (s.conns j)
        → ⊥
    refuses j e f = let t = (meets j).from f in cc
