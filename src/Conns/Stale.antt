-- ===== src/Conns/Stale.antt =====
-- conn_free() and conn_alloc(): what an entry keeps when it is used again.
use distwalk_iouring.Prelude.{
  ℕ, ◌<◌, clash, ◌≡◌, ◌≢◌, refl, sym, ap, ◌∙◌, inl, inr, true, false, none, some, List, [], ◌∷◌,
  arith, length, ℕ_discrete, dec_lt,
}
use distwalk_iouring.Prelude.Int.{ℤ, pos, negsuc}
use distwalk_iouring.Prelude.Run.{◌>>=◌, Returns, returns, Returns-map, Returns-bind}
use distwalk_iouring.Prelude.Tables.{update, update_self, update_ne}
use distwalk_iouring.Memory.{Bytes}
use distwalk_iouring.Connection.{Address, Proto, buf_size, close}
use distwalk_iouring.Request.Table.{IsValid}
use distwalk_iouring.Conns.{Conns, conn_free, max_conns}
use distwalk_iouring.Conns.Lookup.{conn_alloc}
use distwalk_iouring.Conns.Chain.{IsList}
use distwalk_iouring.Conns.Reset.{Freed, conn_reset-Freed}
use distwalk_iouring.Conns.Alloc.{conn_alloc-outcome}

-- An entry that conn_free() has given back.
pub record GivenBack (s : Conns) (c : ℕ) (is : List ℕ) (s' : Conns) : Type 0 where
  pub free : (s'.conns c).busy ≡ false
  pub closed : ((s'.conns c).status ≡ close) × ((s'.conns c).sock ≡ negsuc 0)
  pub list : (s'.conns c).req_list ≡ (s.conns c).req_list
  pub others : (j : ℕ) → j ≢ c → s'.conns j ≡ s.conns j
  pub requests : Freed s.requests is s'.requests

-- conn_free() of a connection with the requests `is`, on a valid table, ends. The entry is free,
-- closed and without a descriptor, the requests are out of the table, and the other connections and
-- requests are as they were; but its list still names the first of its requests.
pub conn_free-GivenBack :
    (s : Conns) (c : ℕ) (is : List ℕ)
    → IsValid s.requests
    → IsList s c is
    → Returns (GivenBack s c is) (conn_free s (pos c))
unfolding conn_free
conn_free-GivenBack s c is v l = Returns-bind (conn_reset-Freed s c is v l) λ s' (same, f, k).
    let conn = s'.conns c in
    let new = record conn {
      recv_buf = [];
      send_buf = [];
      status = close;
      sock = negsuc 0;
      busy = false;
      ssl_handshake_done = false;
      ssl_is_server = false;
    } in
    let at : update s'.conns c new c ≡ new = update_self s'.conns c new in
    returns (record {
      free = ap (λ x. x.busy) at;
      closed = (ap (λ x. x.status) at, ap (λ x. x.sock) at);
      list = ap (λ x. x.req_list) at ∙ ap (λ g. (g c).req_list) same;
      others = λ j ne. update_ne s'.conns c j new ne ∙ ap (λ g. g j) same;
      requests = f;
    })

never_null {ℓ} : {A : Type ℓ} {a : A} → some a ≡ none → ⊥
never_null e = cc

-- conn_free() of a connection that has a request, and then conn_alloc() with memory, when every
-- entry before it is busy: the entry is used again, and the list of the new connection starts at
-- the old request, which is no longer in the table.
pub conn_alloc-stale :
    (s : Conns) (c i : ℕ) (is : List ℕ)
    → IsValid s.requests
    → IsList s c (i ∷ is)
    → c < max_conns
    → ((j : ℕ) → j < c → (s.conns j).busy ≡ true)
    → (sock : ℤ) (target : Address) (proto : Proto) (self : ℕ) (recv send : Bytes)
    → length recv ≡ buf_size
    → length send ≡ buf_size
    → Returns
        (λ (v, s').
          (v ≡ pos c) × ((s'.conns c).req_list ≡ some i) × ((s'.requests.reqs i).req_id ≡ negsuc 0))
        (conn_free s (pos c) >>= λ s'. conn_alloc s' sock target proto self (some recv) (some send))
conn_alloc-stale s c i is v l inside before sock target proto self recv send hr hs =
    Returns-bind (conn_free-GivenBack s c (i ∷ is) v l) λ s1 g.
      Returns-map (conn_alloc-outcome s1 sock target proto self (some recv) (some send) hr hs)
        (λ (v2, s2) out. elim out [
          | inl (e, same, busy) ↦ clash (busy c inside) g.free
          | inr (k, (lt, free, below, others, b, list, req, fate)) ↦
              let here : k ≡ c = elim (ℕ_discrete k c) [
                | yes e ↦ e
                | no ne ↦ elim (dec_lt k c) [
                  | yes h ↦ clash (ap (λ x. x.busy) (g.others k ne) ∙ before k h) free
                  | no h ↦ clash (below c (omega arith)) g.free
                ]
              ] in
              let named : v2 ≡ pos c = elim fate [
                | inl p ↦ p.0 ∙ ap pos here
                | inr p ↦ elim p.1 [ inl n ↦ absurd (never_null n) | inr n ↦ absurd (never_null n) ]
              ] in
              (
                named,
                ap (λ x. (s2.conns x).req_list) (sym here)
                    ∙ list
                    ∙ ap (λ x. (s1.conns x).req_list) here
                    ∙ g.list
                    ∙ l.head,
                ap (λ t. (t.reqs i).req_id) req ∙ g.requests.freed i (inl refl),
              )
        ])
