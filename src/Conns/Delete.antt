-- ===== src/Conns/Delete.antt =====
-- conn_del_sock() and conn_del_id(): a connection whose descriptor is closed.
use distwalk_iouring.Prelude.{ℕ, ◌<◌, ◌≡◌, ◌≢◌, refl, ap, ◌∙◌, true, false, List, arith, lt→ltb}
use distwalk_iouring.Prelude.Int.{ℤ, pos, negsuc, eq_ℤ}
use distwalk_iouring.Prelude.Run.{Returns, returns, Returns-bind}
use distwalk_iouring.Prelude.Tables.{update_self, update_ne}
use distwalk_iouring.Request.Table.{IsValid}
use distwalk_iouring.Conns.{Conns, max_conns}
use distwalk_iouring.Conns.Lookup.{conn_del_id, conn_del_sock}
use distwalk_iouring.Conns.Chain.{IsList}
use distwalk_iouring.Conns.Find.{conn_find_sock_first}
use distwalk_iouring.Conns.Reset.{Freed, conn_reset-Freed}

-- The entry `c` has lost its descriptor and its requests, and nothing else.
pub record Deleted (s : Conns) (c : ℕ) (is : List ℕ) (s' : Conns) : Type 0 where
  pub entry : s'.conns c ≡ record (s.conns c) { sock = negsuc 0 }
  pub others : (j : ℕ) → j ≢ c → s'.conns j ≡ s.conns j
  pub requests : Freed s.requests is s'.requests

pub conn_del_id-Deleted :
    (s : Conns) (c : ℕ) (is : List ℕ)
    → c < max_conns
    → IsValid s.requests
    → IsList s c is
    → Returns (Deleted s c is) (conn_del_id s (pos c))
unfolding conn_del_id
conn_del_id-Deleted s c is inside v l = rw (lt→ltb c max_conns inside) (
    Returns-bind (conn_reset-Freed s c is v l) λ s' (same, f, k).
      let new = record (s'.conns c) { sock = negsuc 0 } in
      returns (record {
        entry = update_self s'.conns c new ∙ ap (λ g. record (g c) { sock = negsuc 0 }) same;
        others = λ j ne. update_ne s'.conns c j new ne ∙ ap (λ g. g j) same;
        requests = f;
      }))

pos_not_minus : (c : ℕ) → eq_ℤ (pos c) (negsuc 0) ≡ false
pos_not_minus c = ground arith

-- conn_del_sock() of a descriptor, other than -1, that the entry `c` is the first to have, on a
-- valid table, ends and returns `c`. The entry has lost its descriptor and its requests, and nothing
-- else has changed: it stays busy, so that conn_alloc() will not use it again.
pub conn_del_sock-Deleted :
    (s : Conns) (sock : ℤ) (c : ℕ) (is : List ℕ)
    → sock ≢ negsuc 0
    → c < max_conns
    → eq_ℤ (s.conns c).sock sock ≡ true
    → ((j : ℕ) → j < c → eq_ℤ (s.conns j).sock sock ≡ false)
    → IsValid s.requests
    → IsList s c is
    → Returns
        (λ (v, s'). (v ≡ pos c) × Deleted s c is s' × ((s'.conns c).busy ≡ (s.conns c).busy))
        (conn_del_sock s sock)
unfolding conn_del_sock
conn_del_sock-Deleted s sock c is live inside has first v l =
    rw (conn_find_sock_first s sock c live inside has first, pos_not_minus c)
      (Returns-bind (conn_del_id-Deleted s c is inside v l)
        λ s' d. returns (refl, d, ap (λ x. x.busy) d.entry))
