-- ===== src/Conns/Alloc.antt =====
-- conn_alloc(): the first entry that is free becomes a connection with empty buffers.
use distwalk_iouring.Prelude.{
  ℕ, ◌<◌, ◌≡◌, ◌≢◌, refl, ap, ◌∙◌, ◌⊎◌, inl, inr, Bool, true, false, not, Option, none, some, arith,
  length, ltb, ltb→lt, if◌then◌else◌,
}
use distwalk_iouring.Prelude.Int.{ℤ, pos, negsuc}
use distwalk_iouring.Prelude.Run.{Returns, returns, Returns-map, Returns-bind, Returns-if}
use distwalk_iouring.Prelude.Tables.{update, update_self, update_ne}
use distwalk_iouring.Memory.{Bytes}
use distwalk_iouring.Memory.Access.{write_u32-Returns}
use distwalk_iouring.Connection.{Connection, Address, Proto, not_init, ready, buf_size}
use distwalk_iouring.Connection.Receive.{IsReceiving}
use distwalk_iouring.Connection.Sending.{IsSending}
use distwalk_iouring.Conns.{Conns, max_conns}
use distwalk_iouring.Conns.Find.{First, first_conn-First, ltb_fails}
use distwalk_iouring.Conns.Lookup.{first_conn, is_tcp, put_eom, new_conn, conn_alloc}

-- A connection that has just been made.
pub record IsNew (c : Connection) (sock : ℤ) (target : Address) (proto : Proto) (self : ℕ)
    : Type 0 where
  pub receiving : IsReceiving c
  pub sending : IsSending c
  pub nothing : (c.curr_recv_buf ≡ 0) × (c.curr_proc_buf ≡ 0) × (c.curr_send_size ≡ 0)
  pub peer : (c.sock ≡ sock) × (c.target ≡ target) × (c.proto ≡ proto) × (c.parent_thread ≡ self)
  pub status : c.status ≡ (if is_tcp proto then not_init else ready)
  pub plain : c.use_ssl ≡ false

-- What conn_alloc() does: nothing when every entry is busy; otherwise it takes the first that is
-- not, and leaves the others and the requests alone. That entry becomes a new connection, but for
-- its list of requests, or, without memory, it is just busy.
abbrev pub Took :
    Conns → ℤ → Address → Proto → ℕ → Option Bytes → Option Bytes → ℕ → ℤ × Conns → Type 0
Took s sock target proto self recv send i (v, s') =
    (i < max_conns)
    × ((s.conns i).busy ≡ false)
    × ((j : ℕ) → j < i → (s.conns j).busy ≡ true)
    × ((j : ℕ) → j ≢ i → s'.conns j ≡ s.conns j)
    × ((s'.conns i).busy ≡ true)
    × ((s'.conns i).req_list ≡ (s.conns i).req_list)
    × (s'.requests ≡ s.requests)
    × (((v ≡ pos i) × IsNew (s'.conns i) sock target proto self)
        ⊎ ((v ≡ negsuc 0) × ((recv ≡ none) ⊎ (send ≡ none))))

abbrev pub AllocOutcome :
    Conns → ℤ → Address → Proto → ℕ → Option Bytes → Option Bytes → ℤ × Conns → Type 0
AllocOutcome s sock target proto self recv send (v, s') =
    ((v ≡ negsuc 0) × (s' ≡ s) × ((j : ℕ) → j < max_conns → (s.conns j).busy ≡ true))
    ⊎ ((i : ℕ) × Took s sock target proto self recv send i (v, s'))

-- What calloc() returns: nothing, or BUF_SIZE bytes.
abbrev pub IsBuffer : Option Bytes → Type 0
IsBuffer none = Unit {0}
IsBuffer (some b) = length b ≡ buf_size

put_eom-length : (b : Bytes) → length b ≡ buf_size → Returns (λ c. length c ≡ buf_size) (put_eom b)
put_eom-length b h = Returns-map (write_u32-Returns b 12 7 (omega arith)) (λ c w. w.0.size ∙ h)

new_conn-IsNew :
    (c : Connection) (sock : ℤ) (target : Address) (proto : Proto) (self : ℕ) (r w : Bytes)
    → length r ≡ buf_size
    → length w ≡ buf_size
    → IsNew (new_conn c sock target proto self r w) sock target proto self
unfolding new_conn
new_conn-IsNew c sock target proto self r w hr hw = record {
  receiving = record { memory = hr; accounted = refl; handed = omega arith };
  sending = record { memory = hw; waiting = omega arith };
  nothing = (refl, refl, refl);
  peer = (refl, refl, refl, refl);
  status = refl;
  plain = refl;
}

new_conn-list :
    (c : Connection) (sock : ℤ) (target : Address) (proto : Proto) (self : ℕ) (r w : Bytes)
    → ((new_conn c sock target proto self r w).req_list ≡ c.req_list)
      × ((new_conn c sock target proto self r w).busy ≡ c.busy)
unfolding new_conn
new_conn-list c sock target proto self r w = (refl, refl)

not_fails : (b : Bool) → not b ≡ false → b ≡ true
not_fails true e = refl
not_fails false e = cc

not_holds : (b : Bool) → not b ≡ true → b ≡ false
not_holds true e = cc
not_holds false e = refl

module _ (s : Conns) (sock : ℤ) (target : Address) (proto : Proto) (self : ℕ) where
  abbrev test : ℕ → Bool
  test j = not (s.conns j).busy

  abbrev place : ℕ
  place = first_conn max_conns test 0

  scan : First test 0 max_conns place
  scan = first_conn-First max_conns test 0

  abbrev marked : Conns
  marked = record s { conns = update s.conns place (record (s.conns place) { busy = true }) }

  at_place : marked.conns place ≡ record (s.conns place) { busy = true }
  at_place = update_self s.conns place _

  marked_elsewhere : (j : ℕ) → j ≢ place → marked.conns j ≡ s.conns j
  marked_elsewhere j ne = update_ne s.conns place j _ ne

  -- What both ways through conn_alloc() share, when an entry was free.
  took :
      (recv send : Option Bytes) (v : ℤ) (g : ℕ → Connection) (c : Connection)
      → place < max_conns
      → g place ≡ c
      → ((j : ℕ) → j ≢ place → g j ≡ s.conns j)
      → (c.req_list ≡ (s.conns place).req_list) × (c.busy ≡ true)
      → ((v ≡ pos place) × IsNew c sock target proto self)
        ⊎ ((v ≡ negsuc 0) × ((recv ≡ none) ⊎ (send ≡ none)))
      → Took s sock target proto self recv send place (v, record s { conns = g })
  took recv send v g c h at elsewhere (el, eb) out = (
    h,
    not_holds (s.conns place).busy (scan.found (omega arith)),
    λ j l. not_fails (s.conns j).busy (scan.before j (omega arith) l),
    elsewhere,
    ap (λ x. x.busy) at ∙ eb,
    ap (λ x. x.req_list) at ∙ el,
    refl,
    elim out [ inl p ↦ inl (p.0, rw at p.1) | inr p ↦ inr p ],
  )

  abbrev Outcome : Option Bytes → Option Bytes → ℤ × Conns → Type 0
  Outcome recv send = AllocOutcome s sock target proto self recv send

  failed :
      (recv send : Option Bytes)
      → place < max_conns
      → (recv ≡ none) ⊎ (send ≡ none)
      → Outcome recv send (negsuc 0, marked)
  failed recv send h n = inr (
    place,
    took recv send (negsuc 0) marked.conns (record (s.conns place) { busy = true }) h at_place
        marked_elsewhere (refl, refl) (inr (refl, n)),
  )

  filled :
      (r w : Bytes) (recv send : Option Bytes)
      → place < max_conns
      → length r ≡ buf_size
      → length w ≡ buf_size
      → Outcome recv send (
        pos place,
        record marked {
          conns =
              update marked.conns place (new_conn (marked.conns place) sock target proto self r w);
        },
      )
  filled r w recv send h hr hw =
      let c = new_conn (marked.conns place) sock target proto self r w in
      let (el, eb) = new_conn-list (marked.conns place) sock target proto self r w in
      inr (
        place,
        took recv send (pos place) (update marked.conns place c) c h
            (update_self marked.conns place c)
            (λ j ne. update_ne marked.conns place j c ne ∙ marked_elsewhere j ne)
            (el ∙ ap (λ x. x.req_list) at_place, eb ∙ ap (λ x. x.busy) at_place)
            (inl (refl, new_conn-IsNew (marked.conns place) sock target proto self r w hr hw)),
      )

  all_busy :
      (recv send : Option Bytes) → ltb place max_conns ≡ false → Outcome recv send (negsuc 0, s)
  all_busy recv send n = inl (
    refl,
    refl,
    λ j l.
        not_fails (s.conns j).busy
          (scan.before j (omega arith) (let h = ltb_fails _ _ n in omega arith)),
  )

-- conn_alloc(), when calloc() returns nothing or buffers of BUF_SIZE bytes, ends. With every entry
-- busy it returns -1 and changes nothing. Otherwise it takes the first entry that is not busy and
-- leaves the other entries, the requests, and the entry's own list of requests alone; it returns
-- that entry, with both buffers empty, the descriptor, peer, protocol and thread given, and no SSL,
-- or, when a buffer could not be had, -1, with the entry busy for good.
pub conn_alloc-outcome :
    (s : Conns) (sock : ℤ) (target : Address) (proto : Proto) (self : ℕ) (recv send : Option Bytes)
    → IsBuffer recv
    → IsBuffer send
    → Returns
        (AllocOutcome s sock target proto self recv send)
        (conn_alloc s sock target proto self recv send)
unfolding conn_alloc
conn_alloc-outcome s sock target proto self none send hr hs =
    Returns-if (ltb (place s sock target proto self) max_conns)
      (λ y. returns (failed s sock target proto self none send (ltb→lt _ _ y) (inl refl)))
      (λ n. returns (all_busy s sock target proto self none send n))
conn_alloc-outcome s sock target proto self (some r) none hr hs =
    Returns-if (ltb (place s sock target proto self) max_conns)
      (λ y. returns (failed s sock target proto self (some r) none (ltb→lt _ _ y) (inr refl)))
      (λ n. returns (all_busy s sock target proto self (some r) none n))
conn_alloc-outcome s sock target proto self (some r) (some w) hr hs =
    Returns-if (ltb (place s sock target proto self) max_conns)
      (λ y. Returns-bind (put_eom-length w hs) λ w' hw'.
        Returns-bind (put_eom-length r hr) λ r' hr'.
          returns (filled s sock target proto self r' w' (some r) (some w) (ltb→lt _ _ y) hr' hw'))
      (λ n. returns (all_busy s sock target proto self (some r) (some w) n))
