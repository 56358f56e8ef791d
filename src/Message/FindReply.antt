-- ===== src/Message/FindReply.antt =====
-- src/dw_node.c, find_forward_reply_id(): which branch of a FORWARD a reply belongs to.
use distwalk_iouring.Prelude.{
  ℕ, zero, suc, ◌+◌, ◌≤◌, ◌<◌, ◌≡◌, refl, sym, ap, ◌∙◌, ◌⊎◌, inl, inr, Bool, true, false,
  ℕ_discrete, ◌&&◌, ◌||◌, Option, none, some, [], ◌∷◌, arith, length, ◌==◌, if◌then◌else◌,
}
use distwalk_iouring.Prelude.Int.{ℤ, pos, negsuc}
use distwalk_iouring.Prelude.Run.{
  Run, ok, out_of_fuel, ◌>>=◌, Returns, returns, Returns-bind, Returns-if, Returns-keep,
}
use distwalk_iouring.Memory.{Bytes, Any, read_u8}
use distwalk_iouring.Memory.Access.{read_u8-Returns}
use distwalk_iouring.Message.{CommandType, is_begin, is_continue, sizeof_command}
use distwalk_iouring.Message.Bounds.{InBounds}
use distwalk_iouring.Message.Forward.{cmd_bounded_next_forward}
use distwalk_iouring.Message.ForwardBounds.{
  NullOrContinue, forward_size, cmd_bounded_next_forward-Returns,
}

-- memcmp() of the bytes at `p` with those given, for equality
unfoldable pub same_bytes : Bytes → ℕ → Bytes → Run Bool
same_bytes b p [] = ok true
same_bytes b p (x ∷ xs) = do v ← read_u8 b p; r ← same_bytes b (p + 1) xs; ok (v == x && r)

-- cmd_get_opts(fwd_opts_t, cmd)->fwd_addr, behind pkt_size
abbrev pub fwd_addr : ℕ → ℕ
fwd_addr cmd = cmd + sizeof_command + 4

-- The loop of find_forward_reply_id(); `match_addr` is 6 bytes.
unfoldable pub seek_reply_id : ℕ → Bytes → Option ℕ → Bytes → ℕ → ℕ → Run ℤ
seek_reply_id zero b cmd match_addr msg_end id = out_of_fuel
seek_reply_id (suc fuel) b none match_addr msg_end id = ok (negsuc 0)
seek_reply_id (suc fuel) b (some cmd) match_addr msg_end id =
    same_bytes b (fwd_addr cmd) match_addr >>= λ same.
    let on = cmd_bounded_next_forward b (some cmd) msg_end >>= λ next.
    seek_reply_id fuel b next match_addr msg_end (id + 1) in
    if same then ok (pos id) else on

unfoldable pub find_forward_reply_id : Bytes → Option ℕ → Bytes → ℕ → Run ℤ
find_forward_reply_id b cmd match_addr msg_end =
    seek_reply_id (suc msg_end) b cmd match_addr msg_end 0

ok_injective {ℓ} : {A : Type ℓ} {x y : A} → ok x ≡ ok y → x ≡ y
ok_injective e = cc

some_injective : {x y : ℕ} → some x ≡ some y → x ≡ y
some_injective e = cc

none-some : {x : ℕ} → none ≡ some x → ⊥
none-some e = cc

same_bytes-Returns :
    (b : Bytes) (p : ℕ) (xs : Bytes) → p + length xs ≤ length b → Returns Any (same_bytes b p xs)
unfolding same_bytes
same_bytes-Returns b p [] h = returns tt
same_bytes-Returns b p (x ∷ xs) h =
    Returns-bind (read_u8-Returns b p (omega arith))
      λ v _. Returns-bind (same_bytes-Returns b (p + 1) xs (omega arith)) λ r _. returns tt

-- FORWARD number `n` from the one at `cmd` on, which is number 0, is at `p`.
pub data IsNumber (b : Bytes) (msg_end cmd : ℕ) : ℕ → ℕ → Type 0 where
  number_zero : IsNumber b msg_end cmd 0 cmd
  number_suc :
      {n p q : ℕ}
      → IsNumber b msg_end cmd n p
      → cmd_bounded_next_forward b (some p) msg_end ≡ ok (some q)
      → IsNumber b msg_end cmd (suc n) q

-- The FORWARD at `p` has another address.
abbrev pub Differs : Bytes → Bytes → ℕ → Type 0
Differs b match_addr p = same_bytes b (fwd_addr p) match_addr ≡ ok false

-- The answer of find_forward_reply_id(): -1, and no FORWARD from `cmd` on has the address, or the
-- number of the first that has it, a FORWARD or FORWARD_CONTINUE in bounds.
abbrev pub ReplyId : Bytes → ℕ → ℕ → Bytes → ℤ → Type 0
ReplyId b msg_end cmd match_addr v =
    ((v ≡ negsuc 0) × ((n p : ℕ) → IsNumber b msg_end cmd n p → Differs b match_addr p))
    ⊎ ((id : ℕ) × (v ≡ pos id)
        × (p : ℕ) × IsNumber b msg_end cmd id p
        × (i : InBounds b msg_end p) × ((is_continue i.kind || is_begin i.kind) ≡ true)
        × (same_bytes b (fwd_addr p) match_addr ≡ ok true)
        × ((n q : ℕ) → n < id → IsNumber b msg_end cmd n q → Differs b match_addr q))

module _ {b : Bytes} {msg_end cmd : ℕ} where
  IsNumber-one : {n p q : ℕ} → IsNumber b msg_end cmd n p → IsNumber b msg_end cmd n q → p ≡ q
  IsNumber-one number_zero number_zero = refl
  IsNumber-one (number_suc i e) (number_suc j f) =
      let same = IsNumber-one i j in some_injective (ok_injective (sym e ∙ rw (sym same) at f))

  -- No FORWARD has a number that is larger than that of the last one.
  IsNumber-ends :
      {id p : ℕ}
      → IsNumber b msg_end cmd id p
      → cmd_bounded_next_forward b (some p) msg_end ≡ ok none
      → (n q : ℕ) → IsNumber b msg_end cmd n q
      → n ≤ id
  IsNumber-ends i e zero q number_zero = omega arith
  IsNumber-ends {id} i e (suc n) q (number_suc {p = p} j f) =
      let l = IsNumber-ends i e n p j in
      elim (ℕ_discrete n id) [
        | yes same ↦
            let here = IsNumber-one i (rw same at j) in
            absurd (none-some (ok_injective (sym e ∙ rw (sym here) at f)))
        | no other ↦ omega arith
      ]

-- What has been seen when the search has come to `o`, with the number `id`.
abbrev Seen : Bytes → ℕ → ℕ → Bytes → ℕ → Option ℕ → Type 0
Seen b msg_end cmd match_addr id none =
    (n p : ℕ) → IsNumber b msg_end cmd n p → Differs b match_addr p
Seen b msg_end cmd match_addr id (some p) =
    IsNumber b msg_end cmd id p
    × ((n q : ℕ) → n < id → IsNumber b msg_end cmd n q → Differs b match_addr q)

Seen-next :
    (b : Bytes) (msg_end cmd : ℕ) (match_addr : Bytes) (id p : ℕ) (o : Option ℕ)
    → Seen b msg_end cmd match_addr id (some p)
    → Differs b match_addr p
    → cmd_bounded_next_forward b (some p) msg_end ≡ ok o
    → Seen b msg_end cmd match_addr (id + 1) o
Seen-next b msg_end cmd match_addr id p o (i, before) d e = go o e
  where
    upto : (n q : ℕ) → n ≤ id → IsNumber b msg_end cmd n q → Differs b match_addr q
    upto n q l j = elim (ℕ_discrete n id) [
      | yes same ↦ rw (IsNumber-one i (rw same at j)) at d
      | no other ↦ before n q (omega arith) j
    ]

    go :
        (o : Option ℕ)
        → cmd_bounded_next_forward b (some p) msg_end ≡ ok o
        → Seen b msg_end cmd match_addr (id + 1) o
    go none f = λ n q j. upto n q (IsNumber-ends i f n q j) j
    go (some q) f =
        let e1 : suc id ≡ id + 1 = omega arith in
        (rw e1 at (number_suc i f), λ n r l j. upto n r (omega arith) j)

is_forward : (t : CommandType) → is_continue t ≡ true → (is_continue t || is_begin t) ≡ true
is_forward t e = rw e refl

-- NULL, or a FORWARD or FORWARD_CONTINUE in bounds, not before `from`.
abbrev NullOrForward : Bytes → ℕ → ℕ → Option ℕ → Type 0
NullOrForward b msg_end from none = Unit {0}
NullOrForward b msg_end from (some p) =
    (i : InBounds b msg_end p) × ((is_continue i.kind || is_begin i.kind) ≡ true) × (from ≤ p)

continue_forward :
    (b : Bytes) (msg_end from : ℕ) (o : Option ℕ)
    → NullOrContinue b msg_end from o
    → NullOrForward b msg_end from o
continue_forward b msg_end from none h = tt
continue_forward b msg_end from (some p) (i, c, past) = (i, is_forward i.kind c, past)

module _ (b : Bytes) (msg_end : ℕ) (fits : msg_end ≤ length b) (match_addr : Bytes)
    (six : length match_addr ≡ 6) where
  seek_reply_id-ReplyId :
      (start fuel : ℕ) (o : Option ℕ) (id from : ℕ)
      → NullOrForward b msg_end from o
      → Seen b msg_end start match_addr id o
      → msg_end < fuel + from
      → 0 < fuel
      → Returns (ReplyId b msg_end start match_addr) (seek_reply_id fuel b o match_addr msg_end id)
  unfolding seek_reply_id
  seek_reply_id-ReplyId start zero o id from f seen h l = absurd (omega arith)
  seek_reply_id-ReplyId start (suc fuel) none id from f seen h l = returns (inl (refl, seen))
  seek_reply_id-ReplyId start (suc fuel) (some cmd) id from (i, k, past) seen h l =
      let size = forward_size i.kind k in
      Returns-bind
        (Returns-keep (
          same_bytes-Returns b (fwd_addr cmd) match_addr
            (omega (arith, i.inside, size, six, fits))))
        λ same (e, _).
          Returns-if same (λ y. returns (inr (id, refl, cmd, seen.0, i, k, e ∙ ap ok y, seen.1)))
            (λ n.
              Returns-bind (Returns-keep (cmd_bounded_next_forward-Returns b msg_end fits i k))
                λ next (f, p).
                  seek_reply_id-ReplyId start fuel next (id + 1) (cmd + 4)
                    (continue_forward b msg_end (cmd + 4) next p)
                    (Seen-next b msg_end start match_addr id cmd next seen (e ∙ ap ok n) f)
                    (omega arith) (omega (arith, i.inside, size)))

  -- find_forward_reply_id() of an address of six bytes, from a FORWARD in bounds on, with the end of
  -- the message inside the buffer and whatever its bytes, ends without an access outside the buffer.
  -- With the FORWARD it starts from as number 0, and those that cmd_bounded_next_forward() leads to
  -- as the next numbers: it returns the number of the first one that has the address, which is a
  -- FORWARD or FORWARD_CONTINUE in bounds, or -1 if none has it.
  pub find_forward_reply_id-ReplyId :
      {cmd : ℕ} (i : InBounds b msg_end cmd)
      → (is_continue i.kind || is_begin i.kind) ≡ true
      → Returns
          (ReplyId b msg_end cmd match_addr)
          (find_forward_reply_id b (some cmd) match_addr msg_end)
  unfolding find_forward_reply_id
  find_forward_reply_id-ReplyId {cmd} i k =
      seek_reply_id-ReplyId cmd (suc msg_end) (some cmd) 0 cmd (i, k, omega arith)
        (number_zero, λ n q l j. absurd (omega arith)) (omega arith) (omega arith)
