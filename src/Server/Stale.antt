-- ===== src/Server/Stale.antt =====
-- src/dw_node.c, single_start_forward(): the header of a message that is forwarded.
use distwalk_iouring.Prelude.{
  ℕ, zero, suc, ◌+◌, ◌-◌, ◌%◌, ◌^◌, ◌≡◌, refl, ◌∙◌, inl, inr, Bool, true, Option, none, some, arith,
  length, ltb, leb, not,
}
use distwalk_iouring.Prelude.Int.{negsuc, eq_ℤ}
use distwalk_iouring.Prelude.Run.{
  Run, ok, fault, aborted, out_of_fuel, Returns-inv, unless_null, check,
}
use distwalk_iouring.Memory.{Bytes, read_u8, read_u32, write_u8, write_u32, copy_bytes}
use distwalk_iouring.Memory.Access.{
  SameOutside, SameOutside-trans, SameOutside-refl, Wrote32, read_u32-SameOutside, write_u8-Returns,
  write_u32-Returns,
}
use distwalk_iouring.Memory.Faults.{write_u8-fault, write_u32-fault}
use distwalk_iouring.Message.{
  message_size, message_first_cmd, command_at, cmd_in_bounds, cmd_type_size, message_end, eom,
  cmd_bounded_next,
}
use distwalk_iouring.Message.Copy.{find_reply, copy_commands, message_copy_tail}
use distwalk_iouring.Connection.{Connection, buf_size, sub_word, conn_prepare_send_message}
use distwalk_iouring.Server.Reply.{status_at}
use distwalk_iouring.Server.Forward.{FwdOpts}
use distwalk_iouring.Server.Start.{copy_tail, past_continues, seal_branch, branch_message}
use distwalk_iouring.Server.Kept.{
  IfReturns, if_ok, if_fault, if_aborted, if_out_of_fuel, IfReturns-bind, IfReturns-ok,
  IfReturns-map, IfReturns-if,
}
use native.Mathlib.Decide.{dec_lt, dec_le}

IfReturns-unless_null {ℓ κ} :
    {A : Type ℓ} {B : Type κ} {P : A → Type 0} (r : Run (Option B)) {n : Run A} {f : B → Run A}
    → IfReturns P n
    → ((b : B) → IfReturns P (f b))
    → IfReturns P (unless_null r n f)
IfReturns-unless_null (ok none) p q = p
IfReturns-unless_null (ok (some b)) p q = q b
IfReturns-unless_null fault p q = if_fault
IfReturns-unless_null aborted p q = if_aborted
IfReturns-unless_null out_of_fuel p q = if_out_of_fuel

write_u32-if : (b : Bytes) (p v : ℕ) → IfReturns (Wrote32 b p v) (write_u32 b p v)
write_u32-if b p v = elim (dec_le (p + 4) (length b)) [
  | yes h ↦ let (c, e, w) = Returns-inv (write_u32-Returns b p v h) in rw e (if_ok w)
  | no h ↦ rw (write_u32-fault b p v (omega arith)) if_fault
]

write_u8-if : (b : Bytes) (p v : ℕ) → IfReturns (λ c. SameOutside b p (p + 1) c) (write_u8 b p v)
write_u8-if b p v = elim (dec_lt p (length b)) [
  | yes h ↦ let (c, e, w) = Returns-inv (write_u8-Returns b p v h) in rw e (if_ok w.0)
  | no h ↦ rw (write_u8-fault b p v (omega arith)) if_fault
]

copy_bytes-if :
    (n : ℕ) (src : Bytes) (s : ℕ) (dst : Bytes) (d : ℕ)
    → IfReturns (λ c. SameOutside dst d (d + n) c) (copy_bytes n src s dst d)
unfolding copy_bytes
copy_bytes-if zero src s dst d = if_ok (SameOutside-refl dst d (d + 0))
copy_bytes-if (suc n) src s dst d = IfReturns-bind (read_u8 src s) λ v _.
    IfReturns-bind (write_u8 dst d v) λ dst' e.
      IfReturns-map (copy_bytes-if n src (s + 1) dst' (d + 1)) λ c o.
        SameOutside-trans d (d + suc n) (omega arith) (omega arith) (omega arith) (omega arith)
          (IfReturns-ok (write_u8-if dst d v) e) o

-- The status of the message at `m` is the same in both buffers.
abbrev pub SameStatus : ℕ → Bytes → Bytes → Type 0
SameStatus m dst d = read_u32 d (status_at m) ≡ read_u32 dst (status_at m)

copy_commands-SameStatus :
    (b dst : Bytes) (m_dst cmd itr : ℕ)
    → IfReturns
        (λ (x : Option ℕ × Bytes). SameStatus m_dst dst x.1)
        (copy_commands b dst m_dst cmd itr)
unfolding copy_commands message_first_cmd
copy_commands-SameStatus b dst m_dst cmd itr = IfReturns-bind (command_at b itr) λ t _.
    IfReturns-bind (message_size dst m_dst) λ avail _.
      let len = itr + cmd_type_size t - cmd in
      IfReturns-if (ltb avail (len + cmd_type_size eom)) (if_ok refl) (
        IfReturns-bind (copy_bytes len b cmd dst (m_dst + 12)) λ d1 e1.
          IfReturns-bind (write_u32 d1 (m_dst + 12 + len) 7) λ d2 e2.
            IfReturns-bind (write_u32 d2 (m_dst + 4) (m_dst + 12 + len + cmd_type_size eom - m_dst))
              λ d3 e3. if_ok (
                read_u32-SameOutside (status_at m_dst) (inr (omega arith))
                  (IfReturns-ok (write_u32-if d2 (m_dst + 4) _) e3).0
                ∙ read_u32-SameOutside (status_at m_dst) (inl (omega arith))
                    (IfReturns-ok (write_u32-if d1 (m_dst + 12 + len) 7) e2).0
                ∙ read_u32-SameOutside (status_at m_dst) (inl (omega arith))
                    (IfReturns-ok (copy_bytes-if len b cmd dst (m_dst + 12)) e1)))

copy_tail-SameStatus :
    (b : Bytes) (m : ℕ) (dst : Bytes) (m_dst : ℕ) (c : Option ℕ)
    → IfReturns (λ (x : Option ℕ × Bytes). SameStatus m_dst dst x.1) (copy_tail b m dst m_dst c)
unfolding message_copy_tail
copy_tail-SameStatus b m dst m_dst none = IfReturns-bind (read_u32 b m) λ id _.
    IfReturns-bind (write_u32 dst m_dst id) λ d e. if_ok (
      read_u32-SameOutside (status_at m_dst) (inr (omega arith))
        (IfReturns-ok (write_u32-if dst m_dst id) e).0)
copy_tail-SameStatus b m dst m_dst (some c) = IfReturns-bind (read_u32 b m) λ id _.
    IfReturns-bind (write_u32 dst m_dst id) λ d e.
      let first =
        read_u32-SameOutside (status_at m_dst) (inr (omega arith))
          (IfReturns-ok (write_u32-if dst m_dst id) e).0 in
      IfReturns-bind (message_end b m) λ msg_end _.
        IfReturns-unless_null (find_reply (suc msg_end) b msg_end (some c)) (if_ok first) λ itr.
          IfReturns-bind (cmd_in_bounds b itr msg_end) λ inside _.
            IfReturns-if inside
              (IfReturns-map (copy_commands-SameStatus b d m_dst c itr) λ x s. s ∙ first)
              (if_ok first)

prepare-if :
    (c : Connection)
    → IfReturns
        (λ (x : ℕ × Connection).
          (x.0 ≡ c.curr_send_size) × SameStatus c.curr_send_size c.send_buf x.1.send_buf)
        (conn_prepare_send_message c)
unfolding conn_prepare_send_message
prepare-if c =
    let p = c.curr_send_size in
    let room = sub_word buf_size (c.curr_send_buf + c.curr_send_size) in
    IfReturns-bind (write_u32 c.send_buf (p + 4) room) λ b e. if_ok (
      refl,
      read_u32-SameOutside (status_at p) (inr (omega arith))
          (IfReturns-ok (write_u32-if c.send_buf (p + 4) room) e).0,
    )

-- A message with the header that single_start_forward() gives it.
abbrev pub Sealed : Bytes → ℕ → ℕ → ℕ → Bool × Connection → Type 0
Sealed dst p req_id pkt_size (made, c) =
    made ≡ true
    → (read_u32 c.send_buf p ≡ ok (req_id % 2 ^ 32))
      × (message_size c.send_buf p ≡ ok (pkt_size % 2 ^ 32))
      × SameStatus p dst c.send_buf

seal_branch-Sealed :
    (o : Option ℕ) (c : Connection) (dst : Bytes) (p req_id pkt_size : ℕ)
    → IfReturns (Sealed dst p req_id pkt_size) (seal_branch o c dst p req_id pkt_size)
unfolding message_size
seal_branch-Sealed none c dst p req_id pkt_size = if_ok (λ e. absurd (cc))
seal_branch-Sealed (some _) c dst p req_id pkt_size =
    IfReturns-bind (write_u32 dst p req_id) λ d1 e1.
      IfReturns-bind (write_u32 d1 (p + 4) pkt_size) λ d2 e2.
        let (s1, r1) = IfReturns-ok (write_u32-if dst p req_id) e1 in
        let (s2, r2) = IfReturns-ok (write_u32-if d1 (p + 4) pkt_size) e2 in
        if_ok (λ _. (
          read_u32-SameOutside p (inl (omega arith)) s2 ∙ r1,
          r2,
          read_u32-SameOutside (status_at p) (inr (omega arith)) s2
              ∙ read_u32-SameOutside (status_at p) (inr (omega arith)) s1,
        ))

branch_message-Sealed :
    (b : Bytes) (m cmd msg_end req_id : ℕ) (fwd : FwdOpts) (c : Connection)
    → IfReturns
        (Sealed c.send_buf c.curr_send_size req_id fwd.pkt_size)
        (branch_message b m cmd msg_end req_id fwd c)
unfolding branch_message
branch_message-Sealed b m cmd msg_end req_id fwd c =
    IfReturns-bind (check (not (eq_ℤ c.sock (negsuc 0)))) λ _ _.
      IfReturns-bind (conn_prepare_send_message c) λ x e.
        let (at, same) = IfReturns-ok (prepare-if c) e in
        IfReturns-bind (message_size x.1.send_buf x.0) λ room _.
          IfReturns-bind (check (leb fwd.pkt_size room)) λ _ _.
            IfReturns-bind (cmd_bounded_next b cmd msg_end) λ next _.
              IfReturns-bind (past_continues (suc msg_end) b next msg_end) λ o _.
                IfReturns-bind (copy_tail b m x.1.send_buf x.0 o) λ y f.
                  let copied = IfReturns-ok (copy_tail-SameStatus b m x.1.send_buf x.0 o) f in
                  IfReturns-map (seal_branch-Sealed y.0 x.1 y.1 x.0 req_id fwd.pkt_size) λ z s made.
                    let (i, n, st) = s made in
                    (rw at at i, rw at at n, rw at at (st ∙ copied) ∙ same)

-- When the message of a FORWARD to one branch has been made, over a connection and in a buffer of
-- whatever contents: it has the id of the request and the size that the FORWARD gives, and as its
-- status what the send buffer held at that place before.
pub branch_message-stale :
    (b : Bytes) (m cmd msg_end req_id : ℕ) (fwd : FwdOpts) (c c' : Connection)
    → branch_message b m cmd msg_end req_id fwd c ≡ ok (true, c')
    → (read_u32 c'.send_buf c.curr_send_size ≡ ok (req_id % 2 ^ 32))
      × (message_size c'.send_buf c.curr_send_size ≡ ok (fwd.pkt_size % 2 ^ 32))
      × SameStatus c.curr_send_size c.send_buf c'.send_buf
branch_message-stale b m cmd msg_end req_id fwd c c' e =
    IfReturns-ok (branch_message-Sealed b m cmd msg_end req_id fwd c) e refl
