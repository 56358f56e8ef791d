-- ===== src/Message/ForwardBounds.antt =====
-- cmd_bounded_next_forward() and msg_num_cmd() stay inside the message and end.
use distwalk_iouring.Prelude.{
  ℕ, zero, suc, ◌+◌, ◌≤◌, ◌<◌, ◌≡◌, refl, Bool, true, Option, none, some, arith, length, ◌||◌, ◌&&◌,
  not, ◌==◌,
}
use distwalk_iouring.Prelude.Run.{
  ok, Returns, returns, Returns-bind, Returns-map, Returns-if, Returns-choice, Returns-unless_null,
}
use distwalk_iouring.Memory.{Bytes, Any}
use distwalk_iouring.Memory.Access.{read_u8-Returns}
use distwalk_iouring.Message.{
  CommandType, compute, forward_begin, forward_continue, is_eom, is_continue, is_begin, is_reply,
  cmd_type_size, cmd_next, message_size, message_end, message_first_cmd,
}
use distwalk_iouring.Message.Forward.{
  seek_continue, cmd_bounded_next_forward, fwd_branched, count_commands, msg_num_cmd,
}
use distwalk_iouring.Message.Bounds.{
  InBounds, InBounds-reads, NullOrPast, cmd_type_size_bounds, cmd_in_bounds-Returns,
  cmd_bounded_next-Returns, cmd_bounded_skip-Returns, weaken,
}

-- NULL, or a FORWARD_CONTINUE in bounds past the start
abbrev pub NullOrContinue : Bytes → ℕ → ℕ → Option ℕ → Type 0
NullOrContinue b msg_end from none = Unit {0}
NullOrContinue b msg_end from (some p) =
    (i : InBounds b msg_end p) × (is_continue i.kind ≡ true) × (from ≤ p)

pub forward_size : (t : CommandType) → (is_continue t || is_begin t) ≡ true → cmd_type_size t ≡ 28
unfolding cmd_type_size
forward_size compute h = cc
forward_size forward_begin h = refl
forward_size forward_continue h = refl
forward_size _ h = cc

and_right : (p q : Bool) → (p && q) ≡ true → q ≡ true
and_right p q h = ground arith

module _ (b : Bytes) (msg_end : ℕ) (fits : msg_end ≤ length b) where
  -- The options of a FORWARD command that lies in bounds can be read.
  fwd_branched-Returns :
      {cmd : ℕ} (i : InBounds b msg_end cmd)
      → (is_continue i.kind || is_begin i.kind) ≡ true
      → Returns Any (fwd_branched b cmd)
  unfolding fwd_branched
  fwd_branched-Returns {cmd} i k =
      read_u8-Returns b _ (omega (arith, i.inside, forward_size i.kind k))

  seek_continue-Returns :
      (fuel branched from : ℕ) (cmd : Option ℕ)
      → from ≤ msg_end
      → msg_end < fuel + from
      → NullOrPast b msg_end from cmd
      → Returns (NullOrPast b msg_end from) (seek_continue fuel b msg_end branched cmd)
  unfolding seek_continue
  seek_continue-Returns zero branched from cmd l f n = absurd (omega arith)
  seek_continue-Returns (suc fuel) branched from none l f n = returns tt
  seek_continue-Returns (suc fuel) branched from (some cmd) l f (i, past) =
      let room = cmd_type_size_bounds i.kind in
      let again = λ (r : Option ℕ) (h : NullOrPast b msg_end (cmd + 4) r).
        weaken {r = seek_continue fuel b msg_end branched r} (omega arith) (
          seek_continue-Returns fuel branched (cmd + 4) r (omega (arith, i.inside, room))
            (omega (arith, i.inside, room)) h) in
      Returns-bind (InBounds-reads b msg_end fits i) λ t _.
        Returns-if (is_eom t || is_continue t) (λ _. returns {value = some cmd} (i, past))
          λ _.
            Returns-if (is_begin t)
              (λ _. Returns-bind (cmd_bounded_skip-Returns b msg_end fits cmd 1) again)
              (λ _.
                Returns-unless_null (cmd_bounded_next-Returns b msg_end fits i) (λ _. returns tt)
                  λ next h. Returns-bind (InBounds-reads b msg_end fits h.0) λ after _.
                    Returns-if (is_reply t && (branched == 0 || not (is_continue after)))
                      (λ _. returns tt) (λ _. again (some next) h))

  -- With the end of the message inside the buffer, and whatever the bytes,
  -- cmd_bounded_next_forward() at a FORWARD command in bounds reads nothing outside the buffer, ends,
  -- and returns NULL or a FORWARD_CONTINUE further on that lies in bounds.
  pub cmd_bounded_next_forward-Returns :
      {cmd : ℕ} (i : InBounds b msg_end cmd)
      → (is_continue i.kind || is_begin i.kind) ≡ true
      → Returns (NullOrContinue b msg_end (cmd + 4)) (cmd_bounded_next_forward b (some cmd) msg_end)
  unfolding cmd_bounded_next_forward
  cmd_bounded_next_forward-Returns {cmd} i k =
      Returns-bind (cmd_in_bounds-Returns b msg_end fits cmd) λ r _.
        Returns-if r
          (λ _.
            rw (i.reads, k)
              (Returns-bind (fwd_branched-Returns i k) λ branched _.
                Returns-bind (cmd_bounded_next-Returns b msg_end fits i) λ next h.
                  Returns-unless_null
                    (seek_continue-Returns (suc msg_end) branched (cmd + 4) next
                      (omega (arith, i.inside, cmd_type_size_bounds i.kind)) (omega arith) h)
                    (λ _. returns tt)
                    λ p (j, past). Returns-bind (cmd_in_bounds-Returns b msg_end fits p) λ still _.
                      rw j.reads (
                        Returns-choice (still && is_continue j.kind) (some p) none
                          (λ e. (j, and_right still _ e, past)) (λ _. tt))))
          (λ _. returns tt)

  count_commands-Returns :
      (fuel cmd n : ℕ)
      → 0 < fuel
      → msg_end < fuel + cmd
      → Returns (λ r. n ≤ r) (count_commands fuel b msg_end cmd n)
  unfolding count_commands cmd_next
  count_commands-Returns zero cmd n p f = absurd (omega arith)
  count_commands-Returns (suc fuel) cmd n p f =
      Returns-bind (cmd_in_bounds-Returns b msg_end fits cmd) λ r h.
        Returns-if r
          (λ e.
            let i = h e in
            let room = cmd_type_size_bounds i.kind in
            rw i.reads (
              Returns-if (is_eom i.kind) (λ _. returns (omega arith))
                (λ _.
                  Returns-map
                    (count_commands-Returns fuel (cmd + cmd_type_size i.kind) (n + 1)
                      (omega (arith, i.inside, room)) (omega (arith, i.inside, room)))
                    λ m l. omega arith)))
          (λ _. returns (omega arith))

-- msg_num_cmd() ends on any bytes, and reads nothing outside the buffer, as long as the buffer holds
-- the message with the size that its header says.
pub msg_num_cmd-Returns :
    (b : Bytes) (m size : ℕ)
    → message_size b m ≡ ok size
    → m + size ≤ length b
    → Returns Any (msg_num_cmd b m)
unfolding msg_num_cmd message_end message_first_cmd
msg_num_cmd-Returns b m size e fits = rw e (
    Returns-map
      (count_commands-Returns b (m + size) fits (suc (m + size)) (m + 12) 0 (omega arith)
        (omega arith))
      λ _ _. tt)
