-- ===== src/Message/Bounds.antt =====
-- Whatever bytes a message holds, the walk over its commands stays inside it and ends.
use distwalk_iouring.Prelude.{
  ℕ, zero, suc, ◌+◌, ◌*◌, ◌≤◌, ◌≡◌, true, Option, none, some, arith, length, min, ltb, leb→le, not,
  ◌&&◌,
}
use distwalk_iouring.Prelude.Int.{ℤ, pos, ltb_ℤ}
use distwalk_iouring.Prelude.Run.{
  Run, ok, Returns, returns, Returns-bind, Returns-if, Returns-keep, Returns-choice,
  Returns-unless_null,
}
use distwalk_iouring.Memory.{Bytes, Any}
use distwalk_iouring.Memory.Access.{read_u32-Returns}
use distwalk_iouring.Message.{
  CommandType, compute, is_eom, cmd_type_size, command_at, cmd_in_bounds, cmd_next,
  cmd_bounded_next, skip_context, skip_contexts, nested_after, cmd_bounded_skip,
}

pub cmd_type_size_bounds : (t : CommandType) → (4 ≤ cmd_type_size t) × (cmd_type_size t ≤ 28)
unfolding cmd_type_size
cmd_type_size_bounds compute = omega arith
cmd_type_size_bounds t = omega arith

-- The header of the command at `cmd` can be read, and the whole command lies before `msg_end`.
pub record InBounds (b : Bytes) (msg_end cmd : ℕ) : Type 0 where
  pub kind : CommandType
  pub reads : command_at b cmd ≡ ok kind
  pub inside : cmd + cmd_type_size kind ≤ msg_end

-- NULL, or a command in bounds that lies `step` bytes past `from` at least
abbrev pub NullOrPast : Bytes → ℕ → ℕ → Option ℕ → Type 0
NullOrPast b msg_end from none = Unit {0}
NullOrPast b msg_end from (some p) = InBounds b msg_end p × (from ≤ p)

pub weaken :
    {b : Bytes} {msg_end p q : ℕ} {r : Run (Option ℕ)}
    → q ≤ p
    → Returns (NullOrPast b msg_end p) r
    → Returns (NullOrPast b msg_end q) r
weaken h (returns {value = none} k) = returns tt
weaken h (returns {value = some p} (i, k)) = returns (i, omega arith)

module _ (b : Bytes) (msg_end : ℕ) (fits : msg_end ≤ length b) where
  pub command_at-Returns : (cmd : ℕ) → cmd + 4 ≤ msg_end → Returns Any (command_at b cmd)
  unfolding command_at
  command_at-Returns cmd h = Returns-bind (read_u32-Returns b cmd (omega arith)) λ v _. returns tt

  -- What a true cmd_in_bounds() tells.
  pub cmd_in_bounds-Returns :
      (cmd : ℕ) → Returns (λ r. r ≡ true → InBounds b msg_end cmd) (cmd_in_bounds b cmd msg_end)
  unfolding cmd_in_bounds
  cmd_in_bounds-Returns cmd =
      Returns-if (ltb msg_end (cmd + 4)) (λ short. returns λ e. cc)
        λ long.
          Returns-bind (Returns-keep (command_at-Returns cmd (ground arith)))
            λ t h. returns λ e. record { kind = t; reads = h.0; inside = leb→le _ _ e }

  pub InBounds-reads : {cmd : ℕ} → InBounds b msg_end cmd → Returns Any (command_at b cmd)
  InBounds-reads i = rw i.reads (returns tt)

  -- With the end of the message inside the buffer, cmd_bounded_next() at a command in bounds returns
  -- NULL or a command that is in bounds, at least 4 bytes on.
  pub cmd_bounded_next-Returns :
      {cmd : ℕ}
      → InBounds b msg_end cmd
      → Returns (NullOrPast b msg_end (cmd + 4)) (cmd_bounded_next b cmd msg_end)
  unfolding cmd_bounded_next cmd_next
  cmd_bounded_next-Returns {cmd} i = rw i.reads (
      Returns-bind (cmd_in_bounds-Returns (cmd + cmd_type_size i.kind)) λ r h.
        Returns-choice r (some (cmd + cmd_type_size i.kind)) none
          (λ e. (h e, omega (arith, cmd_type_size_bounds i.kind))) (λ _. tt))

  -- One context: the search ends, and stops at NULL or at a command in bounds further on.
  pub skip_context-Returns :
      (fuel : ℕ) (nested : ℤ) {cmd : ℕ}
      → msg_end ≤ fuel + cmd
      → InBounds b msg_end cmd
      → Returns (NullOrPast b msg_end (cmd + 4)) (skip_context fuel b msg_end nested cmd)
  unfolding skip_context
  skip_context-Returns zero nested f i =
      absurd (omega (arith, i.inside, cmd_type_size_bounds i.kind))
  skip_context-Returns (suc fuel) nested {cmd} f i =
      Returns-unless_null (cmd_bounded_next-Returns i) (λ _. returns tt)
        λ next (inside, past). Returns-bind (InBounds-reads i) λ t _.
          Returns-bind (InBounds-reads inside) λ after _.
            Returns-if (not (is_eom after) && ltb_ℤ (pos 0) (nested_after t after nested))
              (λ _. weaken (omega arith) (
                skip_context-Returns fuel (nested_after t after nested)
                  (omega (arith, i.inside, cmd_type_size_bounds i.kind)) inside))
              (λ _. returns {value = some next} (inside, past))

  pub skip_contexts-Returns :
      (to_skip : ℕ) {cmd : ℕ}
      → InBounds b msg_end cmd
      → Returns
          (NullOrPast b msg_end (cmd + 4 * min 1 to_skip))
          (skip_contexts to_skip b msg_end cmd)
  unfolding skip_contexts
  skip_contexts-Returns zero i = Returns-bind (InBounds-reads i) λ t _. returns (i, omega arith)
  skip_contexts-Returns (suc to_skip) {cmd} i = Returns-bind (InBounds-reads i) λ t _.
      Returns-if (is_eom t) (λ _. returns tt)
        λ _.
          Returns-unless_null
            (skip_context-Returns msg_end (pos 0)
              (omega (arith, i.inside, cmd_type_size_bounds i.kind)) i)
            (λ _. returns tt)
            λ next (inside, past). weaken (omega arith) (skip_contexts-Returns to_skip inside)

  -- With the end of the message inside the buffer, and whatever the bytes, cmd_bounded_skip() reads
  -- nothing outside the buffer, ends, and returns NULL or a command that lies in bounds, past the
  -- start unless nothing was to be skipped.
  pub cmd_bounded_skip-Returns :
      (cmd to_skip : ℕ)
      → Returns
          (NullOrPast b msg_end (cmd + 4 * min 1 to_skip))
          (cmd_bounded_skip b (some cmd) to_skip msg_end)
  unfolding cmd_bounded_skip
  cmd_bounded_skip-Returns cmd to_skip =
      Returns-bind (cmd_in_bounds-Returns cmd)
        λ r h. Returns-if r (λ e. skip_contexts-Returns to_skip (h e)) (λ _. returns tt)
