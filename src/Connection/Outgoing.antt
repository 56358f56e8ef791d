-- ===== src/Connection/Outgoing.antt =====
-- src/connection.c, conn_prepare_send_message(): where the next message goes.
use distwalk_iouring.Prelude.{ℕ, ◌+◌, ◌-◌, ◌%◌, ◌^◌, ◌≤◌, ◌<◌, ◌≡◌, refl, ap, ◌∙◌, true, arith, leb}
use distwalk_iouring.Prelude.Run.{ok, Returns, returns, Returns-bind}
use distwalk_iouring.Memory.{read_u8}
use distwalk_iouring.Memory.Access.{write_u32-Returns}
use distwalk_iouring.Message.{message_size}
use distwalk_iouring.Connection.{buf_size, Connection, get_send_buf, conn_prepare_send_message}
use distwalk_iouring.Connection.Receive.{sub_word-exact}
use distwalk_iouring.Connection.Sending.{IsSending}

-- What conn_prepare_send_message() leaves: a message at `m` that may take the rest of the buffer.
pub record HasRoom (c : Connection) (m : ℕ) (c' : Connection) : Type 0 where
  pub valid : IsSending c'
  pub behind : m ≡ c.curr_send_buf + c.curr_send_size
  pub total : message_size c'.send_buf m ≡ ok (buf_size - m)
  pub kept : (i : ℕ) → i < m → read_u8 c'.send_buf i ≡ read_u8 c.send_buf i

small : (n : ℕ) → n ≤ buf_size → n % 2 ^ 32 ≡ n
small n h = omega arith

-- conn_prepare_send_message() on a valid send buffer whose waiting bytes start at the start of the
-- buffer, with room for a header: the message lies behind the bytes that wait, which stay, and its
-- size is the room that is left.
pub conn_prepare_send_message-HasRoom :
    (c : Connection)
    → IsSending c
    → c.curr_send_buf ≡ 0
    → c.curr_send_size + 8 ≤ buf_size
    → Returns (λ (r : ℕ × Connection). HasRoom c r.0 r.1) (conn_prepare_send_message c)
unfolding conn_prepare_send_message message_size
conn_prepare_send_message-HasRoom c v e h =
    rw (sub_word-exact buf_size (c.curr_send_buf + c.curr_send_size) v.waiting) (
      Returns-bind (write_u32-Returns c.send_buf (c.curr_send_size + 4) _ (omega (arith, v.memory)))
        λ b (s, r). returns (record {
          valid = record { memory = s.size ∙ v.memory; waiting = v.waiting };
          behind = omega arith;
          total = r ∙ ap ok (small _ (omega arith) ∙ room);
          kept = λ i l. s.below i (omega arith);
        }))
  where
    room : buf_size - (c.curr_send_buf + c.curr_send_size) ≡ buf_size - c.curr_send_size
    room = omega arith

-- conn_prepare_send_message() after a part of the buffer has gone out, of more than 4 bytes and no
-- more than 4 above what is left, with 8 bytes of the buffer behind that: it puts the message where bytes still wait, and its size field
-- over some of them, while get_send_buf() gives the place behind them.
pub conn_prepare_send_message-overwrites :
    (c : Connection)
    → IsSending c
    → 4 < c.curr_send_buf
    → c.curr_send_buf ≤ c.curr_send_size + 4
    → c.curr_send_size + 8 ≤ buf_size
    → Returns
        (λ (r : ℕ × Connection).
          (r.0 + c.curr_send_buf ≡ c.curr_send_buf + c.curr_send_size)
          × (c.curr_send_buf ≤ r.0 + 4)
          × (r.0 + 4 < c.curr_send_buf + c.curr_send_size)
          × (message_size r.1.send_buf r.0 ≡ ok (buf_size - (c.curr_send_buf + c.curr_send_size)))
          × (get_send_buf c 0 ≡ ok (c.curr_send_buf + c.curr_send_size)))
        (conn_prepare_send_message c)
unfolding conn_prepare_send_message message_size get_send_buf
conn_prepare_send_message-overwrites c v h k room =
    rw (sub_word-exact buf_size (c.curr_send_buf + c.curr_send_size) v.waiting) (
      Returns-bind
        (write_u32-Returns c.send_buf (c.curr_send_size + 4) _ (omega (arith, v.memory, v.waiting)))
        λ b (s, r). returns (
          omega arith,
          omega arith,
          omega arith,
          r ∙ ap ok (small _ (omega arith)),
          rw passes refl,
        ))
  where
    passes : leb (c.curr_send_buf + c.curr_send_size + 0) buf_size ≡ true
    passes = let w = v.waiting in ground arith
