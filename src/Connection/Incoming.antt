-- ===== src/Connection/Incoming.antt =====
-- src/connection.c, conn_prepare_recv_message(): the messages that are cut out of what has come in.
use distwalk_iouring.Prelude.{
  ℕ, ◌+◌, ◌-◌, ◌≤◌, ◌<◌, ◌≡◌, refl, ◌⊎◌, inl, inr, true, false, Option, none, some, arith, length,
  leb, ltb, ◌&&◌,
}
use distwalk_iouring.Prelude.Run.{
  ok, aborted, Returns, returns, Returns-bind, Returns-if, Returns-keep,
}
use distwalk_iouring.Memory.{Bytes, Any}
use distwalk_iouring.Memory.Access.{read_u32-Returns}
use distwalk_iouring.Message.{message_size}
use distwalk_iouring.Connection.{buf_size, Connection, conn_prepare_recv_message}
use distwalk_iouring.Connection.Receive.{IsReceiving, sub_word-exact}

-- What conn_prepare_recv_message() returns: nothing while the next message, or its header, has not
-- come in whole; or the next message, which has, and which is then taken as handed out.
abbrev pub Prepared : Connection → Option ℕ × Connection → Type 0
Prepared c (none, c') =
    (c' ≡ c)
    × ((c.curr_recv_buf - c.curr_proc_buf < 12)
        ⊎ ((n : ℕ) × (message_size c.recv_buf c.curr_proc_buf ≡ ok n)
            × (c.curr_recv_buf < c.curr_proc_buf + n)))
Prepared c (some m, c') =
    (n : ℕ) × (m ≡ c.curr_proc_buf)
    × (message_size c.recv_buf m ≡ ok n)
    × (12 ≤ n)
    × (m + n ≤ c.curr_recv_buf)
    × (c' ≡ record c { curr_proc_buf = m + n })
    × IsReceiving c'

message_size-Returns : (b : Bytes) (m : ℕ) → m + 8 ≤ length b → Returns Any (message_size b m)
unfolding message_size
message_size-Returns b m h = read_u32-Returns b (m + 4) (omega arith)

not_less : (m n : ℕ) → ltb m n ≡ false → n ≤ m
not_less m n h = ground arith

less : (m n : ℕ) → ltb m n ≡ true → m < n
less m n h = ground arith

-- conn_prepare_recv_message() on a valid receive buffer whose next header does not claim a size
-- below that of a header: it ends without an access outside the buffer, and returns the next message
-- exactly when that has come in whole.
pub conn_prepare_recv_message-Prepared :
    (c : Connection)
    → IsReceiving c
    → ((n : ℕ) → message_size c.recv_buf c.curr_proc_buf ≡ ok n → 12 ≤ n)
    → Returns (Prepared c) (conn_prepare_recv_message c)
unfolding conn_prepare_recv_message
conn_prepare_recv_message-Prepared c v big =
    rw (sub_word-exact c.curr_recv_buf c.curr_proc_buf v.handed) (
      Returns-if (ltb (c.curr_recv_buf - c.curr_proc_buf) 12)
        (λ e. returns {value = (none, c)} (refl, inl (less _ _ e)))
        (λ e.
          let enough = not_less _ _ e in
          Returns-bind
            (Returns-keep (
              message_size-Returns c.recv_buf c.curr_proc_buf
                (omega (arith, v.memory, v.accounted, v.handed))))
            λ n (en, _).
              Returns-if (ltb (c.curr_recv_buf - c.curr_proc_buf) n)
                (λ e'.
                  returns {value = (none, c)}
                    (refl, inr (n, en, omega (arith, less _ _ e', v.handed))))
                (λ e'.
                  let here = not_less _ _ e' in
                  let passes : leb 12 n && leb n buf_size ≡ true =
                    both_le 12 n buf_size (big n en) (omega (arith, v.accounted)) in
                  rw passes (
                    returns {value = (some c.curr_proc_buf, _)} (
                      n,
                      refl,
                      en,
                      big n en,
                      omega (arith, v.handed),
                      refl,
                      record {
                        memory = v.memory;
                        accounted = v.accounted;
                        handed = omega (arith, v.handed);
                      },
                    )))))
  where
    both_le : (a b c : ℕ) → a ≤ b → b ≤ c → leb a b && leb b c ≡ true
    both_le a b c h k = ground arith

-- A header that has come in, of a message that claims a size below that of a header, makes
-- conn_prepare_recv_message() abort the program.
pub conn_prepare_recv_message-aborts :
    (c : Connection) (n : ℕ)
    → IsReceiving c
    → c.curr_proc_buf + 12 ≤ c.curr_recv_buf
    → message_size c.recv_buf c.curr_proc_buf ≡ ok n
    → n < 12
    → conn_prepare_recv_message c ≡ aborted
unfolding conn_prepare_recv_message
conn_prepare_recv_message-aborts c n v h e small =
    rw (sub_word-exact c.curr_recv_buf c.curr_proc_buf v.handed, e) (ground arith)
