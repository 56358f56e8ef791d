-- ===== src/Connection/Receive.antt =====
-- The receive buffer of a connection: what has come in, and the messages that are cut out of it.
use distwalk_iouring.Prelude.{
  ℕ, ◌+◌, ◌-◌, ◌≤◌, ◌<◌, ◌≡◌, refl, ◌∙◌, false, arith, length, leb, leb→le,
}
use distwalk_iouring.Prelude.Int.{ℤ, pos}
use distwalk_iouring.Prelude.Run.{Returns, returns, Returns-bind, Returns-if}
use distwalk_iouring.Memory.{Bytes, read_u8}
use distwalk_iouring.Memory.Access.{copy_bytes-Returns}
use distwalk_iouring.Connection.{
  buf_size, Connection, Address, sub_word, is_handshake, RecvResult, received, recv_again,
  recv_error, SslReadResult, ssl_received, ssl_read_want, ssl_read_error, store_received,
  conn_ssl_recv, plain_recv, conn_recv,
}

-- The bytes up to `curr_recv_buf` have come in, the rest of the buffer is free, and the messages
-- before `curr_proc_buf` have been handed out.
pub record IsReceiving (c : Connection) : Type 0 where
  pub memory : length c.recv_buf ≡ buf_size
  pub accounted : c.curr_recv_buf + c.curr_recv_size ≡ buf_size
  pub handed : c.curr_proc_buf ≤ c.curr_recv_buf

-- What conn_recv() leaves of the bytes and messages that had come in before: all of it.
pub record Kept (c c' : Connection) : Type 0 where
  pub valid : IsReceiving c'
  pub handed : c'.curr_proc_buf ≡ c.curr_proc_buf
  pub more : c.curr_recv_buf ≤ c'.curr_recv_buf
  pub bytes : (i : ℕ) → i < c.curr_recv_buf → read_u8 c'.recv_buf i ≡ read_u8 c.recv_buf i

-- `d` has come in behind that.
pub record Stored (c : Connection) (d : Bytes) (c' : Connection) : Type 0 where
  pub kept : Kept c c'
  pub end : c'.curr_recv_buf ≡ c.curr_recv_buf + length d
  pub new : (i : ℕ) → i < length d → read_u8 c'.recv_buf (c.curr_recv_buf + i) ≡ read_u8 d i

pub sub_word-exact : (a b : ℕ) → b ≤ a → sub_word a b ≡ a - b
sub_word-exact a b h = ground arith

zero_add : (i : ℕ) → 0 + i ≡ i
zero_add i = omega arith

store_received-Stored :
    (c : Connection) (d : Bytes)
    → IsReceiving c
    → length d ≤ c.curr_recv_size
    → Returns (Stored c d) (store_received c d)
unfolding store_received
store_received-Stored c d v h =
    Returns-bind
      (copy_bytes-Returns (length d) d 0 c.recv_buf c.curr_recv_buf (omega arith)
        (omega (arith, v.memory, v.accounted)))
      λ b k. rw (sub_word-exact c.curr_recv_size (length d) h) (
        returns (record {
          kept = record {
            valid = record {
              memory = k.outside.size ∙ v.memory;
              accounted = omega (arith, v.accounted);
              handed = omega (arith, v.handed);
            };
            handed = refl;
            more = omega arith;
            bytes = k.outside.below;
          };
          end = refl;
          new = λ i l. rw (zero_add i) at (k.copied i l);
        }))

Kept-refl : {c : Connection} → IsReceiving c → Kept c c
Kept-refl v = record { valid = v; handed = refl; more = omega arith; bytes = λ i h. refl }

-- The answers of the kernel and of OpenSSL hold no more bytes than there was room for.
abbrev pub FitsRecv : Connection → RecvResult → Type 0
FitsRecv c (received d) = length d ≤ c.curr_recv_size
FitsRecv c _ = Unit {0}

abbrev pub FitsSslRead : Connection → SslReadResult → Type 0
FitsSslRead c (ssl_received d) = length d ≤ c.curr_recv_size
FitsSslRead c _ = Unit {0}

conn_ssl_recv-Kept :
    (c : Connection) (r : SslReadResult)
    → IsReceiving c
    → FitsSslRead c r
    → Returns (λ (x : ℤ × Connection). Kept c x.1) (conn_ssl_recv c r)
unfolding conn_ssl_recv
conn_ssl_recv-Kept c (ssl_received d) v h =
    Returns-if (is_handshake c.status) (λ _. returns (Kept-refl v))
      λ _.
        Returns-if (leb (length d) 0) (λ _. returns (Kept-refl v))
          λ _. Returns-bind (store_received-Stored c d v h) λ c' s. returns s.kept
conn_ssl_recv-Kept c ssl_read_want v h =
    Returns-if (is_handshake c.status) (λ _. returns (Kept-refl v)) (λ _. returns (Kept-refl v))
conn_ssl_recv-Kept c ssl_read_error v h =
    Returns-if (is_handshake c.status) (λ _. returns (Kept-refl v)) (λ _. returns (Kept-refl v))

module _ (c : Connection) (from : Address) (v : IsReceiving c) where
  abbrev addressed : Connection
  addressed = record c { target = from }

  addressed-IsReceiving : IsReceiving addressed
  addressed-IsReceiving = record { memory = v.memory; accounted = v.accounted; handed = v.handed }

  addressed-Kept : {c' : Connection} → Kept addressed c' → Kept c c'
  addressed-Kept k = record { valid = k.valid; handed = k.handed; more = k.more; bytes = k.bytes }

  plain_recv-Kept :
      (r : RecvResult)
      → FitsRecv c r
      → Returns (λ (x : ℤ × Connection). Kept c x.1) (plain_recv c from r)
  unfolding plain_recv
  plain_recv-Kept (received d) h =
      Returns-if (leb (length d) 0)
        (λ _. returns (addressed-Kept (Kept-refl addressed-IsReceiving)))
        (λ _.
          Returns-bind (store_received-Stored addressed d addressed-IsReceiving h)
            λ c' s. returns (addressed-Kept s.kept))
  plain_recv-Kept recv_again h = returns (Kept-refl v)
  plain_recv-Kept recv_error h = returns (Kept-refl v)

-- conn_recv() on a valid receive buffer, with an answer of the kernel or of OpenSSL that fits into
-- the room that is left, ends without an access outside the buffer; whatever the answer is, the
-- buffer stays valid, and the bytes that had come in, and the place of the next message, stay.
pub conn_recv-Kept :
    (c : Connection) (from : Address) (r : RecvResult) (ssl : SslReadResult)
    → IsReceiving c
    → FitsRecv c r
    → FitsSslRead c ssl
    → Returns (λ (x : ℤ × Connection). Kept c x.1) (conn_recv c from r ssl)
unfolding conn_recv
conn_recv-Kept c from r ssl v h k =
    Returns-if c.use_ssl (λ _. conn_ssl_recv-Kept c ssl v k) (λ _. plain_recv-Kept c from v r h)

-- conn_recv() without SSL, of one byte or more that fit into the room that is left, returns 1 and
-- stores them behind the bytes that had come in, which stay.
pub conn_recv-Stored :
    (c : Connection) (from : Address) (d : Bytes) (ssl : SslReadResult)
    → IsReceiving c
    → c.use_ssl ≡ false
    → 0 < length d
    → length d ≤ c.curr_recv_size
    → Returns
        (λ (x : ℤ × Connection). (x.0 ≡ pos 1) × Stored (record c { target = from }) d x.1)
        (conn_recv c from (received d) ssl)
unfolding conn_recv plain_recv
conn_recv-Stored c from d ssl v plain some_byte h =
    Returns-if c.use_ssl (λ e. cc)
      λ _.
        Returns-if (leb (length d) 0) (λ e. absurd (omega (arith, leb→le _ _ e)))
          λ _.
            Returns-bind
              (store_received-Stored (addressed c from v) d (addressed-IsReceiving c from v) h)
              λ c' s. returns (refl, s)
