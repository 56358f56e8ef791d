-- ===== src/Connection/Sending.antt =====
-- The send buffer of a connection: the bytes that wait, and where the next message goes.
use distwalk_iouring.Prelude.{
  ℕ, zero, suc, ◌+◌, ◌-◌, ◌≤◌, ◌<◌, ◌≡◌, refl, ◌⊎◌, inl, inr, Bool, true, false, arith, length,
  ◌==◌, if◌then◌else◌,
}
use distwalk_iouring.Prelude.Int.{ℤ, pos, negsuc}
use distwalk_iouring.Prelude.Run.{ok, Returns, Returns-choice}
use distwalk_iouring.Message.{message_size}
use distwalk_iouring.Connection.{buf_size, Connection, Address, Status}
use distwalk_iouring.Connection.Send.{
  again, closed, other, SendResult, sent, send_error, SslWriteResult, ssl_sent, ssl_want,
  ssl_zero_return, ssl_error, advance, conn_ssl_send, plain_send, conn_send, conn_start_send,
  must_wait,
}
use distwalk_iouring.Connection.Receive.{sub_word-exact}

-- The bytes that wait lie in the buffer.
pub record IsSending (c : Connection) : Type 0 where
  pub memory : length c.send_buf ≡ buf_size
  pub waiting : c.curr_send_buf + c.curr_send_size ≤ buf_size

-- The answers name no more bytes than were to be sent.
abbrev pub FitsSend : Connection → SendResult → Type 0
FitsSend c (sent n _) = n ≤ c.curr_send_size
FitsSend c _ = Unit {0}

abbrev pub FitsSslWrite : Connection → SslWriteResult → Type 0
FitsSslWrite c (ssl_sent n) = n ≤ c.curr_send_size
FitsSslWrite c _ = Unit {0}

-- What conn_send() leaves when it returns `v`: `n` bytes less to send, those that it returns, from
-- further on in the same buffer; or -1 and no change.
pub record Went (c : Connection) (n : ℕ) (c' : Connection) : Type 0 where
  pub valid : IsSending c'
  pub same : c'.send_buf ≡ c.send_buf
  pub less : c'.curr_send_size + n ≡ c.curr_send_size
  pub place : 0 < c'.curr_send_size → c'.curr_send_buf ≡ c.curr_send_buf + n

abbrev pub SendOutcome : Connection → ℤ × Connection → Type 0
SendOutcome c (v, c') = ((n : ℕ) × (v ≡ pos n) × Went c n c') ⊎ ((v ≡ negsuc 0) × (c' ≡ c))

Went-zero : {c : Connection} (s : Status) → IsSending c → Went c 0 (record c { status = s })
Went-zero s v = record {
  valid = record { memory = v.memory; waiting = v.waiting };
  same = refl;
  less = omega arith;
  place = λ h. omega arith;
}

advance-Went :
    {c : Connection} (n : ℕ) (s : Status)
    → IsSending c
    → n ≤ c.curr_send_size
    → Went c n (record (advance c n) { status = s })
unfolding advance
advance-Went {c} n s v h = rw (sub_word-exact c.curr_send_size n h) (record {
  valid = record {
    memory = v.memory;
    waiting = low c.curr_send_size c.curr_send_buf (c.curr_send_size - n) n h refl v.waiting;
  };
  same = refl;
  less = omega arith;
  place = λ p. there c.curr_send_buf (c.curr_send_size - n) n p;
})
  where
    low :
        (size p left n : ℕ)
        → n ≤ size
        → left ≡ size - n
        → p + size ≤ buf_size
        → (if left == 0 then 0 else p + n) + left ≤ buf_size
    low size p left n h e w = ground arith

    there : (p left n : ℕ) → 0 < left → (if left == 0 then 0 else p + n) ≡ p + n
    there p left n h = ground arith

conn_ssl_send-outcome :
    (c : Connection) (r : SslWriteResult)
    → IsSending c
    → FitsSslWrite c r
    → SendOutcome c (conn_ssl_send c r)
unfolding conn_ssl_send
conn_ssl_send-outcome c (ssl_sent n) v h = inl (n, refl, advance-Went n _ v h)
conn_ssl_send-outcome c ssl_want v h = inl (0, refl, Went-zero _ v)
conn_ssl_send-outcome c ssl_zero_return v h = inl (0, refl, Went-zero _ v)
conn_ssl_send-outcome c ssl_error v h = inr (refl, refl)

plain_send-outcome :
    (c : Connection) (r : SendResult) → IsSending c → FitsSend c r → SendOutcome c (plain_send c r)
unfolding plain_send
plain_send-outcome c (sent zero e) v h = inl (0, refl, Went-zero _ v)
plain_send-outcome c (sent (suc n) e) v h = inl (suc n, refl, advance-Went (suc n) _ v h)
plain_send-outcome c (send_error again) v h = inl (0, refl, Went-zero _ v)
plain_send-outcome c (send_error closed) v h = inl (0, refl, Went-zero _ v)
plain_send-outcome c (send_error other) v h = inr (refl, refl)

-- conn_send() on a valid send buffer, with answers of the kernel and of OpenSSL that name no more
-- bytes than were to be sent: either it returns a number of bytes, and that many less wait, from
-- that much further on unless none is left; or it returns -1 and changes nothing.
pub conn_send-outcome :
    (c : Connection) (r : SendResult) (ssl : SslWriteResult)
    → IsSending c
    → FitsSend c r
    → FitsSslWrite c ssl
    → SendOutcome c (conn_send c r ssl)
unfolding conn_send
conn_send-outcome c r ssl v h k = go c.use_ssl
  where
    go : (b : Bool) → SendOutcome c (if b then conn_ssl_send c ssl else plain_send c r)
    go true = conn_ssl_send-outcome c ssl v k
    go false = plain_send-outcome c r v h

-- The connection when `n` bytes more wait, for `target`.
abbrev pub queued : Connection → Address → ℕ → Connection
queued c target n = record c {
  target = target;
  curr_send_buf = if c.curr_send_size == 0 then 0 else c.curr_send_buf;
  curr_send_size = c.curr_send_size + n;
}

-- conn_start_send() on a valid send buffer, of a message of `n` bytes that fits behind the bytes that
-- wait, and with answers of the kernel and of OpenSSL that name no more bytes than were to be sent:
-- as many bytes more wait; while the connection is not established nothing is sent and the
-- result is 0, and otherwise conn_send() is left to send what waits.
pub conn_start_send-counts :
    (c : Connection) (target : Address) (n : ℕ) (r : SendResult) (ssl : SslWriteResult)
    → IsSending c
    → message_size c.send_buf c.curr_send_size ≡ ok n
    → c.curr_send_buf + c.curr_send_size + n ≤ buf_size
    → FitsSend (queued c target n) r
    → FitsSslWrite (queued c target n) ssl
    → Returns
        (λ (x : ℤ × Connection).
          IsSending (queued c target n)
          × (((must_wait c.status ≡ true) × (x ≡ (pos 0, queued c target n)))
              ⊎ ((must_wait c.status ≡ false) × SendOutcome (queued c target n) x)))
        (conn_start_send c target r ssl)
unfolding conn_start_send
conn_start_send-counts c target n r ssl v e room h k = rw e (
    Returns-choice (must_wait c.status) (pos 0, queued c target n)
      (conn_send (queued c target n) r ssl) (λ w. (valid, inl (w, refl)))
      (λ w. (valid, inr (w, conn_send-outcome (queued c target n) r ssl valid h k))))
  where
    fits :
        (p size : ℕ)
        → p + size + n ≤ buf_size
        → (if size == 0 then 0 else p) + (size + n) ≤ buf_size
    fits p size l = ground arith

    valid : IsSending (queued c target n)
    valid = record { memory = v.memory; waiting = fits c.curr_send_buf c.curr_send_size room }
