-- ===== src/Connection/Send.antt =====
-- src/connection.c: what a connection sends, from its buffer and from a file.
use distwalk_iouring.Prelude.{
  ℕ, zero, suc, ◌+◌, ◌-◌, Bool, true, false, ◌&&◌, List, [], ◌∷◌, ltb, ◌==◌, if◌then◌else◌,
}
use distwalk_iouring.Prelude.Int.{ℤ, pos, negsuc}
use distwalk_iouring.Prelude.Run.{Run, ok, fault, out_of_fuel, ◌>>=◌}
use distwalk_iouring.Memory.{write_u32}
use distwalk_iouring.Message.{sizeof_message, message_size}
use distwalk_iouring.Connection.{
  Address, Connection, Status, not_init, ready, sending, connecting, ssl_handshake, closing,
  ReplyMode, reply_mode_normal, reply_mode_sendfile, reply_mode_other, sub_word,
}

-- errno: EAGAIN or EWOULDBLOCK, EPIPE or ECONNRESET, or another value
pub data Errno : Type 0 where
  again closed other : Errno

-- The answer of sendto() and send(): a number of bytes, with what errno holds at that time, or -1.
pub data SendResult : Type 0 where
  sent : ℕ → Errno → SendResult
  send_error : Errno → SendResult

-- The answer of SSL_write(): a positive number of bytes, or what SSL_get_error() says.
pub data SslWriteResult : Type 0 where
  ssl_sent : ℕ → SslWriteResult
  ssl_want ssl_zero_return ssl_error : SslWriteResult

-- The answer of sendfile().
pub data FileResult : Type 0 where
  released : ℕ → FileResult
  file_error : Errno → FileResult

-- `n` bytes of the buffer have gone out; a buffer that is empty is used from its start again.
unfoldable pub advance : Connection → ℕ → Connection
advance c n =
    let left = sub_word c.curr_send_size n in
    record c { curr_send_buf = if left == 0 then 0 else c.curr_send_buf + n; curr_send_size = left }

abbrev pub is_sending : Status → Bool
is_sending sending = true
is_sending _ = false

unfoldable pub conn_ssl_send : Connection → SslWriteResult → ℤ × Connection
conn_ssl_send c (ssl_sent n) = (pos n, advance c n)
conn_ssl_send c ssl_want = (pos 0, c)
conn_ssl_send c ssl_zero_return = (pos 0, record c { status = closing })
conn_ssl_send c ssl_error = (negsuc 0, c)

-- What conn_send() does with the answer of sendto().
unfoldable pub plain_send : Connection → SendResult → ℤ × Connection
plain_send c (sent zero _) = (pos 0, c)
plain_send c (sent (suc n) _) =
    let c' = advance c (suc n) in
    let emptied = c'.curr_send_size == 0 && is_sending c.status in
    (pos (suc n), record c' { status = if emptied then ready else c.status })
plain_send c (send_error again) = (pos 0, record c { status = sending })
plain_send c (send_error closed) = (pos 0, record c { status = closing })
plain_send c (send_error other) = (negsuc 0, c)

unfoldable pub conn_send : Connection → SendResult → SslWriteResult → ℤ × Connection
conn_send c r ssl = if c.use_ssl then conn_ssl_send c ssl else plain_send c r

-- The states in which nothing is sent yet.
abbrev pub must_wait : Status → Bool
must_wait connecting = true
must_wait ssl_handshake = true
must_wait not_init = true
must_wait _ = false

unfoldable pub conn_start_send :
    Connection → Address → SendResult → SslWriteResult → Run (ℤ × Connection)
conn_start_send c target r ssl = do
  n ← message_size c.send_buf c.curr_send_size
  let c' = record c {
    target = target;
    curr_send_buf = if c.curr_send_size == 0 then 0 else c.curr_send_buf;
    curr_send_size = c.curr_send_size + n;
  }
  ok (if must_wait c'.status then (pos 0, c') else conn_send c' r ssl)

-- The first loop of conn_send_v2(): the answers of send(), one by one. An error that is not named
-- is taken as -1 bytes sent. The result is 1 when the buffer has gone out, or -1.
unfoldable pub send_header : List SendResult → Connection → Run (ℤ × Connection)
send_header [] c = if c.curr_send_size == 0 then ok (pos 1, c) else out_of_fuel
send_header (r ∷ rs) c =
    let more = send_header rs in
    let step : SendResult → Run (ℤ × Connection) = λ x. elim x [
      | sent zero again ↦ more c
      | sent zero closed ↦ ok (negsuc 0, record c { status = closing })
      | sent zero other ↦ more c
      | sent (suc n) _ ↦ more (record c {
        curr_send_buf = c.curr_send_buf + suc n;
        curr_send_size = sub_word c.curr_send_size (suc n);
      })
      | send_error again ↦ more c
      | send_error closed ↦ ok (negsuc 0, record c { status = closing })
      | send_error other ↦
          if c.curr_send_buf == 0
          then fault
          else more (record c {
            curr_send_buf = c.curr_send_buf - 1;
            curr_send_size = c.curr_send_size + 1;
          })
    ] in
    if c.curr_send_size == 0 then ok (pos 1, c) else step r

-- The end of conn_send_v2(), once the whole file has gone out.
unfoldable pub finish_file : Connection → ℤ × Connection
finish_file c =
    if c.file_remaining == 0
    then (
      pos 1,
      record c { file_fd = negsuc 0; file_offset = 0; curr_send_buf = 0; status = ready },
    )
    else (pos 1, c)

-- The answer of sendfile(), which also advances the offset.
unfoldable pub send_file : Connection → FileResult → ℤ × Connection
send_file c (released n) =
    let c' = record c {
      file_offset = c.file_offset + n;
      file_remaining = sub_word c.file_remaining n;
    } in
    if ltb 0 c'.file_remaining then (pos 0, record c' { status = sending }) else finish_file c'
send_file c (file_error again) = (pos 0, record c { status = sending })
send_file c (file_error closed) = (negsuc 0, record c { status = closing })
send_file c (file_error other) = (negsuc 0, c)

unfoldable pub conn_send_v2 : Connection → List SendResult → FileResult → Run (ℤ × Connection)
conn_send_v2 c rs f = send_header rs c >>= λ h.
    let rest = if ltb 0 h.1.file_remaining then send_file h.1 f else finish_file h.1 in
    elim h.0 [ pos _ ↦ ok rest | negsuc _ ↦ ok h ]

unfoldable pub conn_start_sendfile :
    Connection → Address → ℤ → ℕ → ℕ → List SendResult → FileResult → Run (ℤ × Connection)
conn_start_sendfile c target fd offset size rs f = write_u32 c.send_buf 4 size >>= λ b.
    let c' = record c {
      target = target;
      send_buf = b;
      curr_send_buf = if c.curr_send_size == 0 then 0 else c.curr_send_buf;
      curr_send_size = sizeof_message;
      file_fd = fd;
      file_offset = offset;
      file_remaining = sub_word size sizeof_message;
    } in
    let go = conn_send_v2 c' rs f in if must_wait c'.status then ok (pos 0, c') else go

unfoldable pub conn_flush :
    Connection → SendResult → SslWriteResult → List SendResult → FileResult → Run (ℤ × Connection)
conn_flush c r ssl rs f =
    let mode : ReplyMode → Run (ℤ × Connection) = λ x. elim x [
      | reply_mode_normal ↦ ok (conn_send c r ssl)
      | reply_mode_sendfile ↦ conn_send_v2 c rs f
      | reply_mode_other _ ↦ ok (negsuc 0, c)
    ] in
    mode c.reply_mode
