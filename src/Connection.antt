-- ===== src/Connection.antt =====
-- src/connection.h and src/connection.c: the buffers and the status of one connection.
--
-- The two buffers are BUF_SIZE bytes each, and a pointer into one is an offset from its start. What
-- the kernel and OpenSSL answer is an argument of the operation that calls them. The sizes are
-- unsigned longs, whose subtraction wraps around.
pub mod Send
pub mod Receive
pub mod Incoming
pub mod Sending
pub mod Started
pub mod Outgoing
mod Tests
use distwalk_iouring.Prelude.{
  ℕ, ◌+◌, ◌-◌, ◌^◌, Bool, true, false, ◌&&◌, Option, none, some, length, ltb, leb, if◌then◌else◌,
}
use distwalk_iouring.Prelude.Int.{ℤ, pos, negsuc, ltb_ℤ}
use distwalk_iouring.Prelude.Run.{Run, ok, ◌>>=◌, ◌>>◌, check}
use distwalk_iouring.Memory.{Bytes, read_u32, write_u32, copy_bytes}
use distwalk_iouring.Message.{sizeof_message, message_size}

abbrev pub buf_size : ℕ
buf_size = 16777216

-- conn_status_t
pub data Status : Type 0 where
  not_init ready sending connecting ssl_handshake closing close : Status

pub data ReplyMode : Type 0 where
  reply_mode_normal reply_mode_sendfile : ReplyMode
  reply_mode_other : ℕ → ReplyMode

-- sockaddr_in
pub record Address : Type 0 where
  pub sin_addr : ℕ
  pub sin_port : ℕ

-- proto_t
pub data Proto : Type 0 where
  udp tcp tls dpdk other_proto : Proto

-- conn_info_t, but for the fields of DPDK and the handle of OpenSSL. A buffer that is NULL is empty;
-- `req_list` is the index of a request.
pub record Connection : Type 0 where
  pub proto : Proto
  pub sock : ℤ
  pub status : Status
  pub target : Address
  pub recv_buf : Bytes
  pub send_buf : Bytes
  pub curr_recv_buf : ℕ
  pub curr_recv_size : ℕ
  pub curr_proc_buf : ℕ
  pub curr_send_buf : ℕ
  pub curr_send_size : ℕ
  pub file_fd : ℤ
  pub file_offset : ℕ
  pub file_remaining : ℕ
  pub reply_mode : ReplyMode
  pub req_list : Option ℕ
  pub serialize_request : Bool
  pub parent_thread : ℕ
  pub busy : Bool
  pub enable_defrag : Bool
  pub is_listen : Bool
  pub use_ssl : Bool
  pub ssl_handshake_done : Bool
  pub ssl_is_server : Bool

-- a - b of two unsigned longs
abbrev pub sub_word : ℕ → ℕ → ℕ
sub_word a b = if leb b a then a - b else a + 2 ^ 64 - b

abbrev pub is_handshake : Status → Bool
is_handshake ssl_handshake = true
is_handshake _ = false

unfoldable pub conn_set_status : Connection → Status → Status × Connection
conn_set_status c status = (c.status, record c { status = status })

unfoldable pub get_send_buf : Connection → ℕ → Run ℕ
get_send_buf c size = do
  check (leb (c.curr_send_buf + c.curr_send_size + size) buf_size)
  ok (c.curr_send_buf + c.curr_send_size)

-- The message returned, and the connection with the size written into it.
unfoldable pub conn_prepare_send_message : Connection → Run (ℕ × Connection)
conn_prepare_send_message c = do
  let m = c.curr_send_size
  b ← write_u32 c.send_buf (m + 4) (sub_word buf_size (c.curr_send_buf + c.curr_send_size))
  ok (m, record c { send_buf = b })

unfoldable pub conn_prepare_recv_message : Connection → Run (Option ℕ × Connection)
conn_prepare_recv_message c =
    let msg_size = sub_word c.curr_recv_buf c.curr_proc_buf in
    let m = c.curr_proc_buf in
    let header = message_size c.recv_buf m >>= λ req_size.
    let whole =
      check (leb sizeof_message req_size && leb req_size buf_size)
      >> ok (some m, record c { curr_proc_buf = c.curr_proc_buf + req_size }) in
    if ltb msg_size req_size then ok (none, c) else whole in
    if ltb msg_size sizeof_message then ok (none, c) else header

-- The answer of recvfrom(): bytes, of which none say that the connection was closed, EAGAIN or
-- EWOULDBLOCK, or another error.
pub data RecvResult : Type 0 where
  received : Bytes → RecvResult
  recv_again recv_error : RecvResult

-- The answer of SSL_read(), with what SSL_get_error() says of a failure.
pub data SslReadResult : Type 0 where
  ssl_received : Bytes → SslReadResult
  ssl_read_want ssl_read_error : SslReadResult

-- The bytes that the kernel has stored, and the two fields that account for them.
unfoldable pub store_received : Connection → Bytes → Run Connection
store_received c d = do
  b ← copy_bytes (length d) d 0 c.recv_buf c.curr_recv_buf
  let c' = record c {
    recv_buf = b;
    curr_recv_buf = c.curr_recv_buf + length d;
    curr_recv_size = sub_word c.curr_recv_size (length d);
  }
  ok c'

unfoldable pub conn_ssl_recv : Connection → SslReadResult → Run (ℤ × Connection)
conn_ssl_recv c (ssl_received d) =
    let take = store_received c d >>= λ c'. ok (pos 1, c') in
    if is_handshake c.status
    then ok (pos 1, c)
    else if leb (length d) 0
    then ok (pos 0, c)
    else take
conn_ssl_recv c ssl_read_want = if is_handshake c.status then ok (pos 1, c) else ok (negsuc 0, c)
conn_ssl_recv c ssl_read_error = if is_handshake c.status then ok (pos 1, c) else ok (pos 0, c)

-- recvfrom() also stores the address of the sender.
unfoldable pub plain_recv : Connection → Address → RecvResult → Run (ℤ × Connection)
plain_recv c from (received d) =
    let c0 = record c { target = from } in
    let take = store_received c0 d >>= λ c'. ok (pos 1, c') in
    if leb (length d) 0 then ok (pos 0, c0) else take
plain_recv c from recv_again = ok (negsuc 0, c)
plain_recv c from recv_error = ok (pos 0, c)

unfoldable pub conn_recv : Connection → Address → RecvResult → SslReadResult → Run (ℤ × Connection)
conn_recv c from r ssl =
    let secured = conn_ssl_recv c ssl in
    let plain = plain_recv c from r in if c.use_ssl then secured else plain

-- The answer of SSL_accept() or SSL_connect().
pub data HandshakeResult : Type 0 where
  handshake_done handshake_want handshake_error : HandshakeResult

unfoldable pub conn_do_ssl_handshake : Connection → HandshakeResult → ℤ × Connection
conn_do_ssl_handshake c r =
    let answer : HandshakeResult → ℤ × Connection = λ x. elim x [
      | handshake_done ↦ (pos 1, record c { ssl_handshake_done = true; status = ready })
      | handshake_want ↦ (pos 0, c)
      | handshake_error ↦ (negsuc 0, c)
    ] in
    if is_handshake c.status then answer r else (pos 1, c)

-- SSL_new() and SSL_set_fd() succeed or not.
unfoldable pub conn_enable_ssl : Connection → Bool → Bool → Bool → ℤ × Connection
conn_enable_ssl c new_ok set_fd_ok is_server =
    if ltb_ℤ c.sock (pos 0)
    then (negsuc 0, c)
    else if c.use_ssl
    then (pos 0, c)
    else if new_ok && set_fd_ok
    then (
      pos 1,
      record c {
        use_ssl = true;
        ssl_handshake_done = false;
        ssl_is_server = is_server;
        status = ssl_handshake;
      },
    )
    else (negsuc 0, c)
