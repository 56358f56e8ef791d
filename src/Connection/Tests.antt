-- ===== src/Connection/Tests.antt =====
-- A connection with a message of 20 bytes in its receive buffer and 30 bytes that wait to be sent.
use distwalk_iouring.Prelude.{
  ℕ, ◌+◌, ◌-◌, ◌≤◌, ◌<◌, ◌≡◌, refl, none, sym, ap, ◌∙◌, true, false, [], ◌∷◌, ◌++◌, arith, length,
  replicate, length-replicate,
}
use distwalk_iouring.Prelude.Int.{ℤ, pos, negsuc}
use distwalk_iouring.Prelude.Run.{Run, ok, Returns}
use distwalk_iouring.Memory.{Bytes, read_u8, read_u32}
use distwalk_iouring.Message.{message_size}
use distwalk_iouring.Connection.{
  buf_size, Address, tcp, Connection, ready, reply_mode_normal, get_send_buf, conn_recv, received,
  ssl_read_want, conn_prepare_recv_message, conn_prepare_send_message,
}
use distwalk_iouring.Connection.Send.{sent, other, ssl_want, conn_start_send}
use distwalk_iouring.Connection.Receive.{IsReceiving, Kept, conn_recv-Kept}
use distwalk_iouring.Connection.Incoming.{Prepared, conn_prepare_recv_message-Prepared}
use distwalk_iouring.Connection.Sending.{IsSending}
use distwalk_iouring.Connection.Started.{Started, conn_start_send-Started}
use distwalk_iouring.Connection.Outgoing.{conn_prepare_send_message-overwrites}

zeros : (n : ℕ) → (b : Bytes) × (length b ≡ n)
zeros n = (replicate n 0, length-replicate n 0)

rest : Bytes
rest = (zeros 16777166).0

length-rest : length rest ≡ 16777166
unfolding rest
length-rest = (zeros 16777166).1

-- Fifty bytes, with the number `n` where the size of a message is, at 4 and at 34.
abbrev buffer : ℕ → Bytes
buffer n = 1 ∷ 0 ∷ 0 ∷ 0 ∷ n ∷ replicate 25 0 ++ 2 ∷ 0 ∷ 0 ∷ 0 ∷ n ∷ replicate 15 0 ++ rest

abbrev peer : Address
peer = record { sin_addr = 1; sin_port = 7891 }

abbrev connection : ℕ → ℕ → Connection
connection n start = record {
  proto = tcp;
  sock = pos 5;
  status = ready;
  target = peer;
  recv_buf = buffer n;
  send_buf = buffer n;
  curr_recv_buf = 24;
  curr_recv_size = 16777192;
  curr_proc_buf = 0;
  curr_send_buf = start;
  curr_send_size = 30;
  file_fd = negsuc 0;
  file_offset = 0;
  file_remaining = 0;
  reply_mode = reply_mode_normal;
  req_list = none;
  serialize_request = false;
  parent_thread = 0;
  busy = true;
  enable_defrag = true;
  is_listen = false;
  use_ssl = false;
  ssl_handshake_done = false;
  ssl_is_server = false;
}

connection-IsReceiving : (n start : ℕ) → IsReceiving (connection n start)
connection-IsReceiving n start = record {
  memory = omega (arith, length-rest);
  accounted = refl;
  handed = omega arith;
}

connection-IsSending : (n start : ℕ) → start ≤ 1000 → IsSending (connection n start)
connection-IsSending n start h = record {
  memory = omega (arith, length-rest);
  waiting = omega arith;
}

size_20 : message_size (buffer 20) 0 ≡ ok 20
unfolding message_size read_u32 read_u8
size_20 = refl

size_20-next : message_size (buffer 20) 30 ≡ ok 20
unfolding message_size read_u32 read_u8
size_20-next = refl

size_5 : message_size (buffer 5) 0 ≡ ok 5
unfolding message_size read_u32 read_u8
size_5 = refl

ok_20 : (n : ℕ) → message_size (buffer 20) 0 ≡ ok n → 12 ≤ n
ok_20 n e = omega (arith, ok_injective (sym size_20 ∙ e))
  where
    ok_value : Run ℕ → ℕ
    ok_value (ok a) = a
    ok_value _ = 0

    ok_injective : ok 20 ≡ ok n → 20 ≡ n
    ok_injective h = ap ok_value h

conn_recv-Kept_example :
    Returns
      (λ (x : ℤ × Connection). Kept (connection 20 0) x.1)
      (conn_recv (connection 20 0) peer (received (7 ∷ 8 ∷ [])) ssl_read_want)
conn_recv-Kept_example =
    conn_recv-Kept (connection 20 0) peer (received (7 ∷ 8 ∷ [])) ssl_read_want
      (connection-IsReceiving 20 0) (omega arith) tt

conn_prepare_recv_message-Prepared_example :
    Returns (Prepared (connection 20 0)) (conn_prepare_recv_message (connection 20 0))
conn_prepare_recv_message-Prepared_example =
    conn_prepare_recv_message-Prepared (connection 20 0) (connection-IsReceiving 20 0) ok_20

conn_prepare_send_message-overwrites_example :
    Returns
      (λ (r : ℕ × Connection).
        (r.0 + 10 ≡ 10 + 30)
        × (10 ≤ r.0 + 4)
        × (r.0 + 4 < 10 + 30)
        × (message_size r.1.send_buf r.0 ≡ ok (buf_size - (10 + 30)))
        × (get_send_buf (connection 20 10) 0 ≡ ok (10 + 30)))
      (conn_prepare_send_message (connection 20 10))
conn_prepare_send_message-overwrites_example =
    conn_prepare_send_message-overwrites (connection 20 10)
      (connection-IsSending 20 10 (omega arith)) (omega arith) (omega arith) (omega arith)

conn_start_send-Started_example :
    Returns
      (λ (x : ℤ × Connection). Started (connection 20 0) 20 x.0 x.1)
      (conn_start_send (connection 20 0) peer (sent 30 other) ssl_want)
conn_start_send-Started_example =
    conn_start_send-Started (connection 20 0) peer 20 (sent 30 other) ssl_want
      (connection-IsSending 20 0 (omega arith)) refl size_20-next (omega arith) (omega arith) tt
