-- ===== src/Server/SameRecv.antt =====
-- src/connection.c, conn_start_send(): what it leaves of the side that receives.
use distwalk_iouring.Prelude.{
  ℕ, ℕ_discrete, zero, suc, ◌≡◌, ◌≢◌, length, refl, ap, Bool, true, false, Option, if◌then◌else◌,
}
use distwalk_iouring.Prelude.Int.{ℤ, pos}
use distwalk_iouring.Memory.{Bytes}
use distwalk_iouring.Message.{message_size}
use distwalk_iouring.Connection.{Connection, Address}
use distwalk_iouring.Connection.Send.{
  again, closed, other, SendResult, sent, send_error, SslWriteResult, ssl_sent, ssl_want,
  ssl_zero_return, ssl_error, advance, conn_ssl_send, plain_send, conn_send, conn_start_send,
  must_wait,
}
use distwalk_iouring.Connection.Sending.{queued}
use distwalk_iouring.Conns.{Conns}
use distwalk_iouring.Server.Kept.{KeepsTable, IfReturns, if_ok, IfReturns-bind}

-- The fields of the side that receives.
pub record RecvSide : Type 0 where
  pub buf : Bytes
  pub received : ℕ
  pub room : ℕ
  pub handed : ℕ
  pub list : Option ℕ
  pub defrag : Bool

abbrev pub recv_side : Connection → RecvSide
recv_side c = record {
  buf = c.recv_buf;
  received = c.curr_recv_buf;
  room = c.curr_recv_size;
  handed = c.curr_proc_buf;
  list = c.req_list;
  defrag = c.enable_defrag;
}

abbrev pub SameRecv : Connection → Connection → Type 0
SameRecv c d = recv_side d ≡ recv_side c

conn_ssl_send-SameRecv : (c : Connection) (r : SslWriteResult) → SameRecv c (conn_ssl_send c r).1
unfolding conn_ssl_send advance
conn_ssl_send-SameRecv c (ssl_sent n) = refl
conn_ssl_send-SameRecv c ssl_want = refl
conn_ssl_send-SameRecv c ssl_zero_return = refl
conn_ssl_send-SameRecv c ssl_error = refl

plain_send-SameRecv : (c : Connection) (r : SendResult) → SameRecv c (plain_send c r).1
unfolding plain_send advance
plain_send-SameRecv c (sent zero e) = refl
plain_send-SameRecv c (sent (suc n) e) = refl
plain_send-SameRecv c (send_error again) = refl
plain_send-SameRecv c (send_error closed) = refl
plain_send-SameRecv c (send_error other) = refl

conn_send-SameRecv :
    (c : Connection) (r : SendResult) (ssl : SslWriteResult) → SameRecv c (conn_send c r ssl).1
unfolding conn_send
conn_send-SameRecv c r ssl = go c.use_ssl
  where
    go : (b : Bool) → SameRecv c (if b then conn_ssl_send c ssl else plain_send c r).1
    go true = conn_ssl_send-SameRecv c ssl
    go false = plain_send-SameRecv c r

pub conn_start_send-SameRecv :
    (c : Connection) (target : Address) (r : SendResult) (ssl : SslWriteResult)
    → IfReturns (λ (x : ℤ × Connection). SameRecv c x.1) (conn_start_send c target r ssl)
unfolding conn_start_send
conn_start_send-SameRecv c target r ssl =
    IfReturns-bind (message_size c.send_buf c.curr_send_size)
      λ n _. if_ok (go n (must_wait c.status))
  where
    go :
        (n : ℕ) (b : Bool)
        → SameRecv c
            (if b then (pos 0, queued c target n) else conn_send (queued c target n) r ssl).1
    go n true = refl
    go n false = conn_send-SameRecv (queued c target n) r ssl

-- A table in which one connection has changed, but for what it receives.
pub KeepsTable-conn :
    (s t : Conns) (c : ℕ)
    → ((d : ℕ) → d ≢ c → t.conns d ≡ s.conns d)
    → SameRecv (s.conns c) (t.conns c)
    → t.requests ≡ s.requests
    → KeepsTable s t c
KeepsTable-conn s t c others same reqs = record {
  list = λ d. elim (ℕ_discrete d c) [
    | yes e ↦ rw e (ap (λ x. x.list) same)
    | no ne ↦ ap (λ x. x.req_list) (others d ne)
  ];
  defrag = ap (λ x. x.defrag) same;
  memory = ap (λ x. length x.buf) same;
  received = ap (λ x. x.received) same;
  room = ap (λ x. x.room) same;
  handed = ap (λ x. x.handed) same;
  links = λ k. record {
    prev = ap (λ x. (x.reqs k).prev) reqs;
    next = ap (λ x. (x.reqs k).next) reqs;
    id = ap (λ x. (x.reqs k).req_id) reqs;
  };
  message = λ k. ap (λ x. (x.reqs k).message_ptr) reqs;
  cmd = λ k. ap (λ x. (x.reqs k).curr_cmd) reqs;
}
