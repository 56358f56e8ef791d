-- ===== src/Server/Replied.antt =====
-- src/dw_node.c, reply(): the answer waits or is sent, and the request is done.
use distwalk_iouring.Prelude.{
  ℕ, ◌+◌, ◌-◌, ◌%◌, ◌^◌, ◌≤◌, ◌≡◌, ◌≢◌, refl, ap, ◌∙◌, ◌⊎◌, inl, inr, true, List, ◌∷◌, ◌++◌, arith,
  length, leb,
}
use distwalk_iouring.Prelude.Int.{ℤ, pos, negsuc, ◌-ℤ◌}
use distwalk_iouring.Prelude.Run.{
  ok, ◌>>=◌, Returns, returns, Returns-bind, Returns-map, Returns-keep, Returns-inv,
}
use distwalk_iouring.Prelude.Tables.{update, update_self, update_ne}
use distwalk_iouring.Memory.{Bytes, read_u8, read_u32}
use distwalk_iouring.Memory.Access.{SameOutside-trans}
use distwalk_iouring.Message.{message_size}
use distwalk_iouring.Connection.{Connection, Address, buf_size, reply_mode_normal}
use distwalk_iouring.Connection.Send.{SendResult, SslWriteResult, conn_start_send}
use distwalk_iouring.Connection.Receive.{IsReceiving}
use distwalk_iouring.Connection.Sending.{
  IsSending, FitsSend, FitsSslWrite, SendOutcome, queued, conn_start_send-counts,
}
use distwalk_iouring.Request.Table.{IsValid}
use distwalk_iouring.Conns.{conn_req_remove}
use distwalk_iouring.Conns.Chain.{IsList}
use distwalk_iouring.Conns.Members.{◌∈◌}
use distwalk_iouring.Conns.Defrag.{Messages, SameMessage}
use distwalk_iouring.Conns.Whole.{conn_req_remove-Removed}
use distwalk_iouring.Server.{Server, Host, home, conn_of, req_of, set_conn, tick}
use distwalk_iouring.Server.Reply.{reply_opts, status_at, send_reply, reply_to}
use distwalk_iouring.Server.Kept.{
  KeepsTable-IsList, KeepsTable-IsValid, KeepsTable-Messages, IfReturns-ok,
  conn_req_remove-SameSend,
}
use distwalk_iouring.Server.SameRecv.{
  SameRecv, KeepsTable-conn, recv_side, conn_start_send-SameRecv,
}
use distwalk_iouring.Server.Filled.{
  Answer, Prepared, fill_reply-Answer, conn_prepare_send_message-Prepared,
}

-- The answers of the kernel and of OpenSSL name no more bytes than are to be sent.
abbrev pub FitsAnswers : Host → ℕ → ℕ → Type 0
FitsAnswers h used size =
    (c : Connection)
    → c.curr_send_size ≡ size
    → FitsSend c (h.send used) × FitsSslWrite c (h.ssl_write used)

-- The request `r` of connection `c` has come to the REPLY at `cmd`, whose answer of `resp` bytes, with
-- the id and the status of its message at `m`, of `n` bytes, fits into the send buffer, which is used
-- from its start. The requests `is` came later than `r`, and `js` before it.
pub record Replies (h : Host) (s : Server) (c r m cmd n resp id st : ℕ) (is js : List ℕ)
    : Type 0 where
  pub at : home s r ≡ ok c
  pub live : IsValid s.table.requests
  pub list : IsList s.table c (is ++ r ∷ js)
  pub messages : Messages s.table c is r m n
  pub sending : IsSending (conn_of s c)
  pub start : (conn_of s c).curr_send_buf ≡ 0
  pub device : ℕ
  pub opts :
      reply_opts (conn_of s c).recv_buf cmd
      ≡ ok (record { resp_size = resp; mode = reply_mode_normal; dev_id = device })
  pub room : (conn_of s c).curr_send_size + 16 ≤ buf_size
  pub fits : (conn_of s c).curr_send_size + resp ≤ buf_size
  pub req_id : read_u32 (conn_of s c).recv_buf m ≡ ok id
  pub code : read_u32 (conn_of s c).recv_buf (status_at m) ≡ ok st
  pub answers : FitsAnswers h s.used ((conn_of s c).curr_send_size + resp)

-- What reply() returns and leaves: the answer is in the buffer, behind what waited; what is left to
-- send is all of that but for the bytes that it returns, or all when it returns -1; the request is
-- out of its list, and the messages of those that came later are whole.
pub record Replied (s : Server) (c r resp id st : ℕ) (is js : List ℕ) (o : ℤ × Server)
    : Type 0 where
  pub answer :
      Answer id st resp (conn_of s c).send_buf (conn_of s c).curr_send_size (conn_of o.1 c).send_buf
  pub sending : IsSending (conn_of o.1 c)
  pub sent : ℕ
  pub less : (conn_of o.1 c).curr_send_size + sent ≡ (conn_of s c).curr_send_size + resp
  pub result : (o.0 ≡ pos sent) ⊎ ((o.0 ≡ negsuc 0) × (sent ≡ 0))
  pub list : IsList o.1.table c (is ++ js)
  pub receiving : IsReceiving (conn_of o.1 c)
  pub newer : (k : ℕ) → k ∈ is → SameMessage s.table o.1.table c k
  pub active : o.1.active_reqs ≡ s.active_reqs -ℤ pos 1

-- What conn_start_send() leaves of a buffer with `total` bytes to send.
record Went (b : Bytes) (total : ℕ) (x : ℤ × Connection) : Type 0 where
  valid : IsSending x.1
  buf : x.1.send_buf ≡ b
  sent : ℕ
  less : x.1.curr_send_size + sent ≡ total
  result : (x.0 ≡ pos sent) ⊎ ((x.0 ≡ negsuc 0) × (sent ≡ 0))

Went-outcome :
    {q : Connection} {x : ℤ × Connection}
    → IsSending q
    → SendOutcome q x
    → Went q.send_buf q.curr_send_size x
Went-outcome v (inl (n, e, w)) = record {
  valid = w.valid;
  buf = w.same;
  sent = n;
  less = w.less;
  result = inl e;
}
Went-outcome {q} v (inr (e, same)) = record {
  valid = rw same v;
  buf = ap (λ z. z.send_buf) same;
  sent = 0;
  less = rw same (omega arith);
  result = inr (e, refl);
}

-- conn_start_send() of the answer.
module _ (c : Connection) (target : Address) (resp : ℕ) (r : SendResult) (ssl : SslWriteResult)
    (v : IsSending c) (size : message_size c.send_buf c.curr_send_size ≡ ok resp)
    (start : c.curr_send_buf ≡ 0) (fits : c.curr_send_size + resp ≤ buf_size)
    (f : FitsSend (queued c target resp) r × FitsSslWrite (queued c target resp) ssl) where
  start_send-Went :
      Returns
        (λ (x : ℤ × Connection). Went c.send_buf (c.curr_send_size + resp) x × SameRecv c x.1)
        (conn_start_send c target r ssl)
  start_send-Went =
      Returns-map
        (Returns-keep (conn_start_send-counts c target resp r ssl v size (omega arith) f.0 f.1))
        λ x (e, (valid, o)). (
          elim o [
            | inl (_, w) ↦ rw w (record {
              valid = valid;
              buf = refl;
              sent = 0;
              less = omega arith;
              result = inl refl;
            })
            | inr (_, w) ↦ Went-outcome valid w
          ],
          IfReturns-ok (conn_start_send-SameRecv c target r ssl) e,
        )

module _ (h : Host) (s : Server) {c r m cmd n resp id st : ℕ} {is js : List ℕ}
    (w : Replies h s c r m cmd n resp id st is js) where
  small : resp % 2 ^ 32 ≡ resp
  small = omega (arith, w.fits)

  -- The connection when the answer is in the buffer.
  abbrev filled : Bytes → Connection
  filled dst = record (conn_of s c) { send_buf = dst; reply_mode = reply_mode_normal }

  filled-IsSending : (dst : Bytes) → length dst ≡ buf_size → IsSending (filled dst)
  filled-IsSending dst e = record { memory = e; waiting = w.sending.waiting }

  -- The end of reply(), when the answer has been handed over.
  finish :
      (s2 : Server) (v : ℤ) {b : Bytes}
      → ((d : ℕ) → d ≢ c → conn_of s2 d ≡ conn_of s d)
      → SameRecv (conn_of s c) (conn_of s2 c)
      → s2.table.requests ≡ s.table.requests
      → s2.active_reqs ≡ s.active_reqs
      → Answer id st resp
          (conn_of s c).send_buf
          (conn_of s c).curr_send_size
          (conn_of s2 c).send_buf
      → Went b ((conn_of s c).curr_send_size + resp) (v, conn_of s2 c)
      → Returns (Replied s c r resp id st is js) (
          conn_req_remove s2.table c r >>= λ (_, t).
          ok (v, record s2 { table = t; active_reqs = s2.active_reqs -ℤ pos 1 }))
  finish s2 v others same reqs active answer went =
      let keeps = KeepsTable-conn s.table s2.table c others same reqs in
      let buf = ap (λ x. x.buf) same in
      let removed =
        conn_req_remove-Removed s2.table c is r js m n (KeepsTable-IsValid keeps w.live)
          (KeepsTable-IsList keeps c (is ++ r ∷ js) w.list)
          (KeepsTable-Messages keeps is r m n (rw buf w.messages.size) w.messages) in
      Returns-bind (Returns-keep removed) λ o (e, d).
        let send = IfReturns-ok (conn_req_remove-SameSend s2.table c r) e in
        returns (record {
          answer = rw send.buf answer;
          sending = record {
            memory = rw send.buf went.valid.memory;
            waiting = rw (send.start, send.size) went.valid.waiting;
          };
          sent = went.sent;
          less = rw send.size went.less;
          result = went.result;
          list = d.list;
          receiving = d.valid;
          newer = λ k mk p e1.
              let (q, eq, bytes) = d.newer k mk p (keeps.message k ∙ e1) in
              (q, eq, λ x l. bytes x (rw keeps.received l) ∙ ap (λ b. read_u8 b (p + x)) buf);
          active = ap (λ a. a -ℤ pos 1) active;
        })

  -- The worker when the answer has been handed to conn_start_send().
  abbrev handed : Bytes → Connection → Server
  handed dst conn = set_conn (tick (set_conn s c (filled dst))) c conn

  handed_at : (dst : Bytes) (conn : Connection) → conn_of (handed dst conn) c ≡ conn
  handed_at dst conn = update_self (update s.table.conns c (filled dst)) c conn

  handed_others :
      (dst : Bytes) (conn : Connection) (d : ℕ) → d ≢ c → conn_of (handed dst conn) d ≡ conn_of s d
  handed_others dst conn d ne =
      update_ne (update s.table.conns c (filled dst)) c d conn ne
      ∙ update_ne s.table.conns c d (filled dst) ne

  -- The answer, in the buffer as it was before reply().
  answered :
      {x : ℕ × Connection} {dst : Bytes} (p : Prepared (conn_of s c) x)
      → Answer id st resp p.buf (conn_of s c).curr_send_size dst
      → Answer id st resp (conn_of s c).send_buf (conn_of s c).curr_send_size dst
  answered p a = record {
    outside =
        SameOutside-trans (conn_of s c).curr_send_size ((conn_of s c).curr_send_size + 16)
          (omega arith) (omega arith) (omega arith) (omega arith) p.below a.outside;
    req_id = a.req_id;
    size = a.size;
    code = a.code;
    end = a.end;
  }

  hand_over :
      {dst : Bytes}
      → Answer id st resp (conn_of s c).send_buf (conn_of s c).curr_send_size dst
      → (x : ℤ × Connection) → Went dst ((conn_of s c).curr_send_size + resp) x
      → SameRecv (conn_of s c) x.1
      → Returns (Replied s c r resp id st is js) (
          conn_req_remove (handed dst x.1).table c r >>= λ (_, t).
          ok (x.0, record (handed dst x.1) { table = t; active_reqs = s.active_reqs -ℤ pos 1 }))
  hand_over {dst} a (v, conn) went same =
      let at = handed_at dst conn in
      finish (handed dst conn) v {b = dst} (handed_others dst conn) (ap recv_side at ∙ same) refl
        refl (rw (at, went.buf) a) (rw at went)

  -- reply() to a request in the list of its connection, by a REPLY of the normal mode whose answer and
  -- its header fit behind what waits in a send buffer that is used from its start, with answers of
  -- the kernel and of OpenSSL that name no more bytes than were to be sent, ends. The answer is in the
  -- buffer behind what waited, with the id and the status of the message and no commands; what is
  -- left to send is all of it but for the bytes that it returns, or all when it returns -1; the
  -- request is out of the list, which has the others in order, the messages of those that came
  -- later are whole, and one request less is active.
  pub reply-Replied : Returns (Replied s c r resp id st is js) (reply_to h s r m cmd)
  unfolding reply_to send_reply
  reply-Replied = rw w.at (
      Returns-bind (conn_prepare_send_message-Prepared (conn_of s c) w.sending w.start w.room)
        λ x p.
          rw (p.result, w.opts, p.room, passes)
            (Returns-bind
              (fill_reply-Answer (conn_of s c).recv_buf m p.buf (conn_of s c).curr_send_size resp id
                st (omega (arith, p.size, w.room)) w.req_id w.code)
              λ dst a.
                let size = a.size ∙ ap ok small in
                let (x1, sent, (went, same)) = Returns-inv (
                  start_send-Went (filled dst) (req_of s r).target resp (h.send s.used)
                    (h.ssl_write s.used) (filled-IsSending dst (a.outside.size ∙ p.size)) size
                    w.start w.fits
                    (w.answers (queued (filled dst) (req_of s r).target resp) refl)) in
                rw (update_self s.table.conns c (filled dst), sent)
                  (hand_over (answered p a) x1 went same)))
    where
      passes : leb resp (buf_size - (conn_of s c).curr_send_size) ≡ true
      passes = let f = w.fits in ground arith
