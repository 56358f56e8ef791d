-- ===== src/Connection/Started.antt =====
-- src/connection.c, conn_start_send(): the bytes that wait in the send buffer.
use distwalk_iouring.Prelude.{
  ℕ, zero, suc, ◌+◌, ◌≤◌, ◌≡◌, refl, sym, ap, ◌∙◌, ◌⊎◌, inl, inr, true, false, List, [], ◌∷◌, ◌++◌,
  arith, take, drop, ◌==◌, if◌then◌else◌, ℕ_discrete,
}
use distwalk_iouring.Prelude.Int.{ℤ, pos, negsuc}
use distwalk_iouring.Prelude.Run.{ok, Returns, Returns-map}
use distwalk_iouring.Memory.{Bytes}
use distwalk_iouring.Message.{message_size}
use distwalk_iouring.Connection.{buf_size, Connection, Address}
use distwalk_iouring.Connection.Send.{SendResult, SslWriteResult, conn_start_send, must_wait}
use distwalk_iouring.Connection.Sending.{
  IsSending, FitsSend, FitsSslWrite, Went, SendOutcome, queued, conn_start_send-counts,
}

module _ {ℓ} {A : Type ℓ} where
  drop-add : (m n : ℕ) (xs : List A) → drop (m + n) xs ≡ drop n (drop m xs)
  drop-add zero n xs = let e : zero + n ≡ n = omega arith in rw e refl
  drop-add (suc m) zero [] = let e : suc m + zero ≡ suc m = omega arith in rw e refl
  drop-add (suc m) (suc n) [] = let e : suc m + suc n ≡ suc (m + suc n) = omega arith in rw e refl
  drop-add (suc m) n (x ∷ xs) =
      let e : suc m + n ≡ suc (m + n) = omega arith in rw e (drop-add m n xs)

  drop-take : (n m : ℕ) (xs : List A) → drop n (take (m + n) xs) ≡ take m (drop n xs)
  drop-take zero m xs = let e : m + zero ≡ m = omega arith in rw e refl
  drop-take (suc n) zero [] = let e : zero + suc n ≡ suc n = omega arith in rw e refl
  drop-take (suc n) (suc m) [] = let e : suc m + suc n ≡ suc (m + suc n) = omega arith in rw e refl
  drop-take (suc n) m (x ∷ xs) =
      let e : m + suc n ≡ suc (m + n) = omega arith in rw e (drop-take n m xs)

  take-add : (m n : ℕ) (xs : List A) → take (m + n) xs ≡ take m xs ++ take n (drop m xs)
  take-add zero n xs = let e : zero + n ≡ n = omega arith in rw e refl
  take-add (suc m) zero [] = let e : suc m + zero ≡ suc m = omega arith in rw e refl
  take-add (suc m) (suc n) [] = let e : suc m + suc n ≡ suc (m + suc n) = omega arith in rw e refl
  take-add (suc m) n (x ∷ xs) =
      let e : suc m + n ≡ suc (m + n) = omega arith in rw e (ap (λ ys. x ∷ ys) (take-add m n xs))

-- The bytes that wait, in order.
abbrev pub waiting : Connection → Bytes
waiting c = take c.curr_send_size (drop c.curr_send_buf c.send_buf)

-- The `n` bytes of the message that is to be sent next.
abbrev pub message_bytes : Connection → ℕ → Bytes
message_bytes c n = take n (drop c.curr_send_size c.send_buf)

waiting-queued :
    (c : Connection) (target : Address) (n : ℕ)
    → c.curr_send_buf ≡ 0
    → waiting (queued c target n) ≡ waiting c ++ message_bytes c n
waiting-queued c target n e =
    let start : (if c.curr_send_size == 0 then 0 else c.curr_send_buf) ≡ 0 = ground arith in
    rw (start, e) (take-add c.curr_send_size n c.send_buf)

waiting-Went : {c c' : Connection} (n : ℕ) → Went c n c' → waiting c' ≡ drop n (waiting c)
waiting-Went {c} {c'} n w =
    let bytes = drop c.curr_send_buf c.send_buf in
    let all : drop n (waiting c) ≡ take c'.curr_send_size (drop n bytes) =
      ap (λ k. drop n (take k bytes)) (sym w.less) ∙ drop-take n c'.curr_send_size bytes in
    elim (ℕ_discrete c'.curr_send_size 0) [
      | yes e ↦
          ap (λ k. take k (drop c'.curr_send_buf c'.send_buf)) e
          ∙ sym (all ∙ ap (λ k. take k (drop n bytes)) e)
      | no ne ↦
          let place = w.place (omega arith) in
          rw (w.same, place)
            (ap (take c'.curr_send_size) (drop-add c.curr_send_buf n c.send_buf) ∙ sym all)
    ]

-- What conn_start_send() of the message of `n` bytes returns and leaves: `k` bytes less of what
-- waited and of the message, behind it, when it returns `k`; or all of them, when it returns -1. It
-- returns 0 while nothing can be sent.
pub record Started (c : Connection) (n : ℕ) (v : ℤ) (c' : Connection) : Type 0 where
  pub valid : IsSending c'
  pub same : c'.send_buf ≡ c.send_buf
  pub waits : must_wait c.status ≡ true → v ≡ pos 0
  pub result :
      ((k : ℕ) × (v ≡ pos k)
        × (c'.curr_send_size + k ≡ c.curr_send_size + n)
        × (waiting c' ≡ drop k (waiting c ++ message_bytes c n)))
      ⊎ ((v ≡ negsuc 0) × (waiting c' ≡ waiting c ++ message_bytes c n))

Started-queued :
    (c : Connection) (target : Address) (n : ℕ)
    → c.curr_send_buf ≡ 0
    → IsSending (queued c target n)
    → Started c n (pos 0) (queued c target n)
Started-queued c target n e v = record {
  valid = v;
  same = refl;
  waits = λ w. refl;
  result = inl (0, refl, omega arith, waiting-queued c target n e);
}

Started-sent :
    (c : Connection) (target : Address) (n : ℕ) (x : ℤ × Connection)
    → c.curr_send_buf ≡ 0
    → IsSending (queued c target n)
    → must_wait c.status ≡ false
    → SendOutcome (queued c target n) x
    → Started c n x.0 x.1
Started-sent c target n (v, c') e valid goes (inl (k, r, w)) = record {
  valid = w.valid;
  same = w.same;
  waits = λ h. absurd (cc);
  result = inl (k, r, w.less, waiting-Went k w ∙ ap (drop k) (waiting-queued c target n e));
}
Started-sent c target n (v, c') e valid goes (inr (r, w)) =
    let all : waiting c' ≡ waiting c ++ message_bytes c n =
      ap waiting w ∙ waiting-queued c target n e in
    record {
      valid = rw w valid;
      same = ap (λ d. d.send_buf) w;
      waits = λ h. absurd (cc);
      result = inr (r, all);
    }

-- conn_start_send() on a valid send buffer whose waiting bytes are at its start, of a message of `n`
-- bytes that fits behind them, and with answers of the kernel and of OpenSSL that name no more bytes
-- than were to be sent, ends. When it returns a number of bytes, what waits is the bytes that waited
-- and behind them those of the message, without as many from the front; when it returns -1, it is all
-- of them. It returns 0 while the connection is not established.
pub conn_start_send-Started :
    (c : Connection) (target : Address) (n : ℕ) (r : SendResult) (ssl : SslWriteResult)
    → IsSending c
    → c.curr_send_buf ≡ 0
    → message_size c.send_buf c.curr_send_size ≡ ok n
    → c.curr_send_size + n ≤ buf_size
    → FitsSend (queued c target n) r
    → FitsSslWrite (queued c target n) ssl
    → Returns (λ (x : ℤ × Connection). Started c n x.0 x.1) (conn_start_send c target r ssl)
conn_start_send-Started c target n r ssl v start e room h k =
    Returns-map (conn_start_send-counts c target n r ssl v e (omega arith) h k) λ x (valid, out).
      elim out [
        | inl (w, at) ↦ rw at (Started-queued c target n start valid)
        | inr (w, o) ↦ Started-sent c target n x start valid w o
      ]
