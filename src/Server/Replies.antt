-- ===== src/Server/Replies.antt =====
-- src/dw_node.c, handle_forward_reply(): the replies to the branches of a FORWARD, one after another.
use distwalk_iouring.Prelude.{
  ℕ, zero, suc, ◌≡◌, refl, ap, ◌∙◌, inl, inr, Bool, true, false, Option, none, some, List, [], ◌∷◌,
  arith, ltb, if◌then◌else◌, Bool-cases,
}
use distwalk_iouring.Prelude.Int.{ℤ, pos, negsuc}
use distwalk_iouring.Prelude.Run.{Run, ok, ◌>>=◌, Returns, returns, Returns-inv}
use distwalk_iouring.Memory.{Bytes}
use distwalk_iouring.Message.FindReply.{find_forward_reply_id}
use distwalk_iouring.Request.{Request}
use distwalk_iouring.Server.{Server, Host, conn_of, req_of}
use distwalk_iouring.Server.Forward.{bit_of}
use distwalk_iouring.Server.Acks.{take_of_branch, take_forward_reply}
use distwalk_iouring.Server.Masks.{bit_of-zero}
use distwalk_iouring.Server.Waiting.{Waits, Noted, Finished, noted_conns, Noted-Waits, Noted-trans}
use distwalk_iouring.Server.Finish.{
  also, with_id, with_id-Noted, acknowledge-again, acknowledge-more, acknowledge-last,
  finish_forward-Finished,
}

abbrev pub after_reply_of :
    Option ℕ × Server → (Server → Run (Option ℕ × Server)) → Run (Option ℕ × Server)
after_reply_of (none, s) on = on s
after_reply_of (some r, s) on = ok (some r, s)

-- Replies, each an address and a status, up to the one that finishes the FORWARD.
unfoldable pub take_replies : Host → Server → ℤ → List (Bytes × ℕ) → Run (Option ℕ × Server)
take_replies h s req_id [] = ok (none, s)
take_replies h s req_id ((match_addr, status) ∷ rs) =
    take_forward_reply h s req_id status match_addr >>= λ x.
    after_reply_of x λ s'. take_replies h s' req_id rs

-- The branches that replies belong to, with their status; a reply that belongs to none is left out.
pub data Branches (b : Bytes) (cmd e : ℕ) : List (Bytes × ℕ) → List (ℕ × ℕ) → Type 0 where
  no_reply : Branches b cmd e [] []
  of_branch :
      {rs : List (Bytes × ℕ)} {bs : List (ℕ × ℕ)} (match_addr : Bytes) (status id : ℕ)
      → find_forward_reply_id b (some cmd) match_addr e ≡ ok (pos id)
      → ltb id 32 ≡ true
      → Branches b cmd e rs bs
      → Branches b cmd e ((match_addr, status) ∷ rs) ((id, status) ∷ bs)
  of_none :
      {rs : List (Bytes × ℕ)} {bs : List (ℕ × ℕ)} (match_addr : Bytes) (status n : ℕ)
      → find_forward_reply_id b (some cmd) match_addr e ≡ ok (negsuc n)
      → Branches b cmd e rs bs
      → Branches b cmd e ((match_addr, status) ∷ rs) bs

-- The status of the reply that is the `k` + 1st of a new branch, when there are so many.
unfoldable pub deciding : (ℕ → Bool) → ℕ → List (ℕ × ℕ) → Option ℕ
deciding seen k [] = none
deciding seen zero ((id, status) ∷ bs) = if seen id then deciding seen 0 bs else some status
deciding seen (suc k) ((id, status) ∷ bs) =
    if seen id then deciding seen (suc k) bs else deciding (also id seen) k bs

-- What replies lead to: the request still waits, for one reply or more, with nothing changed but its
-- mask and count; or it is finished, with the status of the reply that decided.
abbrev pub Taken : Server → ℕ → ℕ → ℕ → ℕ → ℕ → Option ℕ → Option ℕ × Server → Type 0
Taken s r c m e cmd none (o, s') =
    (o ≡ none) × ((left : ℕ) × ((seen : ℕ → Bool) × Noted s r (suc left) seen s'))
Taken s r c m e cmd (some status) (o, s') = (o ≡ some r) × Finished s r c m e cmd status s'

Noted-refl :
    (s : Server) (r left : ℕ) (seen : ℕ → Bool)
    → (req_of s r).fwd_replies_left ≡ pos left
    → ((j : ℕ) → bit_of (req_of s r).fwd_replies_mask j ≡ seen j)
    → Noted s r left seen s
Noted-refl s r left seen e h = record {
  mask = (req_of s r).fwd_replies_mask;
  marks = h;
  same = refl;
  request = ap (with_left (req_of s r)) e;
  others = λ j ne. refl;
}
  where
    with_left : Request → ℤ → Request
    with_left q n = record q { fwd_replies_left = n }

module _ (h : Host) {s : Server} {req_id : ℤ} {r c m e cmd : ℕ} (w : Waits s req_id r c m e cmd)
    (match_addr : Bytes) (status : ℕ) where
  take_known :
      (id : ℕ)
      → find_forward_reply_id (conn_of s c).recv_buf (some cmd) match_addr e ≡ ok (pos id)
      → take_forward_reply h s req_id status match_addr
        ≡ take_of_branch h s req_id r m status (pos id)
  unfolding take_forward_reply
  take_known id f = rw (w.found, w.at, w.message, w.end, w.command, f) refl

  take_unknown :
      (n : ℕ)
      → find_forward_reply_id (conn_of s c).recv_buf (some cmd) match_addr e ≡ ok (negsuc n)
      → take_forward_reply h s req_id status match_addr ≡ ok (none, s)
  unfolding take_forward_reply
  take_unknown n f = rw (w.found, w.at, w.message, w.end, w.command, f) refl

Finished-Noted :
    {s s' s1 : Server} {r c m e cmd status k : ℕ} {seen : ℕ → Bool}
    → Noted s r k seen s1
    → Finished s1 r c m e cmd status s'
    → Finished s r c m e cmd status s'
Finished-Noted n f = record {
  left = f.left;
  mask = f.mask;
  retries = f.retries;
  timeout = f.timeout;
  message = f.message;
  command = f.command;
  status = f.status;
  active = f.active ∙ ap (λ x. x.active_reqs) n.same;
}

-- What holds of the replies to a state that waits for less holds of those to `s`.
Taken-Noted :
    {s s1 : Server} (r c m e cmd : ℕ) {k : ℕ} {seen : ℕ → Bool} {run : Run (Option ℕ × Server)}
    (d : Option ℕ)
    → Noted s r k seen s1
    → Returns (Taken s1 r c m e cmd d) run
    → Returns (Taken s r c m e cmd d) run
Taken-Noted r c m e cmd none n (returns {value = (o, s')} (q, (left, (f, x)))) =
    returns (q, (left, (f, Noted-trans n x)))
Taken-Noted r c m e cmd (some st) n (returns {value = (o, s')} (q, x)) =
    returns (q, Finished-Noted n x)

module _ (h : Host) {b : Bytes} {req_id : ℤ} {r c m e cmd : ℕ} where
  take_replies-from :
      {rs : List (Bytes × ℕ)} {bs : List (ℕ × ℕ)}
      → Branches b cmd e rs bs
      → (k : ℕ) (seen : ℕ → Bool) (s : Server) → (conn_of s c).recv_buf ≡ b
      → Waits s req_id r c m e cmd
      → (req_of s r).fwd_replies_left ≡ pos (suc k)
      → ((j : ℕ) → bit_of (req_of s r).fwd_replies_mask j ≡ seen j)
      → Returns (Taken s r c m e cmd (deciding seen k bs)) (take_replies h s req_id rs)
  unfolding take_replies deciding
  take_replies-from no_reply k seen s eb w l marks =
      returns (refl, (k, (seen, Noted-refl s r (suc k) seen l marks)))
  take_replies-from (of_none match_addr status n f br) k seen s eb w l marks =
      rw (take_unknown h w match_addr status n (rw eb f))
        (take_replies-from br k seen s eb w l marks)
  take_replies-from (of_branch match_addr status id f small br) zero seen s eb w l marks =
      rw (take_known h w match_addr status id (rw eb f)) (elim (Bool-cases (seen id)) [
        | inl y ↦
            rw (y, acknowledge-again h s req_id r m status id 0 seen small l marks y)
              (take_replies-from br 0 seen s eb w l marks)
        | inr n ↦
            let n1 = with_id-Noted h s req_id r m status id 0 seen small l marks in
            let s1 = with_id h s req_id r m status id 0 seen small l marks in
            let (s', done, x) =
              Returns-inv (finish_forward-Finished h s1 status (Noted-Waits n1 w)) in
            rw (n, acknowledge-last h s req_id r m status id 0 seen small l marks n refl, done)
              (returns (refl, Finished-Noted n1 x))
      ])
  take_replies-from {bs = _ ∷ bs} (of_branch match_addr status id f small br) (suc k) seen s eb w l
        marks =
      rw (take_known h w match_addr status id (rw eb f)) (elim (Bool-cases (seen id)) [
        | inl y ↦
            rw (y, acknowledge-again h s req_id r m status id (suc k) seen small l marks y)
              (take_replies-from br (suc k) seen s eb w l marks)
        | inr n ↦
            let n1 = with_id-Noted h s req_id r m status id (suc k) seen small l marks in
            let s1 = with_id h s req_id r m status id (suc k) seen small l marks in
            rw
              (
                n,
                acknowledge-more h s req_id r m status id (suc k) seen small l marks n
                    (omega arith),
              )
              (Taken-Noted r c m e cmd (deciding (also id seen) k bs) n1 (
                take_replies-from br k (also id seen) s1
                  (ap (λ f. (f c).recv_buf) (noted_conns n1) ∙ eb) (Noted-Waits n1 w)
                  (ap (λ q. q.fwd_replies_left) n1.request)
                  (λ j. ap (λ q. bit_of q.fwd_replies_mask j) n1.request ∙ n1.marks j)))
      ])

module _ (h : Host) (s : Server) {req_id : ℤ} {r c m e cmd : ℕ} {rs : List (Bytes × ℕ)}
    {bs : List (ℕ × ℕ)} (n : ℕ) (w : Waits s req_id r c m e cmd)
    (left : (req_of s r).fwd_replies_left ≡ pos (suc n))
    (none_yet : (req_of s r).fwd_replies_mask ≡ 0)
    (br : Branches (conn_of s c).recv_buf cmd e rs bs) where
  -- A request at a FORWARD waits for `n` + 1 replies, and none has come; its timeout, if it has one,
  -- is in a valid heap, and its message is inside the receive buffer. Then any replies that
  -- handle_forward_reply() takes one after another, each of a branch below 32 or of no branch, are
  -- taken without an access outside the buffer. A second reply of a branch counts for nothing. Before
  -- `n` + 1 different branches have replied, nothing but the mask and the count of the request has
  -- changed; the reply that makes them so many finishes the FORWARD: the request has the command
  -- behind it, no timeout, and the status of that reply, and is ready for another FORWARD.
  pub take_replies-Taken :
      Returns (Taken s r c m e cmd (deciding (λ j. false) n bs)) (take_replies h s req_id rs)
  take_replies-Taken =
      take_replies-from h br n (λ j. false) s refl w left (λ j. rw none_yet (bit_of-zero j))
