-- ===== src/Server/Waiting.antt =====
-- src/dw_node.c, handle_forward_reply(): one reply to a request that waits for its branches.
use distwalk_iouring.Prelude.{
  ℕ, ℕ_discrete, ◌+◌, ◌%◌, ◌^◌, ◌≤◌, ◌≡◌, ◌≢◌, refl, ap, ◌∙◌, ◌⊎◌, inl, inr, Bool, none, some,
  length,
}
use distwalk_iouring.Prelude.Int.{ℤ, pos, negsuc}
use distwalk_iouring.Prelude.Run.{ok, Returns, returns, Returns-bind}
use distwalk_iouring.Prelude.Tables.{update, update_self, update_ne}
use distwalk_iouring.Memory.{read_u32}
use distwalk_iouring.Message.{message_end, cmd_bounded_skip}
use distwalk_iouring.PQueue.Links.{IsIn}
use distwalk_iouring.PQueue.Insert.{IsValid}
use distwalk_iouring.Request.{Request, Requests, slot, req_get_by_id}
use distwalk_iouring.Timeouts.{remove_timeout}
use distwalk_iouring.Timeouts.Remove.{remove_timeout-Disarmed}
use distwalk_iouring.Server.{Server, Host, conn_at, home, conn_of, req_of, set_req, timeouts_of}
use distwalk_iouring.Server.Reply.{status_at}
use distwalk_iouring.Server.Forward.{bit_of}
use distwalk_iouring.Server.Acks.{drop_timeout}

-- A request has no timeout, or one that is in a valid heap.
abbrev pub TimeoutKept : Server → ℕ → Type 0
TimeoutKept s r =
    ((req_of s r).timeout_node ≡ none)
    ⊎ ((n : ℕ) × ((req_of s r).timeout_node ≡ some n)
        × IsValid s.timeout_queue
        × IsIn s.timeout_queue n)

-- The request `r` of the id given has come to the FORWARD at `cmd` of its message at `m`, which ends
-- at `e` inside the receive buffer of connection `c`.
pub record Waits (s : Server) (req_id : ℤ) (r c m e cmd : ℕ) : Type 0 where
  pub found : req_get_by_id s.table.requests req_id ≡ some r
  pub at : home s r ≡ ok c
  pub message : (req_of s r).message_ptr ≡ some m
  pub end : message_end (conn_of s c).recv_buf m ≡ ok e
  pub fits : e ≤ length (conn_of s c).recv_buf
  pub header : m + 12 ≤ e
  pub command : (req_of s r).curr_cmd ≡ some cmd
  pub timeout : TimeoutKept s r

abbrev pub with_requests : Server → Requests → Server
with_requests s t = record s { table = record s.table { requests = t } }

-- The request with another mask and another count.
abbrev pub renote : Request → ℕ → ℕ → Request
renote q mask left = record q { fwd_replies_mask = mask; fwd_replies_left = pos left }

-- `s'` is `s` but for the mask and the count of the request `r`; `seen` tells the branches that have
-- replied.
pub record Noted (s : Server) (r : ℕ) (left : ℕ) (seen : ℕ → Bool) (s' : Server) : Type 0 where
  pub mask : ℕ
  pub marks : (j : ℕ) → bit_of mask j ≡ seen j
  pub same : s' ≡ with_requests s s'.table.requests
  pub request : req_of s' r ≡ renote (req_of s r) mask left
  pub others : (j : ℕ) → j ≢ r → req_of s' j ≡ req_of s j

-- What the last reply that was awaited leaves, of the status given: the request is past its FORWARD,
-- ready for another, without a timeout; and its message has the status.
pub record Finished (s : Server) (r c m e cmd st : ℕ) (s' : Server) : Type 0 where
  pub left : (req_of s' r).fwd_replies_left ≡ negsuc 0
  pub mask : (req_of s' r).fwd_replies_mask ≡ 0
  pub retries : (req_of s' r).fwd_retries ≡ pos 0
  pub timeout : (req_of s' r).timeout_node ≡ none
  pub message : (req_of s' r).message_ptr ≡ some m
  pub command : cmd_bounded_skip (conn_of s' c).recv_buf (some cmd) 1 e ≡ ok (req_of s' r).curr_cmd
  pub status : read_u32 (conn_of s' c).recv_buf (status_at m) ≡ ok (st % 2 ^ 32)
  pub active : s'.active_reqs ≡ s.active_reqs

-- A field that an update leaves as it was.
pub update_keeps {ℓ} :
    {A : Type ℓ} (field : Request → A) (f : ℕ → Request) (i : ℕ) (q : Request)
    → field q ≡ field (f i)
    → (j : ℕ) → field (update f i q j) ≡ field (f j)
update_keeps field f i q e j = elim (ℕ_discrete j i) [
  | yes h ↦ rw h (ap field (update_self f i q) ∙ e)
  | no h ↦ ap field (update_ne f i j q h)
]

pub req_get_by_id-same :
    (t t' : Requests) (id : ℤ)
    → ((j : ℕ) → (t'.reqs j).req_id ≡ (t.reqs j).req_id)
    → req_get_by_id t' id ≡ req_get_by_id t id
unfolding req_get_by_id
req_get_by_id-same t t' id h = rw (h (slot id)) refl

module _ {s s' : Server} {r : ℕ} {left : ℕ} {seen : ℕ → Bool} (o : Noted s r left seen s') where
  -- A field other than the two that a reply changes.
  noted_field {ℓ} :
      {A : Type ℓ} (field : Request → A)
      → ((q : Request) (a : ℕ) (b : ℤ)
          → field (record q { fwd_replies_mask = a; fwd_replies_left = b }) ≡ field q)
      → (j : ℕ) → field (req_of s' j) ≡ field (req_of s j)
  noted_field field h j = elim (ℕ_discrete j r) [
    | yes e ↦ rw e (ap field o.request ∙ h (req_of s r) o.mask (pos left))
    | no ne ↦ ap field (o.others j ne)
  ]

  pub noted_conns : s'.table.conns ≡ s.table.conns
  noted_conns = ap (λ x. x.table.conns) o.same

  pub noted_queue : s'.timeout_queue ≡ s.timeout_queue
  noted_queue = ap (λ x. x.timeout_queue) o.same

  -- A request that waited still does.
  pub Noted-Waits :
      {req_id : ℤ} {c m e cmd : ℕ} → Waits s req_id r c m e cmd → Waits s' req_id r c m e cmd
  unfolding home
  Noted-Waits {req_id} {c} w = record {
    found =
        req_get_by_id-same s.table.requests s'.table.requests req_id
          (noted_field (λ q. q.req_id) (λ q a b. refl))
        ∙ w.found;
    at = ap conn_at (noted_field (λ q. q.conn_id) (λ q a b. refl) r) ∙ w.at;
    message = noted_field (λ q. q.message_ptr) (λ q a b. refl) r ∙ w.message;
    end = rw noted_conns w.end;
    fits = rw noted_conns w.fits;
    header = w.header;
    command = noted_field (λ q. q.curr_cmd) (λ q a b. refl) r ∙ w.command;
    timeout = rw (noted_field (λ q. q.timeout_node) (λ q a b. refl) r, noted_queue) w.timeout;
  }

-- The request with what one more reply makes of its mask and its count.
abbrev pub noted : Server → ℕ → ℕ → ℕ → Server
noted s r mask left = set_req s r (renote (req_of s r) mask left)

pub noted-Noted :
    (s : Server) (r mask left : ℕ) (seen : ℕ → Bool)
    → ((j : ℕ) → bit_of mask j ≡ seen j)
    → Noted s r left seen (noted s r mask left)
noted-Noted s r mask left seen h = record {
  mask = mask;
  marks = h;
  same = refl;
  request = update_self s.table.requests.reqs r _;
  others = λ j ne. update_ne s.table.requests.reqs r j _ ne;
}

pub Noted-trans :
    {s s1 s2 : Server} {r a b : ℕ} {f g : ℕ → Bool}
    → Noted s r a f s1
    → Noted s1 r b g s2
    → Noted s r b g s2
Noted-trans {s2 = s2} {b = b} x y = record {
  mask = y.mask;
  marks = y.marks;
  same = y.same ∙ ap (λ z. with_requests z s2.table.requests) x.same;
  request = y.request ∙ ap (λ q. renote q y.mask b) x.request;
  others = λ j ne. y.others j ne ∙ x.others j ne;
}

-- remove_timeout() of a request whose timeout is none, or one in a valid heap: it has none then, and
-- nothing else of the table has changed.
pub drop_timeout-Returns :
    (h : Host) (s : Server) (req_id : ℤ) (r : ℕ)
    → req_get_by_id s.table.requests req_id ≡ some r
    → TimeoutKept s r
    → Returns
        (λ s'.
          (req_of s' r ≡ record (req_of s r) { timeout_node = none })
          × (s'.table.conns ≡ s.table.conns)
          × (s'.active_reqs ≡ s.active_reqs))
        (drop_timeout h s req_id)
unfolding drop_timeout remove_timeout
drop_timeout-Returns h s req_id r found (inl e) =
    rw (found, e) (returns (ap (λ n. record (req_of s r) { timeout_node = n }) e, refl, refl))
drop_timeout-Returns h s req_id r found (inr (n, e, v, i)) =
    Returns-bind
      (remove_timeout-Disarmed (timeouts_of s) req_id r n (h.time_left s.used) v found e i)
      λ (v', w) d.
        returns (ap (λ t. t.reqs r) d.owner ∙ update_self s.table.requests.reqs r _, refl, refl)
