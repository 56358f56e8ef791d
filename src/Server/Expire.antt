-- ===== src/Server/Expire.antt =====
-- src/dw_node.c, handle_timeout(): the request of the first timeout is given up.
use distwalk_iouring.Prelude.{
  ℕ, ℕ_discrete, ◌+◌, ◌≤◌, ◌≡◌, refl, sym, ap, ◌∙◌, false, Option, some, none, List, ◌∷◌, ◌++◌,
  arith, inl, length, ◌==◌,
}
use distwalk_iouring.Prelude.Int.{ℤ, pos, ◌-ℤ◌}
use distwalk_iouring.Prelude.Run.{ok, ◌>>=◌, Returns, returns, Returns-bind, Returns-inv}
use distwalk_iouring.Prelude.Tables.{update_self, update_ne}
use distwalk_iouring.Memory.{Bytes, read_u8}
use distwalk_iouring.Memory.Access.{SameOutside, read_u32-SameOutside}
use distwalk_iouring.Message.{message_size}
use distwalk_iouring.PQueue.TakeOut
use distwalk_iouring.Connection.{Connection}
use distwalk_iouring.Connection.Receive.{IsReceiving}
use distwalk_iouring.Request.{Request, req_get_by_id}
use distwalk_iouring.Request.Table.{IsValid}
use distwalk_iouring.Timeouts.{set_timeout}
use distwalk_iouring.Timeouts.Remove.{remove_timeout-Disarmed}
use distwalk_iouring.PQueue.Remove.{top-IsIn}
use distwalk_iouring.Conns.{conn_req_remove}
use distwalk_iouring.Conns.Chain.{IsList}
use distwalk_iouring.Conns.Members.{◌∈◌, some_injective}
use distwalk_iouring.Conns.Defrag.{Messages, SameMessage}
use distwalk_iouring.Conns.Whole.{conn_req_remove-Removed}
use distwalk_iouring.Server.{Server, Host, home, conn_of, req_of, set_conn, timeouts_of}
use distwalk_iouring.Server.Acks.{drop_timeout}
use distwalk_iouring.Server.Timeout.{status_timeout, give_up, expire, handle_timeout}
use distwalk_iouring.Server.Stuck.{FirstTimeout, top_value-FirstTimeout}
use distwalk_iouring.Server.Waiting.{update_keeps}
use distwalk_iouring.Server.Finish.{set_status_at-Returns}
use distwalk_iouring.Server.Kept.{
  KeepsTable, KeepsTable-IsList, KeepsTable-IsValid, KeepsTable-Messages,
}

-- The first timeout is that of the request `r` of connection `c`, of the id `i`, which has no retry
-- left and nothing to skip to; its message, of `n` bytes, is at `m`.
pub record GivesUp (s : Server) (c r m n i : ℕ) (is js : List ℕ) : Type 0 where
  pub first : FirstTimeout s.timeout_queue i
  pub found : req_get_by_id s.table.requests (pos i) ≡ some r
  pub own : (req_of s r).timeout_node ≡ some (s.timeout_queue.heap 0)
  pub retries : (req_of s r).fwd_retries ≡ pos 0
  pub skip : (req_of s r).fwd_on_fail_skip ≡ pos 0
  pub at : home s r ≡ ok c
  pub live : IsValid s.table.requests
  pub list : IsList s.table c (is ++ r ∷ js)
  pub messages : Messages s.table c is r m n

pub record GivenUp (s : Server) (c r i : ℕ) (is js : List ℕ) (s' : Server) : Type 0 where
  pub heap : TakeOut.Removed s.timeout_queue (s.timeout_queue.heap 0) s'.timeout_queue
  pub list : IsList s'.table c (is ++ js)
  pub receiving : IsReceiving (conn_of s' c)
  pub newer : (k : ℕ) → k ∈ is → SameMessage s.table s'.table c k
  pub active : s'.active_reqs ≡ s.active_reqs -ℤ pos 1

-- The worker with another receive buffer for a connection.
abbrev stamped : Server → ℕ → Bytes → Server
stamped s c b = set_conn s c (record (conn_of s c) { recv_buf = b })

-- What remove_timeout() and the new status leave of the tables.
module _ (s s1 : Server) (c r : ℕ) (b : Bytes) (conns : s1.table.conns ≡ s.table.conns)
    (reqs : s1.table.requests ≡ set_timeout s.table.requests r none)
    (size : length b ≡ length (conn_of s c).recv_buf) where
  abbrev cleared : Server
  cleared = stamped s1 c b

  cleared_at : conn_of cleared c ≡ record (conn_of s c) { recv_buf = b }
  cleared_at =
      update_self s1.table.conns c (record (conn_of s1 c) { recv_buf = b })
      ∙ ap (λ f. with_buf (f c)) conns
    where
      with_buf : Connection → Connection
      with_buf x = record x { recv_buf = b }

  cleared_list : (d : ℕ) → (conn_of cleared d).req_list ≡ (conn_of s d).req_list
  cleared_list d = elim (ℕ_discrete d c) [
    | yes e ↦ rw e (ap (λ x. x.req_list) cleared_at)
    | no ne ↦
        ap (λ x. x.req_list)
          (update_ne s1.table.conns c d (record (conn_of s1 c) { recv_buf = b }) ne)
        ∙ ap (λ f. (f d).req_list) conns
  ]

  -- A field of a request other than its timeout.
  cleared_field {ℓ} :
      {A : Type ℓ} (field : Request → A)
      → ((q : Request) (o : Option ℕ) → field (record q { timeout_node = o }) ≡ field q)
      → (k : ℕ) → field (req_of cleared k) ≡ field (req_of s k)
  cleared_field field h k =
      ap (λ x. field (x.reqs k)) reqs
      ∙ update_keeps field s.table.requests.reqs r (record (req_of s r) { timeout_node = none })
          (h (req_of s r) none) k

  cleared-KeepsTable : KeepsTable s.table cleared.table c
  cleared-KeepsTable = record {
    list = cleared_list;
    defrag = ap (λ x. x.enable_defrag) cleared_at;
    memory = ap (λ x. length x.recv_buf) cleared_at ∙ size;
    received = ap (λ x. x.curr_recv_buf) cleared_at;
    room = ap (λ x. x.curr_recv_size) cleared_at;
    handed = ap (λ x. x.curr_proc_buf) cleared_at;
    links = λ k. record {
      prev = cleared_field (λ q. q.prev) (λ q o. refl) k;
      next = cleared_field (λ q. q.next) (λ q o. refl) k;
      id = cleared_field (λ q. q.req_id) (λ q o. refl) k;
    };
    message = cleared_field (λ q. q.message_ptr) (λ q o. refl);
    cmd = cleared_field (λ q. q.curr_cmd) (λ q o. refl);
  }

-- What drop_timeout() does to the first timeout.
record Dropped (s : Server) (r : ℕ) (s1 : Server) : Type 0 where
  heap : TakeOut.Removed s.timeout_queue (s.timeout_queue.heap 0) s1.timeout_queue
  conns : s1.table.conns ≡ s.table.conns
  reqs : s1.table.requests ≡ set_timeout s.table.requests r none
  active : s1.active_reqs ≡ s.active_reqs

module _ (h : Host) (s : Server) {c r m n i : ℕ} {is js : List ℕ}
    (w : GivesUp s c r m n i is js) where
  drop_timeout-Dropped : Returns (Dropped s r) (drop_timeout h s (pos i))
  unfolding drop_timeout
  drop_timeout-Dropped =
      let v = w.first.valid in
      Returns-bind
        (remove_timeout-Disarmed (timeouts_of s) (pos i) r (s.timeout_queue.heap 0)
          (h.time_left s.used) v w.found w.own (top-IsIn v.linked w.first.filled))
        λ x d. returns (record { heap = d.removed; conns = refl; reqs = d.owner; active = refl })

  later : (k : ℕ) → k ∈ is → (p : ℕ) → (req_of s k).message_ptr ≡ some p → (y : ℕ) → m + 12 ≤ p + y
  later k mk p e y =
      let b = w.messages.newer k mk in
      let same : p ≡ b.place = some_injective (sym e ∙ b.message) in
      omega (arith, same, b.far, w.messages.header)

  -- The end of handle_timeout(), when the status is in the message.
  removed :
      (s1 : Server) (b : Bytes) (d : Dropped s r s1)
      → SameOutside (conn_of s c).recv_buf (m + 8) (m + 8 + 4) b
      → Returns (GivenUp s c r i is js) (
          conn_req_remove (stamped s1 c b).table c r >>= λ (_, t).
          ok (record (stamped s1 c b) { table = t; active_reqs = s1.active_reqs -ℤ pos 1 }))
  unfolding message_size
  removed s1 b d o =
      let keeps = cleared-KeepsTable s s1 c r b d.conns d.reqs o.size in
      let at = cleared_at s s1 c r b d.conns d.reqs o.size in
      let buf = ap (λ x. x.recv_buf) at in
      let size =
        ap (λ x. message_size x m) buf
        ∙ read_u32-SameOutside (m + 4) (inl (omega arith)) o
        ∙ w.messages.size in
      Returns-bind
        (conn_req_remove-Removed (stamped s1 c b).table c is r js m n
          (KeepsTable-IsValid keeps w.live) (KeepsTable-IsList keeps c (is ++ r ∷ js) w.list)
          (KeepsTable-Messages keeps is r m n size w.messages))
        λ x e. returns (record {
          heap = d.heap;
          list = e.list;
          receiving = e.valid;
          newer = λ k mk p e1.
              let (q, eq, bytes) = e.newer k mk p (keeps.message k ∙ e1) in
              (
                q,
                eq,
                λ y l.
                    bytes y (rw keeps.received l)
                    ∙ ap (λ z. read_u8 z (p + y)) buf
                    ∙ o.above (p + y) (omega (arith, later k mk p e1 y)),
              );
          active = ap (λ a. a -ℤ pos 1) d.active;
        })

  give_up-GivenUp :
      (s1 : Server) → Dropped s r s1 → Returns (GivenUp s c r i is js) (give_up s1 r c m)
  unfolding give_up
  give_up-GivenUp s1 d =
      let buf = ap (λ f. (f c).recv_buf) d.conns in
      let inside : m + 12 ≤ length (conn_of s c).recv_buf = omega (
        arith, w.messages.valid.memory, w.messages.valid.accounted, w.messages.valid.handed,
        w.messages.handed, w.messages.header,
      ) in
      let (s2, stamp, (b, (o, _), eq)) =
        Returns-inv (set_status_at-Returns s1 c m status_timeout (rw buf inside)) in
      rw (stamp, eq) (removed s1 b d (rw buf at o))

  -- When the first timeout is that of a request in the list of its connection, with the heap valid and
  -- the messages of later requests behind its own, and it has no retry left and nothing to skip to,
  -- handle_timeout() ends: the timeout is out of the heap and the request out of the list, and no
  -- other is; the messages of the later requests are whole, and one request less is active.
  pub handle_timeout-GivenUp : Returns (GivenUp s c r i is js) (handle_timeout h s)
  unfolding handle_timeout expire
  handle_timeout-GivenUp =
      let filled : (s.timeout_queue.size == 0) ≡ false = let l = w.first.filled in ground arith in
      let (s1, drop, d) = Returns-inv drop_timeout-Dropped in
      rw
        (
          filled,
          top_value-FirstTimeout w.first,
          w.found,
          w.at,
          drop,
          w.messages.here,
          same s1 d (λ q. q.fwd_retries) (λ q o. refl) w.retries,
          same s1 d (λ q. q.fwd_on_fail_skip) (λ q o. refl) w.skip,
        )
        (give_up-GivenUp s1 d)
    where
      same :
          (s1 : Server)
          → Dropped s r s1
          → (field : Request → ℤ)
          → ((q : Request) (o : Option ℕ) → field (record q { timeout_node = o }) ≡ field q)
          → {v : ℤ} → field (req_of s r) ≡ v
          → field (req_of s1 r) ≡ v
      same s1 d field keep e =
          ap (λ x. field (x.reqs r)) d.reqs
          ∙ update_keeps field s.table.requests.reqs r (record (req_of s r) { timeout_node = none })
              (keep (req_of s r) none) r
          ∙ e
