-- ===== src/Storage/Worker/Sync.antt =====
-- src/dw_node.c, storage_worker(): the timer of a storage worker.
use distwalk_iouring.Prelude.{
  ℕ, zero, suc, ◌+◌, ◌%◌, ◌<◌, ◌≡◌, ◌≢◌, refl, sym, ap, ap₂, ◌∙◌, inl, inr, true, false, List, [],
  ◌∷◌, ◌++◌, map, arith, ltb, ℕ_discrete,
}
use distwalk_iouring.Prelude.Int.{◌≤ℤ◌}
use distwalk_iouring.Prelude.Run.{ok, Returns, returns, Returns-bind}
use distwalk_iouring.PQueue.{PQueue}
use distwalk_iouring.PQueue.Links.{IsIn, keys}
use distwalk_iouring.PQueue.Insert.{IsValid}
use distwalk_iouring.PQueue.TakeOut.{Removed}
use distwalk_iouring.PQueue.Remove.{top-eq, top-IsIn, pqueue_pop-Removed}
use distwalk_iouring.Conns.Members.{◌∈◌}
use distwalk_iouring.Timeouts.Insert.{top_key-ok}
use distwalk_iouring.Server.{to_int}
use distwalk_iouring.Server.Timeout.{top_value}
use distwalk_iouring.Storage.Worker.{Reply, StorageWorker, flush_waiting, on_timer}

-- The reply to the request of a node.
abbrev pub reply_of : PQueue → ℕ → Reply
reply_of q n = ((q.nodes n).key, to_int ((q.nodes n).payload % 4294967296))

-- No node twice, and none before one with a smaller key.
pub data InTurn (q : PQueue) : List ℕ → Type 0 where
  none_left : InTurn q []
  in_turn :
      {n : ℕ} {ns : List ℕ}
      → ((m : ℕ) → m ∈ ns → (n ≢ m) × ((q.nodes n).key ≤ℤ (q.nodes m).key))
      → InTurn q ns
      → InTurn q (n ∷ ns)

-- What the loop leaves of `q`, with the replies that it has sent: those of the nodes of `q`, each
-- once, in the order of their keys.
pub record Flushed (q : PQueue) (q' : PQueue) (sent : List Reply) : Type 0 where
  pub valid : IsValid q'
  pub empty : q'.size ≡ 0
  pub capacity : q'.capacity ≡ q.capacity
  pub nodes : List ℕ
  pub replies : sent ≡ map (reply_of q) nodes
  pub all : (n : ℕ) → IsIn q n → n ∈ nodes
  pub only : (n : ℕ) → n ∈ nodes → IsIn q n
  pub order : InTurn q nodes

top_value-ok : {q : PQueue} → IsValid q → 0 < q.size → top_value q ≡ ok (reply_of q (q.heap 0)).1
unfolding top_value
top_value-ok {q} v h =
    let within : ltb (q.heap 0) q.capacity ≡ true = let l = v.linked.inside 0 h in ground arith in
    rw (top-eq v.linked h, within) refl

module _ {q r : PQueue} {n : ℕ} (d : Removed q n r) where
  reply_of-Removed : (ns : List ℕ) → map (reply_of r) ns ≡ map (reply_of q) ns
  reply_of-Removed [] = refl
  reply_of-Removed (m ∷ ns) =
      ap₂ (λ x xs. x ∷ xs) (rw (d.kept_key m, d.kept_payload m) refl) (reply_of-Removed ns)

  InTurn-Removed : {ns : List ℕ} → InTurn r ns → InTurn q ns
  InTurn-Removed none_left = none_left
  InTurn-Removed (in_turn {n = k} f t) =
      in_turn (λ m i. let (ne, le) = f m i in (ne, rw (d.kept_key k, d.kept_key m) at le))
        (InTurn-Removed t)

flushed :
    (q r q' : PQueue) (sent : List Reply)
    → Removed q (q.heap 0) r
    → ((m : ℕ) → IsIn q m → keys q 0 ≤ℤ (q.nodes m).key)
    → IsIn q (q.heap 0)
    → Flushed r q' sent
    → Flushed q q' (reply_of q (q.heap 0) ∷ sent)
flushed q r q' sent d least top f = record {
  valid = f.valid;
  empty = f.empty;
  capacity = f.capacity ∙ d.capacity;
  nodes = q.heap 0 ∷ f.nodes;
  replies = ap (λ xs. reply_of q (q.heap 0) ∷ xs) (f.replies ∙ reply_of-Removed d f.nodes);
  all = λ n i. elim (ℕ_discrete n (q.heap 0)) [
    | yes e ↦ inl e
    | no e ↦ inr (f.all n (d.others n i e))
  ];
  only = λ n m. elim m [ inl e ↦ rw e top | inr i ↦ d.only n (f.only n i) ];
  order =
      in_turn (λ m i. ((λ e. d.gone (rw (sym e) at (f.only m i))), least m (d.only m (f.only m i))))
        (InTurn-Removed d f.order);
}

flush_waiting-Flushed :
    (fuel : ℕ) (q : PQueue)
    → IsValid q
    → q.size < fuel
    → Returns (λ (x : PQueue × List Reply). Flushed q x.0 x.1) (flush_waiting fuel q)
unfolding flush_waiting
flush_waiting-Flushed zero q v h = absurd (omega arith)
flush_waiting-Flushed (suc fuel) q v h = elim (ℕ_discrete q.size 0) [
  | yes e ↦
      let stop : ltb 0 q.size ≡ false = ground arith in
      rw stop (
        returns (record {
          valid = v;
          empty = e;
          capacity = refl;
          nodes = [];
          replies = refl;
          all = λ n i. let b = i.at in omega arith;
          only = λ n m. absurd m;
          order = none_left;
        }))
  | no ne ↦
      let some_left : 0 < q.size = omega arith in
      let goes : ltb 0 q.size ≡ true = ground arith in
      rw (goes, top_key-ok v.linked some_left, top_value-ok v some_left)
        (Returns-bind (pqueue_pop-Removed v some_left) λ r (d, least).
          Returns-bind (flush_waiting-Flushed fuel r d.valid (let s = d.size in omega arith))
            λ x f. returns (flushed q r x.0 x.1 d least (top-IsIn v.linked some_left) f))
]

-- The worker after an event of its timer: it has synced once, it has sent the replies that waited, and none
-- waits.
pub record Synced (w w' : StorageWorker) : Type 0 where
  pub sent : List Reply
  pub replies : w'.replies ≡ w.replies ++ sent
  pub fsync : w'.syncs ≡ w.syncs + 1
  pub flushed : Flushed w.sync_waiting_queue w'.sync_waiting_queue sent

-- On a valid heap of the requests that wait, whatever its size, the storage worker handles an event
-- of its timer to the end: it syncs once, and behind the replies that it had sent it sends one for each node of the
-- heap, to the worker and with the request of the node, each once and in the order of the workers,
-- and no other; the heap is then valid and empty.
pub on_timer-Synced :
    (w : StorageWorker) → IsValid w.sync_waiting_queue → Returns (Synced w) (on_timer w)
unfolding on_timer
on_timer-Synced w v =
    let q = w.sync_waiting_queue in
    Returns-bind (flush_waiting-Flushed (suc q.size) q v (omega arith))
      λ x f. returns (record { sent = x.1; replies = refl; fsync = refl; flushed = f })
