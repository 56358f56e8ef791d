-- ===== src/Storage/Worker/Answered.antt =====
-- src/dw_node.c, storage_worker(): a STORE that waits for the next sync.
use distwalk_iouring.Prelude.{
  ℕ, ◌+◌, ◌-◌, ◌%◌, ◌^◌, ◌≤◌, ◌≡◌, refl, ap, ap₂, ◌∙◌, inl, inr, Bool, true, false, List, [], ◌∷◌,
  ◌++◌, map, arith, length, ltb,
}
use distwalk_iouring.Prelude.Int.{ℤ, pos, negsuc}
use distwalk_iouring.Prelude.Run.{ok, Returns, Returns-map}
use distwalk_iouring.Memory.{Bytes}
use distwalk_iouring.PQueue.Insert.{IsValid}
use distwalk_iouring.Conns.Members.{◌∈◌}
use distwalk_iouring.Timeouts.{IsInt, to_value}
use distwalk_iouring.Server.{to_int}
use distwalk_iouring.Server.Kept.{IfReturns, if_ok, IfReturns-bind, IfReturns-ok}
use distwalk_iouring.Storage.{StorageOpts, WriteAnswer}
use distwalk_iouring.Storage.Worker.{
  Reply, StorageWorker, StorageReq, store_req, on_storage, serve_all, on_timer,
}
use distwalk_iouring.Storage.Worker.Sync.{reply_of, Synced, on_timer-Synced}
use distwalk_iouring.Storage.Worker.Waits.{
  Waits, Waits-Grown, HasRoom, on_storage-Stepped, on_storage-Waits,
}

to_int-to_value : (z : ℤ) → IsInt z → to_int (to_value z % 4294967296) ≡ z
to_int-to_value (pos n) (h, _) =
    let same : n % 4294967296 ≡ n = omega arith in
    let small : ltb n 2147483648 ≡ true = ground arith in rw (same, small) refl
to_int-to_value (negsuc n) (_, h) =
    let same : (2 ^ 64 - 1 - n) % 4294967296 ≡ 4294967295 - n = omega arith in
    let large : ltb (4294967295 - n) 2147483648 ≡ false = ground arith in
    let back : 4294967295 - (4294967295 - n) ≡ n = omega arith in rw (same, large, back) refl

serve_all-Waits :
    (blk_size : ℕ) (worker_id req_id : ℤ) (later : List (Bytes × StorageReq)) (w : StorageWorker)
    → IsValid w.sync_waiting_queue
    → w.sync_waiting_queue.size + length later ≤ w.sync_waiting_queue.capacity
    → Waits worker_id req_id w
    → IfReturns
        (λ w'. IsValid w'.sync_waiting_queue × Waits worker_id req_id w')
        (serve_all blk_size w later)
unfolding serve_all
serve_all-Waits blk_size worker_id req_id [] w v room a = if_ok (v, a)
serve_all-Waits blk_size worker_id req_id ((buf, r) ∷ later) w v room a =
    IfReturns-bind (on_storage blk_size buf w r) λ w' e.
      let g = (IfReturns-ok (on_storage-Stepped w v (omega arith) blk_size buf r) e).grown in
      serve_all-Waits blk_size worker_id req_id later w' g.valid
        (let n = g.size in let c = g.capacity in omega arith) (Waits-Grown {w = w} g a)

-- The reply to the request is among those that the event of the timer sends.
pub record Answered (worker_id req_id : ℤ) (w w' : StorageWorker) : Type 0 where
  pub before : List Reply
  pub after : List Reply
  pub replies : w'.replies ≡ w.replies ++ (before ++ (worker_id, req_id) ∷ after)

split_at :
    (f : ℕ → Reply) (n : ℕ) (ns : List ℕ)
    → n ∈ ns
    → (xs : List Reply) × (ys : List Reply) × (map f ns ≡ xs ++ f n ∷ ys)
split_at f n [] m = absurd m
split_at f n (k ∷ ns) (inl e) = ([], map f ns, rw e refl)
split_at f n (k ∷ ns) (inr m) =
    let (xs, ys, e) = split_at f n ns m in (f k ∷ xs, ys, ap (λ zs. f k ∷ zs) e)

answered :
    (worker_id req_id : ℤ) (w w' : StorageWorker)
    → IsInt req_id
    → Waits worker_id req_id w
    → Synced w w'
    → Answered worker_id req_id w w'
answered worker_id req_id w w' int a s =
    let q = w.sync_waiting_queue in
    let f = s.flushed in
    let (xs, ys, e) = split_at (reply_of q) a.node f.nodes (f.all a.node a.inside) in
    let own : reply_of q a.node ≡ (worker_id, req_id) =
      ap₂ (λ x y. (x, y)) a.key (rw a.payload (to_int-to_value req_id int)) in
    record {
      before = xs;
      after = ys;
      replies =
          s.replies
          ∙ ap (λ zs. w.replies ++ zs) (f.replies ∙ e)
          ∙ ap (λ x. w.replies ++ (xs ++ x ∷ ys)) own;
    }

-- A storage worker with a timer, whose heap of the requests that wait is valid, has served a STORE
-- that waits for the sync, and after it other requests for which the heap has room too: at the next
-- event of its timer, which it handles to the end, it sends the reply to the STORE.
pub on_timer-Answered :
    (blk_size : ℕ) (buf : Bytes) (w w' : StorageWorker) (worker_id req_id : ℤ) (o : StorageOpts)
    (lseek_ok : Bool) (rs : List WriteAnswer) (later : List (Bytes × StorageReq))
    → IsValid w.sync_waiting_queue
    → w.sync_waiting_queue.size + 1 + length later ≤ w.sync_waiting_queue.capacity
    → w.periodic ≡ true
    → o.wait_sync ≡ true
    → IsInt req_id
    → serve_all blk_size w ((buf, store_req worker_id req_id o lseek_ok rs) ∷ later) ≡ ok w'
    → Returns (Answered worker_id req_id w') (on_timer w')
unfolding serve_all
on_timer-Answered blk_size buf w w' worker_id req_id o lseek_ok rs later v room p s int e =
    let (v', a) = IfReturns-ok served e in
    Returns-map (on_timer-Synced w' v') λ w'' t. answered worker_id req_id w' w'' int a t
  where
    served :
        IfReturns
          (λ x. IsValid x.sync_waiting_queue × Waits worker_id req_id x)
          (serve_all blk_size w ((buf, store_req worker_id req_id o lseek_ok rs) ∷ later))
    served =
        IfReturns-bind (on_storage blk_size buf w (store_req worker_id req_id o lseek_ok rs)) λ x f.
          let free : HasRoom w = omega arith in
          let g =
            (IfReturns-ok
              (on_storage-Stepped w v free blk_size buf (store_req worker_id req_id o lseek_ok rs))
              f).grown in
          serve_all-Waits blk_size worker_id req_id later x g.valid
            (let n = g.size in let c = g.capacity in omega arith)
            (IfReturns-ok
              (on_storage-Waits w v free blk_size buf worker_id req_id o lseek_ok rs p s) f)
