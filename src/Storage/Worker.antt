-- ===== src/Storage/Worker.antt =====
-- src/dw_node.c, storage_worker(): what a storage worker does for an event of a worker, and for its
-- timer. The pipes to the workers take every reply; `replies` are those that it has sent, the last
-- at the end, each with the worker that it goes to, and `syncs` counts the calls of fsync().
pub mod Sync
pub mod Waits
pub mod Answered
use distwalk_iouring.Prelude.{
  ℕ, zero, suc, ◌+◌, Bool, true, false, ◌&&◌, not, List, [], ◌∷◌, ◌++◌, ltb, if◌then◌else◌,
}
use distwalk_iouring.Prelude.Int.{ℤ}
use distwalk_iouring.Prelude.Run.{Run, ok, out_of_fuel, ◌>>=◌}
use distwalk_iouring.Memory.{Bytes}
use distwalk_iouring.PQueue.{PQueue, pqueue_insert, pqueue_pop}
use distwalk_iouring.Storage.{StorageInfo, StorageOpts, WriteAnswer, ReadAnswer, Done, store, load}
use distwalk_iouring.Timeouts.{to_value, top_key}
use distwalk_iouring.Server.Timeout.{top_value}

-- The worker and the request of a reply.
abbrev pub Reply : Type 0
Reply = ℤ × ℤ

pub record StorageWorker : Type 0 where
  pub storage_info : StorageInfo
  pub periodic : Bool
  pub sync_waiting_queue : PQueue
  pub replies : List Reply
  pub syncs : ℕ

-- storage_req_t, with what lseek() and the device answer for it; `unknown` has another command.
pub data StorageReq : Type 0 where
  store_req : ℤ → ℤ → StorageOpts → Bool → List WriteAnswer → StorageReq
  load_req : ℤ → ℤ → StorageOpts → Bool → List ReadAnswer → StorageReq
  unknown : StorageReq

-- The loop of the timer: the requests that wait get their replies.
unfoldable pub flush_waiting : ℕ → PQueue → Run (PQueue × List Reply)
flush_waiting zero q = out_of_fuel
flush_waiting (suc fuel) q =
    let again = top_key q >>= λ worker_id. top_value q >>= λ req_id. pqueue_pop q >>= λ q'.
    flush_waiting fuel q' >>= λ (rest, sent). ok (rest, (worker_id, req_id) ∷ sent) in
    if ltb 0 q.size then again else ok (q, [])

-- An event of the timer, of which the read() succeeds; a round for each request is enough.
unfoldable pub on_timer : StorageWorker → Run StorageWorker
on_timer w = do
  (q, sent) ← flush_waiting (suc w.sync_waiting_queue.size) w.sync_waiting_queue
  ok (record w { sync_waiting_queue = q; replies = w.replies ++ sent; syncs = w.syncs + 1 })

-- The reply to a request that has been stored, or its place among those that wait.
unfoldable pub after_store : StorageWorker → ℤ → ℤ → Bool → Run StorageWorker
after_store w worker_id req_id wait_sync =
    let now = ok (record w { replies = w.replies ++ (worker_id, req_id) ∷ [] }) in
    let later = pqueue_insert w.sync_waiting_queue worker_id (to_value req_id) >>= λ (n, q).
    ok (record w { sync_waiting_queue = q }) in
    if wait_sync then (if w.periodic then later else now) else ok w

-- The worker when store() has ended.
abbrev pub stored : StorageWorker → Done → StorageWorker
stored w done = record w {
  storage_info = done.info;
  syncs = if done.synced then w.syncs + 1 else w.syncs;
}

-- An event of a worker, whose request has been read; the buffer holds `buf`.
unfoldable pub on_storage : ℕ → Bytes → StorageWorker → StorageReq → Run StorageWorker
on_storage blk_size buf w (store_req worker_id req_id o lseek_ok rs) = do
  done ← store w.storage_info blk_size o w.periodic lseek_ok rs buf
  let w' = stored w done
  after_store w' worker_id req_id o.wait_sync
on_storage blk_size buf w (load_req worker_id req_id o lseek_ok rs) = do
  done ← load w.storage_info o lseek_ok rs
  ok (record w { storage_info = done.info; replies = w.replies ++ (worker_id, req_id) ∷ [] })
on_storage blk_size buf w unknown = ok w

-- Events of workers, one after the other, each with what the buffer holds when it comes.
unfoldable pub serve_all : ℕ → StorageWorker → List (Bytes × StorageReq) → Run StorageWorker
serve_all blk_size w [] = ok w
serve_all blk_size w ((buf, r) ∷ rs) =
    on_storage blk_size buf w r >>= λ w'. serve_all blk_size w' rs
