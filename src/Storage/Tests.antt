-- ===== src/Storage/Tests.antt =====
-- A device of a thousand bytes, and the theorems on it.
use distwalk_iouring.Prelude.{
  ℕ, ◌≡◌, refl, Bool, true, false, some, List, [], ◌∷◌, arith, length, replicate, length-replicate,
}
use distwalk_iouring.Prelude.Run.{ok, Returns, Returns-inv}
use distwalk_iouring.Memory.{Bytes}
use distwalk_iouring.Connection.{buf_size}
use distwalk_iouring.Storage.{
  wrote, WriteAnswer, StorageInfo, StorageOpts, no_offset, round_up, store, rounded, place_for,
  store_loop, safe_write,
}
use distwalk_iouring.Prelude.Int.{pos}
use distwalk_iouring.Node.{no_node}
use distwalk_iouring.PQueue.{
  PQueue, pqueue_alloc, pqueue_insert, stack_index, up, get_parent_node, node_at, swap_node,
}
use distwalk_iouring.PQueue.Insert.{Inserted, pqueue_alloc-IsValid, pqueue_insert-Inserted}
use distwalk_iouring.Storage.Worker.{
  StorageWorker, StorageReq, store_req, unknown, after_store, on_storage, serve_all, on_timer,
}
use distwalk_iouring.Storage.Worker.Sync.{Synced, on_timer-Synced}
use distwalk_iouring.Storage.Worker.Answered.{Answered, on_timer-Answered}
use distwalk_iouring.Storage.Direct.{store-direct_start}

zeros : (n : ℕ) → (b : Bytes) × (length b ≡ n)
zeros n = (replicate n 0, length-replicate n 0)

blank : Bytes
blank = (zeros buf_size).0

length-blank : length blank ≡ buf_size
unfolding blank
length-blank = (zeros buf_size).1

abbrev device : Bool → StorageInfo
device direct = record { use_odirect = direct; max_storage_size = 1000; storage_offset = 998 }

abbrev behind : StorageOpts
behind = record { offset = no_offset; nbytes = 3; wait_sync = true }

abbrev answers : List WriteAnswer
answers = wrote 2 ∷ wrote 1 ∷ wrote 5 ∷ wrote 1 ∷ []

in_blocks_of_2 : round_up 3 2 ≡ ok 4
unfolding round_up
in_blocks_of_2 = refl

store-direct_start_example :
    Returns
      (λ d. (length d.bytes ≡ 4) × (d.seek ≡ some 0) × (d.info.storage_offset ≡ 4))
      (store (device true) 2 behind false true answers blank)
store-direct_start_example =
    store-direct_start (device true) 2147483648 1 behind 4 false answers blank refl refl
      (omega arith) refl in_blocks_of_2 length-blank
      (omega arith, (omega arith, (omega arith, (omega arith, tt)))) (omega arith)

-- Two requests wait, of the workers 5 and 3.
one_waits : (x : ℕ × PQueue) × Inserted (pqueue_alloc (λ n. no_node) (λ n. 0) 4) (pos 5) 50 x.0 x.1
unfolding pqueue_alloc
one_waits =
    let (x, e, i) = Returns-inv (
      pqueue_insert-Inserted (pos 5) 50 (pqueue_alloc-IsValid (λ n. no_node) (λ n. 0) 4).0
        (omega arith)) in
    (x, i)

two_wait : (x : ℕ × PQueue) × Inserted one_waits.0.1 (pos 3) 30 x.0 x.1
unfolding pqueue_alloc
two_wait =
    let n = one_waits.1.size in
    let c = one_waits.1.capacity in
    let (x, e, i) =
      Returns-inv (pqueue_insert-Inserted (pos 3) 30 one_waits.1.valid (omega arith)) in
    (x, i)

abbrev storage_worker : PQueue → StorageWorker
storage_worker q = record {
  storage_info = device false;
  periodic = true;
  sync_waiting_queue = q;
  replies = [];
  syncs = 0;
}

on_timer-Synced_example :
    Returns (Synced (storage_worker two_wait.0.1)) (on_timer (storage_worker two_wait.0.1))
on_timer-Synced_example = on_timer-Synced (storage_worker two_wait.0.1) two_wait.1.valid

abbrev idle : StorageWorker
idle = storage_worker (pqueue_alloc (λ n. no_node) (λ n. 0) 4)

abbrev pair : Bytes
pair = 1 ∷ 2 ∷ []

abbrev both : StorageOpts
both = record { offset = 6; nbytes = 2; wait_sync = true }

abbrev whole : List WriteAnswer
whole = wrote 2 ∷ []

abbrev others : List (Bytes × StorageReq)
others = (pair, store_req (pos 2) (pos 8) both true whole) ∷ (pair, unknown) ∷ []

served :
    (w : StorageWorker) × (serve_all 0 idle
        ((pair, store_req (pos 3) (pos 7) both true whole) ∷ others)
      ≡ ok w)
unfolding serve_all on_storage after_store store rounded place_for store_loop safe_write
    pqueue_alloc pqueue_insert stack_index up get_parent_node node_at swap_node
served = (_, refl)

on_timer-Answered_example : Returns (Answered (pos 3) (pos 7) served.0) (on_timer served.0)
unfolding pqueue_alloc
on_timer-Answered_example =
    on_timer-Answered 0 pair idle served.0 (pos 3) (pos 7) both true whole others
      (pqueue_alloc-IsValid (λ n. no_node) (λ n. 0) 4).0 (omega arith) refl refl
      (omega arith, omega arith) served.1
