-- ===== src/Storage/Worker/Waits.antt =====
-- src/dw_node.c, storage_worker(): the requests that wait for the next sync.
use distwalk_iouring.Prelude.{ℕ, ◌+◌, ◌≤◌, ◌<◌, ◌≡◌, refl, ◌∙◌, Bool, true, false, List, arith}
use distwalk_iouring.Prelude.Int.{ℤ}
use distwalk_iouring.Prelude.Run.{Returns-inv}
use distwalk_iouring.Memory.{Bytes}
use distwalk_iouring.PQueue.{PQueue, pqueue_insert}
use distwalk_iouring.PQueue.Links.{IsIn}
use distwalk_iouring.PQueue.Insert.{IsValid, Inserted, pqueue_insert-Inserted}
use distwalk_iouring.Timeouts.{to_value}
use distwalk_iouring.Server.Kept.{
  IfReturns, if_ok, IfReturns-bind, IfReturns-ok, IfReturns-map, IfReturns-if,
}
use distwalk_iouring.Storage.{StorageOpts, WriteAnswer, store, load}
use distwalk_iouring.Storage.Worker.{
  StorageWorker, StorageReq, store_req, load_req, unknown, stored, after_store, on_storage,
}

-- The second heap has the nodes of the first, and one more at most.
pub record Grown (q q' : PQueue) : Type 0 where
  pub valid : IsValid q'
  pub size : q'.size ≤ q.size + 1
  pub capacity : q'.capacity ≡ q.capacity
  others : (m : ℕ) → IsIn q m → IsIn q' m
  kept_key : (m : ℕ) → IsIn q m → (q'.nodes m).key ≡ (q.nodes m).key
  kept_payload : (m : ℕ) → IsIn q m → (q'.nodes m).payload ≡ (q.nodes m).payload

Grown-refl : (q : PQueue) → IsValid q → Grown q q
Grown-refl q v = record {
  valid = v;
  size = omega arith;
  capacity = refl;
  others = λ m i. i;
  kept_key = λ m i. refl;
  kept_payload = λ m i. refl;
}

Grown-Inserted : {q r : PQueue} {key : ℤ} {payload n : ℕ} → Inserted q key payload n r → Grown q r
Grown-Inserted i = record {
  valid = i.valid;
  size = let s = i.size in omega arith;
  capacity = i.capacity;
  others = i.others;
  kept_key = i.kept_key;
  kept_payload = i.kept_payload;
}

-- A node of the heap waits for the reply to the request.
pub record Waits (worker_id req_id : ℤ) (w : StorageWorker) : Type 0 where
  pub node : ℕ
  pub inside : IsIn w.sync_waiting_queue node
  pub key : (w.sync_waiting_queue.nodes node).key ≡ worker_id
  pub payload : (w.sync_waiting_queue.nodes node).payload ≡ to_value req_id

pub Waits-Grown :
    {worker_id req_id : ℤ} {w w' : StorageWorker}
    → Grown w.sync_waiting_queue w'.sync_waiting_queue
    → Waits worker_id req_id w
    → Waits worker_id req_id w'
Waits-Grown g a = record {
  node = a.node;
  inside = g.others a.node a.inside;
  key = g.kept_key a.node a.inside ∙ a.key;
  payload = g.kept_payload a.node a.inside ∙ a.payload;
}

-- What a request changes of the worker.
pub record Stepped (w w' : StorageWorker) : Type 0 where
  pub grown : Grown w.sync_waiting_queue w'.sync_waiting_queue
  periodic : w'.periodic ≡ w.periodic

Stepped-refl : (w : StorageWorker) → IsValid w.sync_waiting_queue → Stepped w w
Stepped-refl w v = record { grown = Grown-refl w.sync_waiting_queue v; periodic = refl }

insert-if :
    (q : PQueue) (key : ℤ) (payload : ℕ)
    → IsValid q
    → q.size < q.capacity
    → IfReturns (λ (x : ℕ × PQueue). Inserted q key payload x.0 x.1) (pqueue_insert q key payload)
insert-if q key payload v room =
    let (x, e, i) = Returns-inv (pqueue_insert-Inserted key payload v room) in rw e (if_ok i)

abbrev pub HasRoom : StorageWorker → Type 0
HasRoom w = w.sync_waiting_queue.size < w.sync_waiting_queue.capacity

module _ (w : StorageWorker) (v : IsValid w.sync_waiting_queue) (room : HasRoom w) where
  after_store-Stepped :
      (worker_id req_id : ℤ) (wait_sync : Bool)
      → IfReturns (Stepped w) (after_store w worker_id req_id wait_sync)
  unfolding after_store
  after_store-Stepped worker_id req_id false = if_ok (Stepped-refl w v)
  after_store-Stepped worker_id req_id true =
      IfReturns-if w.periodic
        (IfReturns-bind (pqueue_insert w.sync_waiting_queue worker_id (to_value req_id)) λ x e.
          if_ok (record {
            grown = Grown-Inserted (
                IfReturns-ok (insert-if w.sync_waiting_queue worker_id (to_value req_id) v room) e);
            periodic = refl;
          }))
        (if_ok (record { grown = Grown-refl w.sync_waiting_queue v; periodic = refl }))

  after_store-Waits :
      (worker_id req_id : ℤ)
      → w.periodic ≡ true
      → IfReturns (Waits worker_id req_id) (after_store w worker_id req_id true)
  unfolding after_store
  after_store-Waits worker_id req_id p = rw p (
      IfReturns-bind (pqueue_insert w.sync_waiting_queue worker_id (to_value req_id)) λ x e.
        let i =
          IfReturns-ok (insert-if w.sync_waiting_queue worker_id (to_value req_id) v room) e in
        if_ok (record { node = x.0; inside = i.there; key = i.has_key; payload = i.has_payload }))

module _ (w : StorageWorker) (v : IsValid w.sync_waiting_queue) (room : HasRoom w) where
  pub on_storage-Stepped :
      (blk_size : ℕ) (buf : Bytes) (r : StorageReq)
      → IfReturns (Stepped w) (on_storage blk_size buf w r)
  unfolding on_storage
  on_storage-Stepped blk_size buf (store_req worker_id req_id o lseek_ok rs) =
      IfReturns-bind (store w.storage_info blk_size o w.periodic lseek_ok rs buf) λ done _.
        IfReturns-map (after_store-Stepped (stored w done) v room worker_id req_id o.wait_sync)
          λ w' s. record { grown = s.grown; periodic = s.periodic }
  on_storage-Stepped blk_size buf (load_req worker_id req_id o lseek_ok rs) =
      IfReturns-bind (load w.storage_info o lseek_ok rs)
        λ done _. if_ok (record { grown = Grown-refl w.sync_waiting_queue v; periodic = refl })
  on_storage-Stepped blk_size buf unknown = if_ok (Stepped-refl w v)

  pub on_storage-Waits :
      (blk_size : ℕ) (buf : Bytes) (worker_id req_id : ℤ) (o : StorageOpts) (lseek_ok : Bool)
      (rs : List WriteAnswer)
      → w.periodic ≡ true
      → o.wait_sync ≡ true
      → IfReturns
          (Waits worker_id req_id)
          (on_storage blk_size buf w (store_req worker_id req_id o lseek_ok rs))
  unfolding on_storage
  on_storage-Waits blk_size buf worker_id req_id o lseek_ok rs p s =
      IfReturns-bind (store w.storage_info blk_size o w.periodic lseek_ok rs buf)
        λ done _. rw s (after_store-Waits (stored w done) v room worker_id req_id p)
