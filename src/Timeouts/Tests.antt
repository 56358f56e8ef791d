-- ===== src/Timeouts/Tests.antt =====
-- A worker with timeouts at 30 and at 50, and the theorems on it.
use distwalk_iouring.Prelude.{ℕ, zero, suc, ◌+◌, ◌<◌, ◌≡◌, refl, some, arith}
use distwalk_iouring.Prelude.Int.{pos, ◌+ℤ◌, ◌-ℤ◌}
use distwalk_iouring.Prelude.Run.{◌>>=◌, Returns}
use distwalk_iouring.Prelude.Tables.{update}
use distwalk_iouring.Node.{Node, no_node}
use distwalk_iouring.Timespec.{Timespec, us_to_its}
use distwalk_iouring.Timespec.Laws.{its_to_us-us_to_its}
use distwalk_iouring.PQueue.{PQueue}
use distwalk_iouring.PQueue.Keys.{IsHeap}
use distwalk_iouring.PQueue.Links.{IsIn, keys}
use distwalk_iouring.PQueue.Insert.{IsValid}
use distwalk_iouring.Request.{unused, req_get_by_id, slot}
use distwalk_iouring.Timeouts.{Worker, insert_timeout, remove_timeout}
use distwalk_iouring.Timeouts.Insert.{Armed, IntSums, insert_timeout-Armed}
use distwalk_iouring.Timeouts.Remove.{now, Disarmed, remove_timeout-Disarmed}
use distwalk_iouring.Timeouts.Twice.{Ahead, HasTimeout, insert_timeout-twice}

-- Node 1 is at the root, and its time is 30; that of node 0 is 50.
abbrev nodes : ℕ → Node
nodes zero = record { heap_id = 1; key = pos 50; payload = 65541 }
nodes (suc zero) = record { heap_id = 0; key = pos 30; payload = 65540 }
nodes (suc (suc n)) = no_node

abbrev places : ℕ → ℕ
places zero = 1
places (suc n) = 0

abbrev queue : PQueue
queue = record { nodes = nodes; heap = places; stack = λ i. 2; size = 2; capacity = 3 }

queue-inside : (i : ℕ) → i < 2 → places i < 3
queue-inside zero h = omega arith
queue-inside (suc i) h = omega arith

queue-place : (i : ℕ) → i < 2 → (nodes (places i)).heap_id ≡ i
queue-place zero h = refl
queue-place (suc zero) h = refl
queue-place (suc (suc i)) h = absurd (omega arith)

queue-IsHeap : IsHeap (keys queue) 2
queue-IsHeap zero p h = absurd (omega arith)
queue-IsHeap (suc zero) p h = omega arith
queue-IsHeap (suc (suc c)) p h = absurd (omega arith)

queue-IsValid : IsValid queue
queue-IsValid = record {
  linked = record { fits = omega arith; inside = queue-inside; place = queue-place };
  heap = queue-IsHeap;
  free = λ j h. omega arith;
  unused = λ j h i. omega (arith, i.back);
  once = λ i j l h. absurd (omega arith);
}

-- Requests 65540 and 65541 have the two timeouts, and 65542 has none.
abbrev worker : Worker
worker = record {
  timeout_queue = queue;
  requests = record {
    reqs =
        update
          (update
            (update (λ i. unused) 4 (record unused { req_id = pos 65540; timeout_node = some 1 })) 5
            (record unused { req_id = pos 65541; timeout_node = some 0 }))
          6 (record unused { req_id = pos 65542 });
    last_reqs = pos 65543;
  };
  time_elapsed = pos 0;
  timer = us_to_its (pos 30);
}

found : req_get_by_id worker.requests (pos 65540) ≡ some 4
unfolding req_get_by_id slot
found = refl

found_free : req_get_by_id worker.requests (pos 65542) ≡ some 6
unfolding req_get_by_id slot
found_free = refl

node_1-IsIn : IsIn queue 1
node_1-IsIn = record { at = omega arith; back = refl }

-- Ten microseconds of the thirty are left.
abbrev left : Timespec
left = us_to_its (pos 10)

at_20 : now worker left ≡ pos 20
unfolding ◌-ℤ◌
at_20 = rw (its_to_us-us_to_its 10).1 refl

queue-Ahead : Ahead queue 1 20 5
queue-Ahead zero i ne = (30, refl, omega arith)
queue-Ahead (suc zero) i ne = absurd (ne refl)
queue-Ahead (suc (suc m)) i ne = absurd (omega (arith, i.back))

worker-IntSums : IntSums worker (pos 5) left
unfolding ◌+ℤ◌ ◌-ℤ◌
worker-IntSums = record {
  elapsed = (omega arith, omega arith);
  key = (omega arith, omega arith);
  due = rw (its_to_us-us_to_its 10).1 (omega arith, omega arith);
}

insert_timeout-Armed_example :
    Returns
      (Armed worker 6 (pos 65542) (pos 5) left)
      (insert_timeout worker (pos 65542) (pos 5) left)
insert_timeout-Armed_example =
    insert_timeout-Armed worker 6 (pos 65542) 5 left queue-IsValid (omega arith) found_free refl
      (λ h. worker-IntSums)

remove_timeout-Disarmed_example :
    Returns (Disarmed worker 4 1 left) (remove_timeout worker (pos 65540) left)
remove_timeout-Disarmed_example =
    remove_timeout-Disarmed worker (pos 65540) 4 1 left queue-IsValid found refl node_1-IsIn

insert_timeout-twice_example :
    Returns
      (λ w2. HasTimeout w2 6 (pos (5 + 20 + 20)))
      (remove_timeout worker (pos 65540) left >>= λ o.
        insert_timeout o.1 (pos 65542) (pos 5) o.1.timer)
insert_timeout-twice_example =
    insert_timeout-twice worker (pos 65540) (pos 65542) 4 6 1 20 5 left queue-IsValid (omega arith)
      found refl node_1-IsIn refl at_20 queue-Ahead found_free (λ e. omega (arith, e)) refl
