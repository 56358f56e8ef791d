-- ===== src/Queue/Tests.antt =====
-- A ring of three nodes, empty, filled, wrapped, and the theorems on it.
use distwalk_iouring.Prelude.{ℕ, ◌≡◌, ◌<◌, refl, Option, some, List, [], ◌∷◌, ◌++◌, arith, length}
use distwalk_iouring.Prelude.Int.{ℤ, pos}
use distwalk_iouring.Prelude.Run.{Returns}
use distwalk_iouring.Node.{Node}
use distwalk_iouring.Queue.{Queue, queue_enqueue, queue_dequeue_head}
use distwalk_iouring.Queue.Fifo.{IsValid, item_at, items, enqueue_refines, dequeue_head_refines}

abbrev node : ℤ → ℕ → Node
node k p = record { heap_id = 0; key = k; payload = p }

abbrev memory : List Node
memory = node (pos 1) 10 ∷ node (pos 2) 20 ∷ node (pos 3) 30 ∷ []

-- The keys 1 and 2, oldest first.
abbrev filled : Queue
filled = record { nodes = memory; head = 0; tail = pos 1; size = 2; capacity = 3 }

-- The keys 3 and 1: the ring wraps behind the last slot.
abbrev wrapped : Queue
wrapped = record { nodes = memory; head = 2; tail = pos 0; size = 2; capacity = 3 }

filled-IsValid : IsValid filled
filled-IsValid = omega arith

wrapped-IsValid : IsValid wrapped
wrapped-IsValid = omega arith

items-wrapped : items wrapped ≡ (pos 3, 30) ∷ (pos 1, 10) ∷ []
items-wrapped = refl

enqueue_refines_example :
    Returns
      (λ (r : Option ℕ × Queue).
        IsValid r.1
        × (items r.1 ≡ items wrapped ++ (pos 9, 90) ∷ [])
        × (i : ℕ) × (r.0 ≡ some i)
        × (i < length r.1.nodes)
        × (item_at r.1.nodes i ≡ (pos 9, 90)))
      (queue_enqueue wrapped (pos 9) 90)
enqueue_refines_example = enqueue_refines (pos 9) 90 wrapped-IsValid (omega arith)

dequeue_head_refines_example :
    IsValid (queue_dequeue_head wrapped)
    × (items wrapped ≡ item_at memory 2 ∷ items (queue_dequeue_head wrapped))
dequeue_head_refines_example = dequeue_head_refines 1 wrapped-IsValid refl
