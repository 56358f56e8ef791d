-- ===== src/PQueue/Tests.antt =====
-- A queue with the keys 5 and 3, and the theorems on it.
use distwalk_iouring.Prelude.{ℕ, zero, suc, ◌<◌, ◌≡◌, refl, arith}
use distwalk_iouring.Prelude.Int.{pos}
use distwalk_iouring.Prelude.Run.{Returns}
use distwalk_iouring.Node.{Node, no_node}
use distwalk_iouring.PQueue.{PQueue, pqueue_insert, pqueue_remove}
use distwalk_iouring.PQueue.Keys.{IsHeap}
use distwalk_iouring.PQueue.Links.{IsIn, keys}
use distwalk_iouring.PQueue.Insert.{IsValid, Inserted, pqueue_insert-Inserted}
use distwalk_iouring.PQueue.TakeOut.{Removed}
use distwalk_iouring.PQueue.Remove.{pqueue_remove-Removed}

-- Node 1 has the key 3 and is at the root; node 0 has the key 5.
abbrev two_nodes : ℕ → Node
two_nodes zero = record { heap_id = 1; key = pos 5; payload = 50 }
two_nodes (suc zero) = record { heap_id = 0; key = pos 3; payload = 30 }
two_nodes (suc (suc n)) = no_node

abbrev two_places : ℕ → ℕ
two_places zero = 1
two_places (suc n) = 0

abbrev two : PQueue
two = record { nodes = two_nodes; heap = two_places; stack = λ i. 2; size = 2; capacity = 3 }

two-inside : (i : ℕ) → i < 2 → two_places i < 3
two-inside zero h = omega arith
two-inside (suc i) h = omega arith

two-place : (i : ℕ) → i < 2 → (two_nodes (two_places i)).heap_id ≡ i
two-place zero h = refl
two-place (suc zero) h = refl
two-place (suc (suc i)) h = absurd (omega arith)

two-IsHeap : IsHeap (keys two) 2
two-IsHeap zero p h = absurd (omega arith)
two-IsHeap (suc zero) p h = omega arith
two-IsHeap (suc (suc c)) p h = absurd (omega arith)

two-IsValid : IsValid two
two-IsValid = record {
  linked = record { fits = omega arith; inside = two-inside; place = two-place };
  heap = two-IsHeap;
  free = λ j h. omega arith;
  unused = λ j h i. omega (arith, i.back);
  once = λ i j l h. absurd (omega arith);
}

zero-IsIn : IsIn two 0
zero-IsIn = record { at = omega arith; back = refl }

pqueue_insert-Inserted_example :
    Returns (λ (r : ℕ × PQueue). Inserted two (pos 1) 10 r.0 r.1) (pqueue_insert two (pos 1) 10)
pqueue_insert-Inserted_example = pqueue_insert-Inserted (pos 1) 10 two-IsValid (omega arith)

abbrev full : PQueue
full = record { nodes = two_nodes; heap = two_places; stack = λ i. 0; size = 2; capacity = 2 }

pqueue_remove-Removed_example : Returns (Removed two 0) (pqueue_remove two 0)
pqueue_remove-Removed_example = pqueue_remove-Removed 0 two-IsValid zero-IsIn
