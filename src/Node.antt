-- ===== src/Node.antt =====
-- src/queueing_common.h: the node that the queue and the priority queue share.
use distwalk_iouring.Prelude.{ℕ}
use distwalk_iouring.Prelude.Int.{ℤ, pos}

-- data_t, a union, as the number that it holds; `key` is a C int.
pub record Node : Type 0 where
  pub heap_id : ℕ
  pub key : ℤ
  pub payload : ℕ

-- what stands for a node that is not there
abbrev pub no_node : Node
no_node = record { heap_id = 0; key = pos 0; payload = 0 }
