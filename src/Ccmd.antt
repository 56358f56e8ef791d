-- ===== src/Ccmd.antt =====
-- src/ccmd.c, ccmd_skip(): the chain of commands that the client builds its messages from.
--
-- A ccmd_node_t* is the rest of the chain from that node on, and NULL is the empty chain.
pub mod Blocks
mod Tests
use distwalk_iouring.Prelude.{ℕ, zero, suc, Bool, true, false, List, [], ◌∷◌, ◌==◌, if◌then◌else◌}
use distwalk_iouring.Message.{CommandType, forward_begin, reply, is_continue}

-- The fields of ccmd_node_t that steer the walk.
pub record CcmdNode : Type 0 where
  pub cmd : CommandType
  pub n_skip : ℕ
  pub n_every : ℕ

-- What a command does to the depth of the walk.
pub data Role : Type 0 where
  opens closes stays : Role

abbrev pub role : CommandType → Role
role forward_begin = opens
role reply = closes
role _ = stays

-- There is a next node, and it is not a FORWARD_CONTINUE.
abbrev pub ends_context : List CcmdNode → Bool
ends_context [] = false
ends_context (x ∷ xs) = if is_continue x.cmd then false else true

-- The step of the inner loop at one node, which goes on at a depth, or returns NULL.
abbrev pub leave_by : Role → ℕ → Bool → (ℕ → List CcmdNode) → List CcmdNode
leave_by opens nested ends go_on = go_on (suc nested)
leave_by closes zero ends go_on = []
leave_by closes (suc n) ends go_on = go_on (if ends then n else suc n)
leave_by stays nested ends go_on = go_on nested

-- The inner loop of ccmd_skip(), from a node on, at the depth `nested`.
unfoldable pub leave_context : ℕ → List CcmdNode → List CcmdNode
leave_context nested [] = []
leave_context nested (x ∷ xs) =
    leave_by (role x.cmd) nested (ends_context xs) λ k. if k == 0 then xs else leave_context k xs

unfoldable pub ccmd_skip : List CcmdNode → ℕ → List CcmdNode
ccmd_skip xs zero = xs
ccmd_skip [] (suc n) = []
ccmd_skip (x ∷ xs) (suc n) = ccmd_skip (leave_context 0 (x ∷ xs)) n
