-- ===== src/Ccmd/Tests.antt =====
-- A chain with a FORWARD, and the theorem on it.
use distwalk_iouring.Prelude.{◌≡◌, refl, List, [], ◌∷◌, ◌++◌}
use distwalk_iouring.Message.{CommandType, compute, forward_begin, forward_continue, reply}
use distwalk_iouring.Ccmd.{CcmdNode, ccmd_skip}
use distwalk_iouring.Ccmd.Blocks.{
  IsBlock, forward, then_continue, then_block, plain, last, more, no_more, ccmd_skip-blocks,
}

abbrev node : CommandType → CcmdNode
node c = record { cmd = c; n_skip = 0; n_every = 1 }

-- FORWARD_BEGIN, FORWARD_CONTINUE, COMPUTE, REPLY
abbrev forwarded : List CcmdNode
forwarded = node forward_begin ∷ node forward_continue ∷ node compute ∷ node reply ∷ []

forwarded-IsBlock : IsBlock forwarded
forwarded-IsBlock =
    forward refl
      (then_continue refl (then_block {block = node compute ∷ []} (plain refl) refl (last refl)))

ccmd_skip-blocks_example : ccmd_skip (forwarded ++ node reply ∷ []) 1 ≡ node reply ∷ []
ccmd_skip-blocks_example =
    ccmd_skip-blocks (node reply ∷ []) (more {block = forwarded} forwarded-IsBlock tt no_more) refl
