-- ===== src/Ccmd/Blocks.antt =====
-- ccmd_skip(): what it skips is whole commands, a FORWARD with all that belongs to it being one.
use distwalk_iouring.Prelude.{
  ℕ, zero, suc, ◌≡◌, refl, sym, ap, ◌∙◌, true, false, List, [], ◌∷◌, ◌++◌, arith, ◌==◌,
  if◌then◌else◌,
}
use distwalk_iouring.Message.{
  CommandType, compute, store, load, pskip, forward_begin, forward_continue, reply, eom, invalid,
  is_continue,
}
use distwalk_iouring.Ccmd.{
  CcmdNode, opens, closes, stays, role, ends_context, leave_context, ccmd_skip,
}

-- The chain does not go on with a FORWARD_CONTINUE.
abbrev pub NoContinue : List CcmdNode → Type 0
NoContinue [] = Unit {0}
NoContinue (x ∷ xs) = is_continue x.cmd ≡ false

-- One command as the client means it: a plain one, or a FORWARD_BEGIN with its body; and a body: it
-- ends at a REPLY, and has plain and nested commands, FORWARD_CONTINUE, and, for branches, a REPLY
-- that a FORWARD_CONTINUE follows.
mutual
  pub data IsBlock : List CcmdNode → Type 0 where
    plain : {x : CcmdNode} → role x.cmd ≡ stays → IsBlock (x ∷ [])
    forward :
        {x : CcmdNode} {body : List CcmdNode}
        → role x.cmd ≡ opens
        → IsBody body
        → IsBlock (x ∷ body)

  pub data IsBody : List CcmdNode → Type 0 where
    last : {x : CcmdNode} → role x.cmd ≡ closes → IsBody (x ∷ [])
    branch :
        {x y : CcmdNode} {body : List CcmdNode}
        → role x.cmd ≡ closes
        → is_continue y.cmd ≡ true
        → IsBody body
        → IsBody (x ∷ y ∷ body)
    then_block :
        {block body : List CcmdNode}
        → IsBlock block
        → NoContinue body
        → IsBody body
        → IsBody (block ++ body)
    then_continue :
        {x : CcmdNode} {body : List CcmdNode}
        → is_continue x.cmd ≡ true
        → IsBody body
        → IsBody (x ∷ body)

-- One command after the other.
pub data IsBlocks : ℕ → List CcmdNode → Type 0 where
  no_more : IsBlocks 0 []
  more :
      {n : ℕ} {block blocks : List CcmdNode}
      → IsBlock block
      → NoContinue blocks
      → IsBlocks n blocks
      → IsBlocks (suc n) (block ++ blocks)

append_assoc : (a b c : List CcmdNode) → (a ++ b) ++ c ≡ a ++ (b ++ c)
append_assoc [] b c = refl
append_assoc (x ∷ a) b c = ap (λ z. x ∷ z) (append_assoc a b c)

NoContinue-append : (xs ys : List CcmdNode) → NoContinue xs → NoContinue ys → NoContinue (xs ++ ys)
NoContinue-append [] ys p q = q
NoContinue-append (x ∷ xs) ys p q = p

continue_stays : (c : CommandType) → is_continue c ≡ true → role c ≡ stays
continue_stays forward_continue e = refl
continue_stays compute e = refl
continue_stays store e = refl
continue_stays load e = refl
continue_stays pskip e = refl
continue_stays eom e = refl
continue_stays (invalid v) e = refl
continue_stays forward_begin e = cc
continue_stays reply e = cc

-- The walk at the depth `k`, which is over at 0.
abbrev at_depth : ℕ → List CcmdNode → List CcmdNode
at_depth k xs = if k == 0 then xs else leave_context k xs

at_depth_deeper : (n : ℕ) (xs : List CcmdNode) → at_depth (suc n) xs ≡ leave_context (suc n) xs
at_depth_deeper n xs = let e : (suc n == 0) ≡ false = ground arith in rw e refl

at_depth_end : (n : ℕ) → at_depth n [] ≡ []
unfolding leave_context
at_depth_end zero = refl
at_depth_end (suc n) = at_depth_deeper n []

step_stays :
    (n : ℕ) (x : CcmdNode) (xs : List CcmdNode)
    → role x.cmd ≡ stays
    → leave_context n (x ∷ xs) ≡ at_depth n xs
unfolding leave_context
step_stays n x xs e = rw e refl

step_opens :
    (n : ℕ) (x : CcmdNode) (xs : List CcmdNode)
    → role x.cmd ≡ opens
    → leave_context n (x ∷ xs) ≡ leave_context (suc n) xs
unfolding leave_context
step_opens n x xs e = rw e (at_depth_deeper n xs)

step_closes :
    (n : ℕ) (x : CcmdNode) (xs : List CcmdNode)
    → role x.cmd ≡ closes
    → leave_context (suc n) (x ∷ xs) ≡ at_depth (if ends_context xs then n else suc n) xs
unfolding leave_context
step_closes n x xs e = rw e refl

-- A REPLY before what is not a FORWARD_CONTINUE.
closes_last :
    (n : ℕ) (x : CcmdNode) (rest : List CcmdNode)
    → role x.cmd ≡ closes
    → NoContinue rest
    → leave_context (suc n) (x ∷ rest) ≡ at_depth n rest
closes_last n x [] e h = step_closes n x [] e ∙ at_depth_end (suc n) ∙ sym (at_depth_end n)
closes_last n x (y ∷ rest) e h = step_closes n x (y ∷ rest) e ∙ rw h refl

mutual
  walk_block :
      {block : List CcmdNode}
      → IsBlock block
      → (n : ℕ) (rest : List CcmdNode) → NoContinue rest
      → leave_context n (block ++ rest) ≡ at_depth n rest
  walk_block (plain {x = x} e) n rest h = step_stays n x rest e
  walk_block (forward {x = x} {body = body} e b) n rest h =
      step_opens n x (body ++ rest) e ∙ walk_body b n rest h

  walk_body :
      {body : List CcmdNode}
      → IsBody body
      → (n : ℕ) (rest : List CcmdNode) → NoContinue rest
      → leave_context (suc n) (body ++ rest) ≡ at_depth n rest
  walk_body (last {x = x} e) n rest h = closes_last n x rest e h
  walk_body (branch {x = x} {y = y} {body = body} e c b) n rest h =
      step_closes n x (y ∷ body ++ rest) e
      ∙ rw c (
          at_depth_deeper n (y ∷ body ++ rest)
          ∙ step_stays (suc n) y (body ++ rest) (continue_stays y.cmd c)
          ∙ at_depth_deeper n (body ++ rest)
          ∙ walk_body b n rest h)
  walk_body (then_block {block = block} {body = body} a k b) n rest h =
      ap (leave_context (suc n)) (append_assoc block body rest)
      ∙ walk_block a (suc n) (body ++ rest) (NoContinue-append body rest k h)
      ∙ at_depth_deeper n (body ++ rest)
      ∙ walk_body b n rest h
  walk_body (then_continue {x = x} {body = body} c b) n rest h =
      step_stays (suc n) x (body ++ rest) (continue_stays x.cmd c)
      ∙ at_depth_deeper n (body ++ rest)
      ∙ walk_body b n rest h

skip_block :
    {block : List CcmdNode} (n : ℕ) (rest : List CcmdNode)
    → IsBlock block
    → NoContinue rest
    → ccmd_skip (block ++ rest) (suc n) ≡ ccmd_skip rest n
unfolding ccmd_skip
skip_block n rest (plain {x = x} e) h =
    ap (λ z. ccmd_skip z n) (walk_block (plain {x = x} e) 0 rest h)
skip_block n rest (forward {x = x} {body = body} e b) h =
    ap (λ z. ccmd_skip z n) (walk_block (forward e b) 0 rest h)

-- ccmd_skip() of a number of commands, at a place where that many whole commands come and what is
-- behind them does not begin with a FORWARD_CONTINUE, returns what is behind them.
pub ccmd_skip-blocks :
    {n : ℕ} {blocks : List CcmdNode} (rest : List CcmdNode)
    → IsBlocks n blocks
    → NoContinue rest
    → ccmd_skip (blocks ++ rest) n ≡ rest
unfolding ccmd_skip
ccmd_skip-blocks [] no_more h = refl
ccmd_skip-blocks (x ∷ rest) no_more h = refl
ccmd_skip-blocks rest (more {n = n} {block = block} {blocks = blocks} b k bs) h =
    ap (λ z. ccmd_skip z (suc n)) (append_assoc block blocks rest)
    ∙ skip_block n (blocks ++ rest) b (NoContinue-append blocks rest k h)
    ∙ ccmd_skip-blocks rest bs h
