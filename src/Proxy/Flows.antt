-- ===== src/Proxy/Flows.antt =====
-- src/dw_proxy.c, main(): the proxy accepts no more connections than it has entries for, ever.
use distwalk_iouring.Prelude.{
  ℕ, suc, ◌+◌, ◌≤◌, ◌<◌, ◌≡◌, refl, ap, ◌∙◌, List, [], ◌∷◌, arith, ltb, ◌⊎◌, inl, inr, Bool-cases,
}
use distwalk_iouring.Prelude.Run.{ok, aborted}
use distwalk_iouring.Proxy.{FlowEvent, accepted, ended, max_flows, flows_after}

-- The connections that have come in.
unfoldable pub arrivals : List FlowEvent → ℕ
arrivals [] = 0
arrivals (accepted ∷ es) = suc (arrivals es)
arrivals (ended ∷ es) = arrivals es

-- From `n` flows counted, 16 or fewer, and whatever flows end in between: the loop of main() goes
-- on, with each connection that comes in counted, as long as they make 16 or fewer with the `n`, and
-- aborts when they make more.
pub flows_after-counts :
    (es : List FlowEvent) (n : ℕ)
    → n ≤ max_flows
    → ((n + arrivals es ≤ max_flows) × (flows_after n es ≡ ok (n + arrivals es)))
      ⊎ ((max_flows < n + arrivals es) × (flows_after n es ≡ aborted))
unfolding flows_after arrivals
flows_after-counts [] n h = inl (omega arith, ap ok (omega arith))
flows_after-counts (ended ∷ es) n h = flows_after-counts es n h
flows_after-counts (accepted ∷ es) n h = elim (Bool-cases (ltb n max_flows)) [
  | inl y ↦
      let l : n < max_flows = ground arith in
      rw y (elim (flows_after-counts es (n + 1) (omega arith)) [
        | inl (k, e) ↦ inl (omega arith, e ∙ ap ok (omega arith))
        | inr (k, e) ↦ inr (omega arith, e)
      ])
  | inr y ↦ let l : max_flows ≤ n = ground arith in rw y (inr (omega arith, refl))
]
