-- ===== src/Proxy/Tests.antt =====
-- A flow with a few answers of read() and write(), and the theorems on it.
use distwalk_iouring.Prelude.{
  ◌+◌, ◌<◌, ◌⊎◌, ◌≤◌, ◌≡◌, true, List, [], ◌∷◌, arith, if◌then◌else◌, replicate, length,
}
use distwalk_iouring.Prelude.Run.{ok, aborted, Returns}
use distwalk_iouring.Storage.{ReadAnswer, got, read_error, WriteAnswer, wrote}
use distwalk_iouring.Proxy.{FlowEvent, accepted, ended, max_flows, flows_after, sender, receiver}
use distwalk_iouring.Proxy.Flows.{arrivals, flows_after-counts}
use distwalk_iouring.Proxy.Relay.{Takes, bytes_of, flow-Returns}

abbrev up : List ReadAnswer
up = got (1 ∷ 2 ∷ 3 ∷ []) ∷ got (4 ∷ []) ∷ got [] ∷ []

abbrev down : List ReadAnswer
down = got (5 ∷ []) ∷ read_error ∷ []

abbrev writes : List WriteAnswer
writes = wrote 2 ∷ wrote 1 ∷ wrote 1 ∷ wrote 1 ∷ []

writes-Takes : Takes writes
writes-Takes = (omega arith, (omega arith, (omega arith, (omega arith, tt))))

writes_enough_up : length (bytes_of up) ≤ length writes
unfolding bytes_of
writes_enough_up = omega arith

writes_enough_down : length (bytes_of down) ≤ length writes
unfolding bytes_of
writes_enough_down = omega arith

flow-Returns_example :
    Returns (λ w. w ≡ (if true then bytes_of up else [])) (sender true up writes)
    × Returns (λ w. w ≡ bytes_of down) (receiver down writes)
flow-Returns_example =
    flow-Returns true up down writes writes tt tt writes-Takes writes-Takes writes_enough_up
      writes_enough_down

-- Seventeen connections, the first of which has ended meanwhile.
abbrev events : List FlowEvent
events = accepted ∷ ended ∷ replicate 16 accepted

flows_after-counts_example :
    ((0 + arrivals events ≤ max_flows) × (flows_after 0 events ≡ ok (0 + arrivals events)))
    ⊎ ((max_flows < 0 + arrivals events) × (flows_after 0 events ≡ aborted))
flows_after-counts_example = flows_after-counts events 0 (omega arith)
