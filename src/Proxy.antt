-- ===== src/Proxy.antt =====
-- src/dw_proxy.c: the proxy, which copies the bytes of a connection to another, in both directions.
--
-- What read() and write() answer is an argument; what comes out is the bytes that write() has taken.
-- The two threads of a flow share nothing but its descriptors: that one of them has closed these shows
-- in the answers that the other gets. The delays are not modelled.
pub mod Relay
pub mod Flows
mod Tests
use distwalk_iouring.Prelude.{
  ℕ, zero, suc, ◌+◌, Bool, true, false, List, [], ◌∷◌, ◌++◌, length, drop, take, ltb, if◌then◌else◌,
}
use distwalk_iouring.Prelude.Run.{Run, ok, aborted, out_of_fuel, ◌>>=◌, ◌>>◌, check}
use distwalk_iouring.Memory.{Bytes}
use distwalk_iouring.Storage.{ReadAnswer, got, read_error, WriteAnswer, wrote, write_error}

-- The inner do-while of sender() and of receiver(): what has been written, and the answers to come.
unfoldable pub write_all : List WriteAnswer → Bytes → Run (Bytes × List WriteAnswer)
write_all [] b = out_of_fuel
write_all (write_error ∷ ws) b = aborted
write_all (wrote n ∷ ws) b =
    let again = write_all ws (drop n b) >>= λ (w, rest). ok (take n b ++ w, rest) in
    if ltb 0 (length (drop n b)) then again else ok (take n b, ws)

-- The outer do-while, up to the end of the file or an error of read(): what has been written.
unfoldable pub relay : List ReadAnswer → List WriteAnswer → Run Bytes
relay [] ws = out_of_fuel
relay (read_error ∷ rs) ws = ok []
relay (got [] ∷ rs) ws = ok []
relay (got (x ∷ d) ∷ rs) ws =
    write_all ws (x ∷ d) >>= λ (w, ws'). relay rs ws' >>= λ rest. ok (w ++ rest)

-- The answer of connect() in do_connect(), which returns 1 or 0.
unfoldable pub do_connect : Bool → ℕ
do_connect connected = if connected then 1 else 0

-- sender(): the bytes that go to the server; there is nothing to copy when it is not there.
unfoldable pub sender : Bool → List ReadAnswer → List WriteAnswer → Run Bytes
sender connected rs ws =
    let copy = relay rs ws in if ltb 0 (do_connect connected) then copy else ok []

-- receiver(): the bytes that go to the client.
unfoldable pub receiver : List ReadAnswer → List WriteAnswer → Run Bytes
receiver rs ws = relay rs ws

abbrev pub max_flows : ℕ
max_flows = 16

-- What happens to the flows: main() accepts a connection, or the threads of a flow end.
pub data FlowEvent : Type 0 where
  accepted ended : FlowEvent

-- The loop of main(), for the events of the flows: n_flows at the end of them.
unfoldable pub flows_after : ℕ → List FlowEvent → Run ℕ
flows_after n [] = ok n
flows_after n (accepted ∷ es) = check (ltb n max_flows) >> flows_after (n + 1) es
flows_after n (ended ∷ es) = flows_after n es
