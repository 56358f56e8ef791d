-- ===== src/Proxy/Relay.antt =====
-- src/dw_proxy.c, sender() and receiver(): every byte that comes in goes out, in order.
use distwalk_iouring.Prelude.{
  ℕ, zero, suc, ◌+◌, ◌≤◌, ◌<◌, ◌≡◌, refl, ap, ◌∙◌, true, false, List, [], ◌∷◌, ◌++◌, length, drop,
  take, length-drop, length-append, take-append-drop, Bool, if◌then◌else◌, arith, ltb, inl, inr,
  Bool-cases,
}
use distwalk_iouring.Prelude.Run.{Returns, returns, Returns-bind}
use distwalk_iouring.Memory.{Bytes}
use distwalk_iouring.Storage.{ReadAnswer, got, read_error, WriteAnswer, wrote, write_error}
use distwalk_iouring.Proxy.{write_all, relay, do_connect, sender, receiver}

-- write() takes a byte or more each time.
abbrev pub Takes : List WriteAnswer → Type 0
Takes [] = Unit {0}
Takes (wrote n ∷ ws) = (0 < n) × Takes ws
Takes (write_error ∷ ws) = ⊥

-- The bytes that read() gives before the end of the file or an error, which there is.
unfoldable pub bytes_of : List ReadAnswer → Bytes
bytes_of [] = []
bytes_of (read_error ∷ rs) = []
bytes_of (got [] ∷ rs) = []
bytes_of (got (x ∷ d) ∷ rs) = x ∷ d ++ bytes_of rs

abbrev pub Ends : List ReadAnswer → Type 0
Ends [] = ⊥
Ends (read_error ∷ rs) = Unit {0}
Ends (got [] ∷ rs) = Unit {0}
Ends (got (x ∷ d) ∷ rs) = Ends rs

take_whole : (n : ℕ) (b : Bytes) → length b ≤ n → take n b ≡ b
take_whole zero [] h = refl
take_whole zero (x ∷ b) h = absurd (omega arith)
take_whole (suc n) [] h = refl
take_whole (suc n) (x ∷ b) h = ap (λ z. x ∷ z) (take_whole n b (omega arith))

-- The loop over write() ends, and all is written.
write_all-Returns :
    (ws : List WriteAnswer) (b : Bytes)
    → Takes ws
    → 0 < length b
    → length b ≤ length ws
    → Returns
        (λ (w, rest). (w ≡ b) × Takes rest × (length ws ≤ length rest + length b))
        (write_all ws b)
unfolding write_all
write_all-Returns [] b t p h = absurd (omega arith)
write_all-Returns (write_error ∷ ws) b t p h = absurd t
write_all-Returns (wrote n ∷ ws) b (pn, t) p h =
    let size = length-drop n b in
    elim (Bool-cases (ltb 0 (length (drop n b)))) [
      | inl y ↦
          let some_left : 0 < length (drop n b) = ground arith in
          rw y (
            Returns-bind (write_all-Returns ws (drop n b) t some_left (omega arith)) λ x (e, t', k).
              returns (ap (λ z. take n b ++ z) e ∙ take-append-drop n b, t', omega arith))
      | inr y ↦
          let over : length b ≤ n = ground arith in
          rw y (returns (take_whole n b over, t, omega arith))
    ]

-- When read() comes to the end of the file or to an error, and write() takes one byte or more each
-- time, with as many answers of it as there are bytes: the loop that sender() and receiver() share
-- ends, and what has been written is the bytes that read() gave before, in order.
pub relay-Returns :
    (rs : List ReadAnswer) (ws : List WriteAnswer)
    → Ends rs
    → Takes ws
    → length (bytes_of rs) ≤ length ws
    → Returns (λ w. w ≡ bytes_of rs) (relay rs ws)
unfolding relay bytes_of
relay-Returns [] ws e t h = absurd e
relay-Returns (read_error ∷ rs) ws e t h = returns refl
relay-Returns (got [] ∷ rs) ws e t h = returns refl
relay-Returns (got (x ∷ d) ∷ rs) ws e t h =
    let size = length-append (x ∷ d) (bytes_of rs) in
    Returns-bind (write_all-Returns ws (x ∷ d) t (omega arith) (omega arith))
      λ (w, ws') (same, t', k).
        Returns-bind (relay-Returns rs ws' e t' (omega arith))
          λ rest same'. returns (rw (same, same') refl)

-- Under the same conditions for each direction, sender() and receiver() end; sender() has written the
-- bytes that the client sent before its end, in order, if the server could be reached, and nothing
-- if not, and receiver() those that the server sent.
pub flow-Returns :
    (connected : Bool) (up down : List ReadAnswer) (to_server to_client : List WriteAnswer)
    → Ends up
    → Ends down
    → Takes to_server
    → Takes to_client
    → length (bytes_of up) ≤ length to_server
    → length (bytes_of down) ≤ length to_client
    → Returns (λ w. w ≡ (if connected then bytes_of up else [])) (sender connected up to_server)
      × Returns (λ w. w ≡ bytes_of down) (receiver down to_client)
unfolding sender receiver do_connect
flow-Returns true up down ws vs e f t u h k =
    (relay-Returns up ws e t h, relay-Returns down vs f u k)
flow-Returns false up down ws vs e f t u h k = (returns refl, relay-Returns down vs f u k)
