-- ===== src/Conns/Cut.antt =====
-- conn_req_remove(): the message of the request is cut out of the receive buffer.
use distwalk_iouring.Prelude.{
  ℕ, zero, suc, ◌+◌, ◌-◌, ◌≤◌, ◌<◌, ◌≡◌, refl, sym, ap, ◌∙◌, arith, length,
}
use distwalk_iouring.Prelude.Run.{ok, Returns, returns, Returns-map, Returns-bind, Returns-keep}
use distwalk_iouring.Memory.{Bytes, read_u8}
use distwalk_iouring.Memory.Access.{
  SameOutside, SameOutside-refl, SameOutside-trans, read_u8-Returns, write_u8-Returns,
}
use distwalk_iouring.Connection.{Connection}
use distwalk_iouring.Connection.Receive.{IsReceiving, sub_word-exact}
use distwalk_iouring.Conns.{move_bytes, back, cut_message}

-- The `n` bytes that were at `p` are at `q`, and the bytes elsewhere as they were.
pub record Moved (n : ℕ) (b : Bytes) (p q : ℕ) (c : Bytes) : Type 0 where
  pub outside : SameOutside b q (q + n) c
  pub moved : (i : ℕ) → i < n → read_u8 c (q + i) ≡ read_u8 b (p + i)

move_bytes-Moved :
    (n : ℕ) (b : Bytes) (p q : ℕ)
    → q ≤ p
    → p + n ≤ length b
    → Returns (Moved n b p q) (move_bytes n b p q)
unfolding move_bytes
move_bytes-Moved zero b p q h k =
    returns (record { outside = SameOutside-refl b q _; moved = λ i l. absurd (omega arith) })
move_bytes-Moved (suc n) b p q h k =
    Returns-bind (Returns-keep (read_u8-Returns b p (omega arith))) λ v (rv, _).
      Returns-bind (write_u8-Returns b q v (omega arith)) λ b' (w, r).
        Returns-map (move_bytes-Moved n b' (p + 1) (q + 1) (omega arith) (omega (arith, w.size)))
          λ c x. record {
            outside =
                SameOutside-trans q (q + suc n) (omega arith) (omega arith) (omega arith)
                  (omega arith) w x.outside;
            moved = step n v c b' rv r w x;
          }
  where
    step :
        (n v : ℕ) (c b' : Bytes)
        → read_u8 b p ≡ ok v
        → read_u8 b' q ≡ ok v
        → SameOutside b q (q + 1) b'
        → Moved n b' (p + 1) (q + 1) c
        → (i : ℕ) → i < suc n
        → read_u8 c (q + i) ≡ read_u8 b (p + i)
    step n v c b' rv r w x zero l =
        let eq : q + 0 ≡ q = omega arith in
        let ep : p + 0 ≡ p = omega arith in
        rw (eq, ep) (x.outside.below q (omega arith) ∙ r ∙ sym rv)
    step n v c b' rv r w x (suc i) l =
        let eq : q + suc i ≡ q + 1 + i = omega arith in
        let ep : p + suc i ≡ p + 1 + i = omega arith in
        rw (eq, ep) (x.moved i (omega arith) ∙ w.above (p + 1 + i) (omega arith))

pub back-exact : (p n : ℕ) → n ≤ p → back p n ≡ ok (p - n)
back-exact p n h = ground arith

-- `c'` is `c` without the `n` bytes at `m`.
pub record Cut (c : Connection) (m n : ℕ) (c' : Connection) : Type 0 where
  pub valid : IsReceiving c'
  pub recv : c'.curr_recv_buf + n ≡ c.curr_recv_buf
  pub proc : c'.curr_proc_buf + n ≡ c.curr_proc_buf
  pub below : (i : ℕ) → i < m → read_u8 c'.recv_buf i ≡ read_u8 c.recv_buf i
  pub above :
      (i : ℕ) → m ≤ i → i < c'.curr_recv_buf → read_u8 c'.recv_buf i ≡ read_u8 c.recv_buf (i + n)
  pub list : c'.req_list ≡ c.req_list

pub cut_message-Cut :
    (c : Connection) (m n : ℕ)
    → IsReceiving c
    → m + n ≤ c.curr_proc_buf
    → Returns (Cut c m n) (cut_message c m n)
unfolding cut_message
cut_message-Cut c m n v h =
    let whole : c.curr_recv_buf ≤ length c.recv_buf = omega (arith, v.memory, v.accounted) in
    let enough : n ≤ c.curr_recv_buf = omega (arith, v.handed) in
    let size = c.curr_recv_buf - (m + n) in
    let fits : m + n + size ≤ length c.recv_buf = omega (arith, v.handed) in
    rw
      (
        sub_word-exact c.curr_recv_buf (m + n) (omega (arith, v.handed)),
        back-exact c.curr_recv_buf n enough,
        back-exact c.curr_proc_buf n (omega arith),
      )
      (Returns-bind (move_bytes-Moved size c.recv_buf (m + n) m (omega arith) fits) λ b x.
        returns (record {
          valid = record {
            memory = x.outside.size ∙ v.memory;
            accounted = omega (arith, v.accounted);
            handed = omega (arith, v.handed);
          };
          recv = omega arith;
          proc = omega arith;
          below = λ i l. x.outside.below i l;
          above = λ i a l.
              let d = i - m in
              let e1 : i ≡ m + d = omega arith in
              let e2 : i + n ≡ m + n + d = omega arith in
              ap (λ k. read_u8 b k) e1
              ∙ x.moved d (omega arith)
              ∙ ap (λ k. read_u8 c.recv_buf k) (sym e2);
          list = refl;
        }))
