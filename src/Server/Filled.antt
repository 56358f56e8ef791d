-- ===== src/Server/Filled.antt =====
-- src/dw_node.c, reply(): the message that answers a request.
use distwalk_iouring.Prelude.{
  ℕ, ◌+◌, ◌-◌, ◌%◌, ◌^◌, ◌≤◌, ◌≡◌, refl, ap, ◌∙◌, inl, inr, arith, length,
}
use distwalk_iouring.Prelude.Run.{ok, ◌>>=◌, Returns, returns, Returns-bind, Returns-map}
use distwalk_iouring.Memory.{Bytes, read_u32}
use distwalk_iouring.Memory.Access.{
  SameOutside, SameOutside-trans, read_u32-SameOutside, write_u32-Returns,
}
use distwalk_iouring.Message.{eom, command_at, command_of, message_size, message_first_cmd}
use distwalk_iouring.Connection.{Connection, buf_size, conn_prepare_send_message}
use distwalk_iouring.Connection.Receive.{sub_word-exact}
use distwalk_iouring.Connection.Sending.{IsSending}
use distwalk_iouring.Server.Reply.{fill_reply, status_at}

-- A message of `resp` bytes at `p` in a buffer that was `dst`: the answer to a message of the id and
-- the status given, without commands.
pub record Answer (id status resp : ℕ) (dst : Bytes) (p : ℕ) (c : Bytes) : Type 0 where
  pub outside : SameOutside dst p (p + 16) c
  pub req_id : read_u32 c p ≡ ok (id % 2 ^ 32)
  pub size : message_size c p ≡ ok (resp % 2 ^ 32)
  pub code : read_u32 c (status_at p) ≡ ok (status % 2 ^ 32)
  pub end : command_at c (p + 12) ≡ ok eom

pub fill_reply-Answer :
    (b : Bytes) (m : ℕ) (dst : Bytes) (p resp id status : ℕ)
    → p + 16 ≤ length dst
    → read_u32 b m ≡ ok id
    → read_u32 b (status_at m) ≡ ok status
    → Returns (Answer id status resp dst p) (fill_reply b m dst p resp)
unfolding fill_reply message_size command_at message_first_cmd
fill_reply-Answer b m dst p resp id status room eid est =
    rw (eid, est)
      (Returns-bind (write_u32-Returns dst p id (omega arith)) λ d1 (s1, r1).
        Returns-bind (write_u32-Returns d1 (p + 4) resp (omega (arith, s1.size))) λ d2 (s2, r2).
          Returns-bind (write_u32-Returns d2 (p + 12) 7 (omega (arith, s1.size, s2.size)))
            λ d3 (s3, r3).
              Returns-map
                (write_u32-Returns d3 (status_at p) status
                  (omega (arith, s1.size, s2.size, s3.size)))
                λ c (s4, r4).
                  let o2 =
                    SameOutside-trans p (p + 16) (omega arith) (omega arith) (omega arith)
                      (omega arith) s1 s2 in
                  let o3 =
                    SameOutside-trans p (p + 16) (omega arith) (omega arith) (omega arith)
                      (omega arith) o2 s3 in
                  record {
                    outside =
                        SameOutside-trans p (p + 16) (omega arith) (omega arith) (omega arith)
                          (omega arith) o3 s4;
                    req_id =
                        read_u32-SameOutside p (inl (omega arith)) s4
                        ∙ read_u32-SameOutside p (inl (omega arith)) s3
                        ∙ read_u32-SameOutside p (inl (omega arith)) s2
                        ∙ r1;
                    size =
                        read_u32-SameOutside (p + 4) (inl (omega arith)) s4
                        ∙ read_u32-SameOutside (p + 4) (inl (omega arith)) s3
                        ∙ r2;
                    code = r4;
                    end =
                        ap (λ x. x >>= λ v. ok (command_of v))
                          (read_u32-SameOutside (p + 12) (inr (omega arith)) s4 ∙ r3);
                  })

-- conn_prepare_send_message() on a valid send buffer that is used from its start, with room for a
-- header.
pub record Prepared (c : Connection) (x : ℕ × Connection) : Type 0 where
  pub buf : Bytes
  pub result : x ≡ (c.curr_send_size, record c { send_buf = buf })
  pub size : length buf ≡ buf_size
  pub room : message_size buf c.curr_send_size ≡ ok (buf_size - c.curr_send_size)
  pub below : SameOutside c.send_buf (c.curr_send_size + 4) (c.curr_send_size + 4 + 4) buf

pub conn_prepare_send_message-Prepared :
    (c : Connection)
    → IsSending c
    → c.curr_send_buf ≡ 0
    → c.curr_send_size + 16 ≤ buf_size
    → Returns (Prepared c) (conn_prepare_send_message c)
unfolding conn_prepare_send_message message_size
conn_prepare_send_message-Prepared c v e h =
    rw (sub_word-exact buf_size (c.curr_send_buf + c.curr_send_size) v.waiting, e)
      (Returns-bind
        (write_u32-Returns c.send_buf (c.curr_send_size + 4) (buf_size - (0 + c.curr_send_size))
          (omega (arith, v.memory)))
        λ b (s, r). returns (record {
          buf = b;
          result = refl;
          size = s.size ∙ v.memory;
          room = r ∙ ap ok small;
          below = s;
        }))
  where
    small : (buf_size - (0 + c.curr_send_size)) % 2 ^ 32 ≡ buf_size - c.curr_send_size
    small = omega arith
