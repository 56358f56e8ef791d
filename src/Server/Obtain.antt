-- ===== src/Server/Obtain.antt =====
-- src/dw_node.c, process_messages() and obtain_messages(): the messages that a connection has
-- received, one by one.
--
-- The two call each other; `loop` stands for the rest of the loop in obtain_messages().
use distwalk_iouring.Prelude.{
  ℕ, zero, suc, ◌+◌, ◌/◌, ◌%◌, Bool, true, false, ◌&&◌, not, Option, none, some, [], ◌∷◌,
  if◌then◌else◌,
}
use distwalk_iouring.Prelude.Int.{ℤ, pos, ◌+ℤ◌, eq_ℤ, ltb_ℤ}
use distwalk_iouring.Prelude.Run.{Run, ok, out_of_fuel, ◌>>=◌}
use distwalk_iouring.Memory.{Bytes, read_u32}
use distwalk_iouring.Message.{command_at, is_eom, message_first_cmd, message_size}
use distwalk_iouring.Connection.{Address, buf_size, conn_prepare_recv_message}
use distwalk_iouring.Conns.{conn_req_add}
use distwalk_iouring.Server.{Server, Host, home, conn_of, req_of, set_conn, set_req, to_int}
use distwalk_iouring.Server.Reply.{status_at}
use distwalk_iouring.Server.Acks.{handle_forward_reply}
use distwalk_iouring.Server.Process.{process_single_message}

abbrev pub has_request : Option ℕ → Bool
has_request none = false
has_request (some _) = true

-- The six bytes of an address and a port, as they lie in memory.
unfoldable pub address_bytes : Address → Bytes
address_bytes a =
    a.sin_addr % 256
    ∷ a.sin_addr / 256 % 256
    ∷ a.sin_addr / 65536 % 256
    ∷ a.sin_addr / 16777216 % 256
    ∷ a.sin_port % 256
    ∷ a.sin_port / 256 % 256
    ∷ []

unfoldable pub obtain_first : (Server → ℕ → Run (ℤ × Server)) → Server → ℕ → Run (ℤ × Server)
obtain_first loop s c =
    let conn = conn_of s c in
    let go = loop s c in
    if conn.serialize_request && has_request conn.req_list then ok (pos 1, s) else go

unfoldable pub process_with : (Server → ℕ → Run (ℤ × Server)) → Host → Server → ℕ → Run (ℤ × Server)
process_with loop h s r = do
  c ← home s r
  (executed, s') ← process_single_message h s r
  let more = obtain_first loop s' c
  if not (eq_ℤ executed (pos 0)) && (conn_of s' c).serialize_request
      then more
      else ok (executed, s')

-- A message that answers a FORWARD.
unfoldable pub take_answer :
    (Server → ℕ → Run (ℤ × Server)) → Host → Server → ℕ → ℕ → Run (ℤ × Server)
take_answer loop h s c m = do
  let conn = conn_of s c
  req_id ← read_u32 conn.recv_buf m
  status ← read_u32 conn.recv_buf (status_at m)
  let match_addr = address_bytes conn.target
  (v, s') ← handle_forward_reply (process_with loop h) h s (to_int req_id) status match_addr
  let go = loop s' c
  if eq_ℤ v (pos 0) then ok (pos 0, s') else go

-- A message that is a request, whose entry is `r`.
unfoldable pub start_request :
    (Server → ℕ → Run (ℤ × Server)) → Host → Server → ℕ → ℕ → ℕ → Run (ℤ × Server)
start_request loop h s c m r = do
  let q = record (req_of s r) { message_ptr = some m; curr_cmd = some (message_first_cmd m) }
  let s1 = set_req (record s { active_reqs = s.active_reqs +ℤ pos 1 }) r q
  req_size ← message_size (conn_of s1 c).recv_buf m
  (executed, s2) ← process_single_message h s1 r
  let conn = conn_of s2 c
  let passed = record conn { curr_proc_buf = conn.curr_proc_buf + req_size }
  let more = loop s2 c
  let rest : Run (ℤ × Server) =
      if eq_ℤ executed (pos 0) && conn.serialize_request
      then ok (pos 1, set_conn s2 c passed)
      else more
  if ltb_ℤ executed (pos 0) then ok (pos 0, s2) else rest

unfoldable pub take_request :
    (Server → ℕ → Run (ℤ × Server)) → Host → Server → ℕ → ℕ → Run (ℤ × Server)
take_request loop h s c m =
    let (req, t) = conn_req_add s.table c in
    let s1 = record s { table = t } in
    elim req [ none ↦ ok (pos 0, s1) | some r ↦ start_request loop h s1 c m r ]

unfoldable pub take_message :
    (Server → ℕ → Run (ℤ × Server)) → Host → Server → ℕ → ℕ → Run (ℤ × Server)
take_message loop h s c m = do
  t ← command_at (conn_of s c).recv_buf (message_first_cmd m)
  let answer = take_answer loop h s c m
  let request = take_request loop h s c m
  if is_eom t then answer else request

unfoldable pub obtain_loop : ℕ → Host → Server → ℕ → Run (ℤ × Server)
obtain_loop zero h s c = out_of_fuel
obtain_loop (suc fuel) h s c = do
  (m, conn) ← conn_prepare_recv_message (conn_of s c)
  let s1 = set_conn s c conn
  elim m [ none ↦ ok (pos 1, s1) | some p ↦ take_message (obtain_loop fuel h) h s1 c p ]

-- Each round takes a message of 12 bytes or more from what has been received.
unfoldable pub obtain_messages : Host → Server → ℕ → Run (ℤ × Server)
obtain_messages h = obtain_first (obtain_loop (suc buf_size) h)

unfoldable pub process_messages : Host → Server → ℕ → Run (ℤ × Server)
process_messages h = process_with (obtain_loop (suc buf_size) h) h
