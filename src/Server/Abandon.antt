-- ===== src/Server/Abandon.antt =====
-- src/dw_node.c, the end of exec_request(): a connection is lost, and with it the requests that had
-- gone on over it.
use distwalk_iouring.Prelude.{
  ℕ, zero, suc, ◌+◌, Bool, true, false, ◌&&◌, ◌||◌, not, Option, none, some, ◌==◌, if◌then◌else◌,
}
use distwalk_iouring.Prelude.Int.{pos, negsuc, ◌-ℤ◌, eq_ℤ}
use distwalk_iouring.Prelude.Run.{Run, ok, out_of_fuel, ◌>>=◌, or_fault}
use distwalk_iouring.Memory.{Bytes, read_u32}
use distwalk_iouring.Message.{command_at, is_begin, is_eom, message_end, cmd_in_bounds}
use distwalk_iouring.Message.Copy.{find_reply}
use distwalk_iouring.Connection.{Address, Status, ready}
use distwalk_iouring.Request.{max_reqs}
use distwalk_iouring.Conns.{max_conns, same_ptr}
use distwalk_iouring.Conns.Lookup.{is_tcp}
use distwalk_iouring.Server.{Server, Host, conn_of, req_of, set_req, close_and_forget, to_int}
use distwalk_iouring.Server.Forward.{fwd_opts}
use distwalk_iouring.Server.Acks.{set_status_at, drop_timeout}
use distwalk_iouring.Server.Obtain.{process_messages}

-- ERR of msg_status_t
abbrev pub status_err : ℕ
status_err = 2

abbrev pub is_ready : Status → Bool
is_ready ready = true
is_ready _ = false

abbrev pub same_address : Address → Address → Bool
same_address a b = a.sin_addr == b.sin_addr && a.sin_port == b.sin_port

-- The place of the command where a request goes on: a REPLY in bounds.
unfoldable pub graceful_at : Bytes → ℕ → Option ℕ → Run (Option ℕ)
graceful_at b msg_end none = ok none
graceful_at b msg_end (some itr) = do
  inside ← cmd_in_bounds b itr msg_end
  t ← command_at b itr
  ok (if not inside || is_eom t then none else some itr)

-- The request `r` of connection `i`, which waits for a node that is gone: it goes on at its REPLY,
-- or its connection is closed.
unfoldable pub abandon_request : Host → Server → ℕ → ℕ → Run Server
abandon_request h s i r = do
  m ← or_fault (req_of s r).message_ptr
  let b = (conn_of s i).recv_buf
  req_id ← read_u32 b m
  s1 ← drop_timeout h s (to_int req_id)
  msg_end ← message_end b m
  itr ← find_reply (suc msg_end) b msg_end (req_of s1 r).curr_cmd
  to ← graceful_at b msg_end itr
  let brutal = close_and_forget s1 (conn_of s1 i).sock
  let graceful : ℕ → Run Server = λ p.
      set_status_at (set_req s1 r (record (req_of s1 r) { curr_cmd = some p })) i m status_err
      >>= λ s2. process_messages h s2 r >>= λ (_, s3). ok s3
  elim to [ none ↦ brutal | some p ↦ graceful p ]

-- Whether the request `r` of connection `i` is at a FORWARD to `target`, and the retries it has.
unfoldable pub waits_for : Server → ℕ → ℕ → Address → Run (Option ℕ)
waits_for s i r target = do
  let b = (conn_of s i).recv_buf
  cmd ← or_fault (req_of s r).curr_cmd
  t ← command_at b cmd
  let read = fwd_opts b cmd >>= λ fwd.
      ok (if same_address fwd.address target then some fwd.retries else none)
  if is_begin t then read else ok none

-- The loop over the list of the connection `i`, from a request that may be NULL. There are not more
-- requests than entries in the table.
unfoldable pub abandon_first : ℕ → Host → Server → ℕ → Address → Option ℕ → Option ℕ → Run Server
abandon_first zero h s i target head tmp = out_of_fuel
abandon_first (suc fuel) h s i target head none = ok s
abandon_first (suc fuel) h s i target head (some r) = waits_for s i r target >>= λ waiting.
    let next = (req_of s r).next in
    let on = abandon_first fuel h s i target head next in
    let stop : ℕ → Run Server = λ n. elim n [ zero ↦ abandon_request h s i r | suc _ ↦ ok s ] in
    let last : Bool = elim next [ none ↦ false | some k ↦ same_ptr head k ] in
    elim waiting [ none ↦ if last then ok s else on | some n ↦ stop n ]

-- The loop over the `n` connections from `i` on.
unfoldable pub abandon_all : ℕ → Host → Server → ℕ → Address → Run Server
abandon_all zero h s i target = ok s
abandon_all (suc n) h s i target = do
  let conn = conn_of s i
  let search = abandon_first (suc max_reqs) h s i target conn.req_list conn.req_list
  s' ← if eq_ℤ conn.sock (negsuc 0) then ok s else search
  abandon_all n h s' (i + 1) target

unfoldable pub lose_conn : Host → Server → ℕ → Run Server
lose_conn h s c = do
  let conn = conn_of s c
  let lost = is_tcp conn.proto && is_ready conn.status
  let s1 = record s { active_conns = if lost then s.active_conns -ℤ pos 1 else s.active_conns }
  s2 ← close_and_forget s1 conn.sock
  abandon_all max_conns h s2 0 conn.target
