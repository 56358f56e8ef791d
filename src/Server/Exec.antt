-- ===== src/Server/Exec.antt =====
-- src/dw_node.c, establish_conn() and exec_request(): what a worker does for an event.
use distwalk_iouring.Prelude.{ℕ, Bool, true, false, ◌&&◌, ◌||◌, [], if◌then◌else◌}
use distwalk_iouring.Prelude.Int.{ℤ, pos, negsuc, ◌+ℤ◌, eq_ℤ, ltb_ℤ}
use distwalk_iouring.Prelude.Run.{Run, ok, ◌>>=◌}
use distwalk_iouring.Memory.{Bytes}
use distwalk_iouring.Connection.{
  ready, is_handshake, conn_set_status, conn_recv, conn_do_ssl_handshake,
}
use distwalk_iouring.Connection.Send.{conn_flush}
use distwalk_iouring.Server.{
  Server, Host, watched_in, watched_in_once, watched_out_once, tick, conn_of, set_conn, poll_call,
}
use distwalk_iouring.Server.Obtain.{obtain_messages}
use distwalk_iouring.Server.Timeout.{handle_timeout}
use distwalk_iouring.Server.Abandon.{lose_conn}

-- event_t, as far as exec_request() tells the events apart.
pub data EventType : Type 0 where
  timer_event socket_event connect_event other_event : EventType

abbrev pub on_socket : EventType → Bool
on_socket socket_event = true
on_socket connect_event = true
on_socket _ = false

-- The flags of dw_poll_flags: DW_POLLIN, DW_POLLOUT, and one of DW_POLLERR and DW_POLLHUP.
pub record PollFlags : Type 0 where
  pub poll_in : Bool
  pub poll_out : Bool
  pub poll_err : Bool

-- establish_conn(); the answer is that of getsockopt().
unfoldable pub establish_conn : Host → Server → ℕ → Run (Bool × Server)
establish_conn h s c =
    let s1 = set_conn (tick s) c (conn_set_status (conn_of s c) ready).1 in
    let watched = poll_call h s1 (watched_in (conn_of s1 c).sock c) >>= λ s'. ok (true, s') in
    if h.connected_ok s.used then watched else ok (false, tick s)

abbrev pub is_empty : Bytes → Bool
is_empty [] = true
is_empty _ = false

-- What a step of exec_request() comes to: the next step, a return, or `goto err`.
pub data Next : Type 0 where
  proceed returned failed : Next

unfoldable pub handshake_step : Host → Server → ℕ → Run (Next × Server)
handshake_step h s c =
    let (hs, conn) = conn_do_ssl_handshake (conn_of s c) (h.handshake s.used) in
    let s' = set_conn (tick s) c conn in
    let next = if ltb_ℤ hs (pos 0) then failed else if eq_ℤ hs (pos 0) then returned else proceed in
    ok (if is_handshake (conn_of s c).status then (next, s') else (proceed, s))

-- The event itself: a connection that is established, or an error on one.
unfoldable pub connect_step : Host → Server → ℕ → EventType → PollFlags → Run (Next × Server)
connect_step h s c type flags =
    let counted : Server → Server = λ x. record x { active_conns = x.active_conns +ℤ pos 1 } in
    let connect = establish_conn h s c >>= λ (up, s').
    ok (if up then (proceed, counted s') else (failed, s')) in
    let other = ok (if flags.poll_err then failed else proceed, s) in
    let by_type : EventType → Run (Next × Server) = λ x. elim x [
      | connect_event ↦ connect
      | timer_event ↦ other
      | socket_event ↦ other
      | other_event ↦ other
    ] in
    by_type type

unfoldable pub recv_step : Host → Server → ℕ → PollFlags → Run (Next × Server)
recv_step h s c flags =
    let (from, r) = h.recv s.used in
    let receive = conn_recv (conn_of s c) from r (h.ssl_read s.used) >>= λ (v, conn).
    ok (if eq_ℤ v (pos 0) then failed else proceed, set_conn (tick s) c conn) in
    if flags.poll_in then receive else ok (proceed, s)

unfoldable pub flush_step : Host → Server → ℕ → PollFlags → Run (Next × Server)
flush_step h s c flags =
    let flushed =
      conn_flush (conn_of s c) (h.send s.used) (h.ssl_write s.used) (h.send_headers s.used)
        (h.sendfile s.used) in
    let watch : ℤ → Server → Run (Next × Server) = λ r x.
      let sock = (conn_of x c).sock in
      poll_call h x (if eq_ℤ r (pos 0) then watched_out_once sock c else watched_in_once sock c)
      >>= λ x'. ok (proceed, x') in
    let flush = flushed >>= λ (r, conn).
    let s' = set_conn (tick s) c conn in
    let go = watch r s' in if ltb_ℤ r (pos 0) then ok (failed, s') else go in
    if flags.poll_out then flush else ok (proceed, s)

unfoldable pub obtain_step : Host → Server → ℕ → Run (Next × Server)
obtain_step h s c =
    obtain_messages h s c >>= λ (v, s'). ok (if eq_ℤ v (pos 0) then failed else returned, s')

-- A step and what follows it.
abbrev pub then_on : Run (Next × Server) → (Server → Run (Next × Server)) → Run (Next × Server)
then_on m k = m >>= λ (next, s). elim next [
  | proceed ↦ k s
  | returned ↦ ok (returned, s)
  | failed ↦ ok (failed, s)
]

-- The events of a socket.
unfoldable pub socket_steps : Host → Server → ℕ → EventType → PollFlags → Run (Next × Server)
socket_steps h s c type flags =
    let steps = then_on (connect_step h s c type flags) λ s1.
      then_on (recv_step h s1 c flags)
        λ s2. then_on (flush_step h s2 c flags) λ s3. obtain_step h s3 c in
    let conn = conn_of s c in
    if on_socket type && (eq_ℤ conn.sock (negsuc 0) || is_empty conn.recv_buf)
    then ok (returned, s)
    else steps

unfoldable pub exec_steps : Host → Server → ℕ → EventType → PollFlags → Run (Next × Server)
exec_steps h s c type flags = then_on (handshake_step h s c) λ s1.
    let timer = handle_timeout h s1 >>= λ s'. ok (returned, s') in
    let by_type : EventType → Run (Next × Server) = λ x. elim x [
      | timer_event ↦ timer
      | socket_event ↦ socket_steps h s1 c type flags
      | connect_event ↦ socket_steps h s1 c type flags
      | other_event ↦ socket_steps h s1 c type flags
    ] in
    by_type type

unfoldable pub exec_request : Host → Server → ℕ → EventType → PollFlags → Run Server
exec_request h s c type flags = do
  (next, s') ← exec_steps h s c type flags
  let lost = lose_conn h s' c
  elim next [ proceed ↦ ok s' | returned ↦ ok s' | failed ↦ lost ]
