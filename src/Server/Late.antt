-- ===== src/Server/Late.antt =====
-- src/dw_node.c, exec_request(), for an event of a connection that has been deleted meanwhile.
use distwalk_iouring.Prelude.{ℕ, ◌<◌, ◌≡◌, ◌≢◌, refl, ap, ◌∙◌, List, true, false}
use distwalk_iouring.Prelude.Int.{ℤ, negsuc, eq_ℤ}
use distwalk_iouring.Prelude.Run.{ok, aborted, Returns, returns, Returns-bind, Returns-map}
use distwalk_iouring.Prelude.Tables.{update_self}
use distwalk_iouring.Connection.{
  ssl_handshake, is_handshake, handshake_error, conn_do_ssl_handshake,
}
use distwalk_iouring.Request.Table.{IsValid}
use distwalk_iouring.Conns.{max_conns}
use distwalk_iouring.Conns.Chain.{IsList}
use distwalk_iouring.Conns.Delete.{conn_del_sock-Deleted}
use distwalk_iouring.Conns.Lookup.{conn_del_sock, conn_find_sock}
use distwalk_iouring.Server.{Server, Host, tick, conn_of, close_and_forget}
use distwalk_iouring.Server.Abandon.{lose_conn}
use distwalk_iouring.Server.Exec.{
  EventType, PollFlags, timer_event, other_event, socket_event, connect_event, on_socket,
  exec_request, exec_steps, handshake_step, socket_steps,
}

exec_socket :
    (h : Host) (s : Server) (c : ℕ) (type : EventType) (flags : PollFlags)
    → (conn_of s c).sock ≡ negsuc 0
    → is_handshake (conn_of s c).status ≡ false
    → on_socket type ≡ true
    → exec_request h s c type flags ≡ ok s
unfolding exec_request exec_steps handshake_step socket_steps
exec_socket h s c socket_event flags e n o = rw (n, e) refl
exec_socket h s c connect_event flags e n o = rw (n, e) refl
exec_socket h s c timer_event flags e n o = absurd (cc)
exec_socket h s c other_event flags e n o = absurd (cc)

exec_handshake :
    (h : Host) (s : Server) (c : ℕ) (type : EventType) (flags : PollFlags)
    → (conn_of s c).sock ≡ negsuc 0
    → (conn_of s c).status ≡ ssl_handshake
    → h.handshake s.used ≡ handshake_error
    → exec_request h s c type flags ≡ aborted
unfolding exec_request exec_steps handshake_step conn_do_ssl_handshake lose_conn close_and_forget
    conn_del_sock conn_find_sock
exec_handshake h s c type flags e n f =
    let at = update_self (tick s).table.conns c (conn_of s c) in rw (n, f, at, e) refl

-- A connection of the table whose descriptor is `sock`, the first that has it, with its requests.
pub record HasSock (s : Server) (sock : ℤ) (c : ℕ) (is : List ℕ) : Type 0 where
  pub valid : sock ≢ negsuc 0
  pub inside : c < max_conns
  pub has : eq_ℤ (conn_of s c).sock sock ≡ true
  pub first : (j : ℕ) → j < c → eq_ℤ (conn_of s j).sock sock ≡ false
  pub live : IsValid s.table.requests
  pub list : IsList s.table c is

closed_at :
    (s : Server) (sock : ℤ) (c : ℕ) (is : List ℕ)
    → HasSock s sock c is
    → Returns
        (λ s1.
          ((conn_of s1 c).sock ≡ negsuc 0)
          × ((conn_of s1 c).status ≡ (conn_of s c).status)
          × (s1.used ≡ s.used))
        (close_and_forget s sock)
unfolding close_and_forget
closed_at s sock c is w =
    Returns-bind
      (conn_del_sock-Deleted s.table sock c is w.valid w.inside w.has w.first w.live w.list)
      λ x (_, d, _). returns (ap (λ q. q.sock) d.entry, ap (λ q. q.status) d.entry, refl)

-- When close_and_forget() has closed the descriptor of a connection that is not in its TLS handshake,
-- exec_request() of an event of that connection that was still to be handled changes nothing.
pub exec_request-late :
    (h : Host) (s : Server) (sock : ℤ) (c : ℕ) (is : List ℕ) (type : EventType) (flags : PollFlags)
    → HasSock s sock c is
    → is_handshake (conn_of s c).status ≡ false
    → on_socket type ≡ true
    → Returns (λ s1. exec_request h s1 c type flags ≡ ok s1) (close_and_forget s sock)
exec_request-late h s sock c is type flags w n o =
    Returns-map (closed_at s sock c is w)
      λ s1 (e, same, _). exec_socket h s1 c type flags e (ap is_handshake same ∙ n) o

-- When it was in its TLS handshake, and the handshake goes on with an error, exec_request() of any
-- event of that connection aborts.
pub exec_request-late_handshake :
    (h : Host) (s : Server) (sock : ℤ) (c : ℕ) (is : List ℕ) (type : EventType) (flags : PollFlags)
    → HasSock s sock c is
    → (conn_of s c).status ≡ ssl_handshake
    → h.handshake s.used ≡ handshake_error
    → Returns (λ s1. exec_request h s1 c type flags ≡ aborted) (close_and_forget s sock)
exec_request-late_handshake h s sock c is type flags w n f =
    Returns-map (closed_at s sock c is w)
      λ s1 (e, same, used). exec_handshake h s1 c type flags e (same ∙ n) (ap h.handshake used ∙ f)
