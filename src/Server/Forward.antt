-- ===== src/Server/Forward.antt =====
-- src/dw_node.c, start_forward() and single_start_forward(): a request goes on to other nodes.

use distwalk_iouring.Prelude.{
  ℕ, zero, suc, ◌+◌, ◌*◌, ◌/◌, ◌%◌, Bool, true, false, not, Option, none, some, [], ◌∷◌, ltb, ◌==◌,
  if◌then◌else◌,
}
use distwalk_iouring.Prelude.Int.{pos, negsuc, ◌+ℤ◌, eq_ℤ, ltb_ℤ}
use distwalk_iouring.Prelude.Run.{Run, ok, fault, ◌>>=◌, ◌>>◌, check}
use distwalk_iouring.Memory.{Bytes, read_u8, read_u32}
use distwalk_iouring.Message.{sizeof_command}
use distwalk_iouring.Message.FindReply.{fwd_addr}
use distwalk_iouring.Connection.{
  Address, Proto, udp, tcp, tls, dpdk, other_proto, ready, connecting, ssl_handshake,
  conn_set_status, conn_enable_ssl,
}
use distwalk_iouring.Conns.{conn_free}
use distwalk_iouring.Conns.Lookup.{conn_find_existing, conn_alloc}
use distwalk_iouring.Server.{
  Server, Host, ConnectResult, connected, in_progress, connect_error, added_connect, closed_sock,
  tick, record_call, conn_at, conn_of, set_conn, read_u16,
}

-- fwd_opts_t, with the six bytes of its address
pub record FwdOpts : Type 0 where
  pub pkt_size : ℕ
  pub address : Address
  pub addr : Bytes
  pub timeout : ℕ
  pub retries : ℕ
  pub n_ack : ℕ
  pub on_fail_skip : ℕ
  pub proto : ℕ

unfoldable pub read_six : Bytes → ℕ → Run Bytes
read_six b p = do
  x0 ← read_u8 b p
  x1 ← read_u8 b (p + 1)
  x2 ← read_u8 b (p + 2)
  x3 ← read_u8 b (p + 3)
  x4 ← read_u8 b (p + 4)
  x5 ← read_u8 b (p + 5)
  ok (x0 ∷ x1 ∷ x2 ∷ x3 ∷ x4 ∷ x5 ∷ [])

unfoldable pub fwd_opts : Bytes → ℕ → Run FwdOpts
fwd_opts b cmd = do
  let opts = cmd + sizeof_command
  pkt_size ← read_u32 b opts
  fwd_host ← read_u32 b (fwd_addr cmd)
  fwd_port ← read_u16 b (fwd_addr cmd + 4)
  addr ← read_six b (fwd_addr cmd)
  timeout ← read_u32 b (opts + 12)
  retries ← read_u8 b (opts + 16)
  n_ack ← read_u8 b (opts + 17)
  on_fail_skip ← read_u8 b (opts + 18)
  proto ← read_u32 b (opts + 20)
  let fwd : FwdOpts = record {
    pkt_size = pkt_size;
    address = record { sin_addr = fwd_host; sin_port = fwd_port };
    addr = addr;
    timeout = timeout;
    retries = retries;
    n_ack = n_ack;
    on_fail_skip = on_fail_skip;
    proto = proto;
  }
  ok fwd

abbrev pub proto_of : ℕ → Proto
proto_of v =
    if v == 0
    then udp
    else if v == 1
    then tcp
    else if v == 2
    then tls
    else if v == 3
    then dpdk
    else other_proto

abbrev pub streams : Proto → Bool
streams tcp = true
streams tls = true
streams _ = false

abbrev pub secured : Proto → Bool
secured tls = true
secured _ = false

-- The bit `id` of a mask, and the mask with that bit set.
unfoldable pub bit_of : ℕ → ℕ → Bool
bit_of mask zero = mask % 2 == 1
bit_of mask (suc id) = bit_of (mask / 2) id

unfoldable pub with_bit : ℕ → ℕ → ℕ
with_bit mask zero = mask / 2 * 2 + 1
with_bit mask (suc id) = with_bit (mask / 2) id * 2 + mask % 2

-- mask & (1 << id), and mask | (1 << id), of a C int: a shift by 32 or more is a fault.
unfoldable pub mask_bit : ℕ → ℕ → Run Bool
mask_bit mask id = if ltb id 32 then ok (bit_of mask id) else fault

unfoldable pub mask_with : ℕ → ℕ → Run ℕ
mask_with mask id = if ltb id 32 then ok (with_bit mask id) else fault

-- The state after connect(), and the part of it that counts the connection.
unfoldable pub after_connect : Server → ℕ → Proto → ConnectResult → Bool × Server
after_connect s c proto connect_error = (false, s)
after_connect s c proto in_progress =
    let status = if secured proto then ssl_handshake else connecting in
    (true, set_conn s c (conn_set_status (conn_of s c) status).1)
after_connect s c proto connected =
    let status = if secured proto then ssl_handshake else ready in
    let s' = set_conn s c (conn_set_status (conn_of s c) status).1 in
    (
      true,
      record s' {
        active_conns = if secured proto then s.active_conns else s.active_conns +ℤ pos 1;
      },
    )

-- TLS, or nothing, and then connect(): whether the connection can be used.
unfoldable pub connect_to : Host → Server → ℕ → Proto → Run (Bool × Server)
connect_to h s c proto =
    let (new_ok, fd_ok) = h.ssl_new s.used in
    let (rv, conn) = conn_enable_ssl (conn_of s c) new_ok fd_ok false in
    let enabled = set_conn (tick s) c conn in
    let given_up = conn_free enabled.table (pos c) >>= λ t.
    ok (false, record_call (record enabled { table = t }) (closed_sock (conn_of s c).sock)) in
    let go : Server → Run (Bool × Server) =
      λ x. ok (after_connect (tick x) c proto (h.connect x.used)) in
    let tls_go = if ltb_ℤ rv (pos 0) then given_up else go enabled in
    if secured proto then tls_go else go s

-- A connection to `addr`: its number, unless there is none to be had.
unfoldable pub open_conn : Host → Server → Address → Proto → Run (Option ℕ × Server)
open_conn h s addr proto = do
  let sock = h.socket s.used
  check (not (eq_ℤ sock (negsuc 0)))
  let (recv, send) = h.calloc s.used
  (id, t) ← conn_alloc s.table sock addr proto h.self recv send
  let s1 = record (tick s) { table = t }
  let failed : Run (Option ℕ × Server) = ok (none, record_call s1 (closed_sock sock))
  let connect : ℕ → Server → Run (Option ℕ × Server) = λ c x.
      check (h.poll_ok x.used)
      >> connect_to h (record_call (tick x) (added_connect sock c)) c proto
      >>= λ (usable, x'). ok (if usable then some c else none, x')
  let opened : Run (Option ℕ × Server) = conn_at id >>= λ c.
      let s2 = set_conn s1 c (record (conn_of s1 c) { enable_defrag = h.enable_defrag }) in
      let stream = connect c s2 in if streams proto then stream else ok (some c, s2)
  if eq_ℤ id (negsuc 0) then failed else opened

-- conn_find_existing(), or a new connection.
unfoldable pub forward_conn : Host → Server → Address → Proto → Run (Option ℕ × Server)
forward_conn h s addr proto =
    let found = conn_find_existing s.table addr proto h.self in
    let new = open_conn h s addr proto in
    let old = conn_at found >>= λ c. ok (some c, s) in if eq_ℤ found (negsuc 0) then new else old
