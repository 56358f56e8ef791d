-- ===== src/Conns/Lookup.antt =====
-- src/connection.c: finding, allocating and deleting the entries of the table of connections.
use distwalk_iouring.Prelude.{
  ℕ, zero, suc, ◌+◌, Bool, true, false, ◌&&◌, ◌||◌, not, Option, none, some, [], ltb, ◌==◌,
  if◌then◌else◌,
}
use distwalk_iouring.Prelude.Int.{ℤ, pos, negsuc, eq_ℤ}
use distwalk_iouring.Prelude.Run.{Run, ok, ◌>>=◌, ◌>>◌, check}
use distwalk_iouring.Prelude.Tables.{update}
use distwalk_iouring.Memory.{Bytes, write_u32}
use distwalk_iouring.Message.{sizeof_message, command_value, eom}
use distwalk_iouring.Connection.{
  Connection, Address, Proto, udp, tcp, dpdk, not_init, ready, buf_size,
}
use distwalk_iouring.Conns.{Conns, max_conns, conn_reset}

abbrev pub is_udp : Proto → Bool
is_udp udp = true
is_udp _ = false

abbrev pub is_tcp : Proto → Bool
is_tcp tcp = true
is_tcp _ = false

abbrev pub is_dpdk : Proto → Bool
is_dpdk dpdk = true
is_dpdk _ = false

unfoldable pub conn_init : Conns → Conns
conn_init s =
    let empty : Connection → Connection = λ c. record c {
      recv_buf = [];
      send_buf = [];
      sock = negsuc 0;
      busy = false;
      use_ssl = false;
      ssl_handshake_done = false;
      ssl_is_server = false;
    } in
    record s { conns = λ i. if ltb i max_conns then empty (s.conns i) else s.conns i }

-- A loop over conns[] that stops at the first entry that passes the test: its index, or the end.
unfoldable pub first_conn : ℕ → (ℕ → Bool) → ℕ → ℕ
first_conn zero test i = i
first_conn (suc n) test i = if test i then i else first_conn n test (i + 1)

abbrev pub found_or : ℕ → ℤ
found_or i = if ltb i max_conns then pos i else negsuc 0

-- The tests of conn_find_existing() on one entry, for a thread `self`.
unfoldable pub can_forward : Address → Proto → ℕ → Connection → Bool
can_forward target proto self c =
    (is_dpdk proto && (is_dpdk c.proto && c.parent_thread == self))
    || (not (eq_ℤ c.sock (negsuc 0))
        && (not c.is_listen
            && ((is_udp proto && c.parent_thread == self)
                || (is_tcp proto
                    && (c.target.sin_port == target.sin_port
                        && (c.target.sin_addr == target.sin_addr && is_tcp c.proto))))))

unfoldable pub conn_find_existing : Conns → Address → Proto → ℕ → ℤ
conn_find_existing s target proto self =
    found_or (first_conn max_conns (λ i. can_forward target proto self (s.conns i)) 0)

unfoldable pub conn_find_sock : Conns → ℤ → Run ℤ
conn_find_sock s sock =
    check (not (eq_ℤ sock (negsuc 0)))
    >> ok (found_or (first_conn max_conns (λ i. eq_ℤ (s.conns i).sock sock) 0))

unfoldable pub conn_del_id : Conns → ℤ → Run Conns
conn_del_id s (negsuc _) = check false >> ok s
conn_del_id s (pos id) = check (ltb id max_conns) >> conn_reset s id >>= λ s'.
    let conn = s'.conns id in
    ok (record s' { conns = update s'.conns id (record conn { sock = negsuc 0 }) })

unfoldable pub conn_del_sock : Conns → ℤ → Run (ℤ × Conns)
conn_del_sock s sock = do
  id ← conn_find_sock s sock
  let del = conn_del_id s id
  s' ← if not (eq_ℤ id (negsuc 0)) then del else ok s
  ok (id, s')

-- ((message_t*) buf)->cmds[0].cmd = EOM
abbrev pub put_eom : Bytes → Run Bytes
put_eom b = write_u32 b sizeof_message (command_value eom)

-- What conn_alloc() makes of the entry, with two buffers from calloc().
unfoldable pub new_conn : Connection → ℤ → Address → Proto → ℕ → Bytes → Bytes → Connection
new_conn c sock target proto self recv send = record c {
  proto = proto;
  target = target;
  sock = sock;
  status = if is_tcp proto then not_init else ready;
  recv_buf = recv;
  send_buf = send;
  parent_thread = self;
  use_ssl = false;
  ssl_handshake_done = false;
  ssl_is_server = false;
  curr_recv_buf = 0;
  curr_proc_buf = 0;
  curr_recv_size = buf_size;
  curr_send_buf = 0;
  curr_send_size = 0;
  serialize_request = false;
}

-- conn_alloc(): `recv` and `send` are what calloc() returns. The entry that was found stays busy
-- when there is no memory.
unfoldable pub conn_alloc :
    Conns → ℤ → Address → Proto → ℕ → Option Bytes → Option Bytes → Run (ℤ × Conns)
conn_alloc s sock target proto self recv send =
    let i = first_conn max_conns (λ j. not (s.conns j).busy) 0 in
    let s' = record s { conns = update s.conns i (record (s.conns i) { busy = true }) } in
    let fill : Bytes → Bytes → Run (ℤ × Conns) = λ r w. put_eom w >>= λ w'. put_eom r >>= λ r'. ok (
      pos i,
      record s' { conns = update s'.conns i (new_conn (s'.conns i) sock target proto self r' w') },
    ) in
    let failed : Run (ℤ × Conns) = ok (negsuc 0, s') in
    if ltb i max_conns
    then elim recv [ none ↦ failed | some r ↦ elim send [ none ↦ failed | some w ↦ fill r w ] ]
    else ok (negsuc 0, s)
