-- ===== src/Conns.antt =====
-- src/connection.c and src/connection.h: the table of connections, and the list that each keeps of
-- its requests.
--
-- A conn_info_t* is the index of its entry in `conns`, and a req_info_t* that of its entry in the
-- table of requests; the heads and links of the lists are NULL or such an index. A pointer that
-- would fall below the start of its buffer is a fault. Several threads are not modelled: an
-- operation runs without another in between.
pub mod Lookup
pub mod Members
pub mod Chain
pub mod Drop
pub mod Remove
pub mod Add
pub mod Count
pub mod Reset
pub mod Cut
pub mod Shift
pub mod Defrag
pub mod Whole
pub mod Find
pub mod Existing
pub mod Alloc
pub mod Stale
pub mod Delete
mod Tests
use distwalk_iouring.Prelude.{
  ℕ, zero, suc, ◌+◌, ◌-◌, Bool, true, false, ◌&&◌, not, Option, none, some, [], ltb, leb, ◌==◌,
  if◌then◌else◌,
}
use distwalk_iouring.Prelude.Int.{ℤ, pos, negsuc}
use distwalk_iouring.Prelude.Run.{Run, ok, fault, out_of_fuel, ◌>>=◌, or_fault}
use distwalk_iouring.Prelude.Tables.{update}
use distwalk_iouring.Memory.{Bytes, read_u8, write_u8}
use distwalk_iouring.Message.{message_size}
use distwalk_iouring.Connection.{Connection, buf_size, sub_word, close}
use distwalk_iouring.Request.{Request, Requests, max_reqs, req_alloc, req_unlink, set_prev}

pub record Conns : Type 0 where
  pub conns : ℕ → Connection
  pub requests : Requests

abbrev pub max_conns : ℕ
max_conns = 8192

-- Two pointers are the same.
abbrev pub same_ptr : Option ℕ → ℕ → Bool
same_ptr none r = false
same_ptr (some i) r = i == r

-- The part of conn_req_add() behind req_alloc(), which has returned an entry or NULL.
abbrev pub link_new : Conns → ℕ → Option ℕ → Requests → Option ℕ × Conns
link_new s c none t = (none, record s { requests = t })
link_new s c (some i) t =
    let conn = s.conns c in
    let req = record (t.reqs i) { conn_id = pos c; target = conn.target; next = conn.req_list } in
    let f = set_prev (update t.reqs i req) conn.req_list (some i) in
    (
      some i,
      record {
        conns = update s.conns c (record conn { req_list = some i });
        requests = record t { reqs = f };
      },
    )

unfoldable pub conn_req_add : Conns → ℕ → Option ℕ × Conns
conn_req_add s c = let (r, t) = req_alloc s.requests in link_new s c r t

-- The loop of conn_reset() that unlinks each request; req_unlink() returns the one that followed.
unfoldable pub unlink_all : ℕ → Requests → Option ℕ → Run Requests
unlink_all zero t r = out_of_fuel
unlink_all (suc fuel) t none = ok t
unlink_all (suc fuel) t (some r) = let (next, t') = req_unlink t r in unlink_all fuel t' next

-- There are not more requests than entries in the table. The loop over the lists of all connections
-- that comes first only logs and is left out; it would not end on a list with a cycle.
unfoldable pub conn_reset : Conns → ℕ → Run Conns
conn_reset s c = unlink_all (suc max_reqs) s.requests (s.conns c).req_list >>= λ t.
    ok (record s { requests = t })

-- memmove() of `n` bytes from `p` to a place `q` before it, in one buffer
unfoldable pub move_bytes : ℕ → Bytes → ℕ → ℕ → Run Bytes
move_bytes zero b p q = ok b
move_bytes (suc n) b p q = do v ← read_u8 b p; b' ← write_u8 b q v; move_bytes n b' (p + 1) (q + 1)

-- p - n, of a pointer into a buffer
abbrev pub back : ℕ → ℕ → Run ℕ
back p n = if leb n p then ok (p - n) else fault

abbrev pub back_cmd : Option ℕ → ℕ → Run (Option ℕ)
back_cmd none n = ok none
back_cmd (some p) n = back p n >>= λ q. ok (some q)

abbrev pub back_message : Option ℕ → ℕ → Run (Option ℕ)
back_message none n = fault
back_message (some p) n = back p n >>= λ q. ok (some q)

-- The loop over the requests that came in after the one that is removed.
unfoldable pub shift_prev : ℕ → (ℕ → Request) → Option ℕ → ℕ → Run (ℕ → Request)
shift_prev zero f temp n = out_of_fuel
shift_prev (suc fuel) f none n = ok f
shift_prev (suc fuel) f (some i) n = do
  m ← back_message (f i).message_ptr n
  cmd ← back_cmd (f i).curr_cmd n
  shift_prev fuel (update f i (record (f i) { message_ptr = m; curr_cmd = cmd })) (f i).prev n

-- The receive buffer without the message at `m`: what came in behind it moves to its place.
unfoldable pub cut_message : Connection → ℕ → ℕ → Run Connection
cut_message conn m n = do
  b ← move_bytes (sub_word conn.curr_recv_buf (m + n)) conn.recv_buf (m + n) m
  recv ← back conn.curr_recv_buf n
  proc ← back conn.curr_proc_buf n
  let conn' = record conn {
    recv_buf = b;
    curr_recv_buf = recv;
    curr_proc_buf = proc;
    curr_recv_size = conn.curr_recv_size + n;
  }
  ok conn'

-- The message at `m` leaves the buffer, and what was behind it moves up.
unfoldable pub defragment_at : Conns → ℕ → ℕ → ℕ → Run Conns
defragment_at s c r m = do
  n ← message_size (s.conns c).recv_buf m
  conn' ← cut_message (s.conns c) m n
  f ← shift_prev (suc max_reqs) s.requests.reqs (s.requests.reqs r).prev n
  ok (record { conns = update s.conns c conn'; requests = record s.requests { reqs = f } })

-- The condition of conn_req_remove(): the message of the request is in the buffer.
abbrev pub to_cut : Connection → Option ℕ → Bool
to_cut conn none = false
to_cut conn (some m) = conn.enable_defrag && ltb m buf_size

unfoldable pub defragment : Conns → ℕ → ℕ → Run Conns
defragment s c r =
    let ptr = (s.requests.reqs r).message_ptr in
    let cut = or_fault ptr >>= λ m. defragment_at s c r m in
    if to_cut (s.conns c) ptr then cut else ok s

-- The end of conn_req_remove(): the request leaves its list.
unfoldable pub drop_request : Conns → ℕ → ℕ → Option ℕ × Conns
drop_request s c r =
    let conn = s.conns c in
    let head = if same_ptr conn.req_list r then (s.requests.reqs r).next else conn.req_list in
    let (next, t) = req_unlink s.requests r in
    (next, record { conns = update s.conns c (record conn { req_list = head }); requests = t })

unfoldable pub conn_req_remove : Conns → ℕ → ℕ → Run (Option ℕ × Conns)
conn_req_remove s c r = do s' ← defragment s c r; ok (drop_request s' c r)

-- conn_free(); what SSL_shutdown() does to the peer is not part of the table.
unfoldable pub conn_free : Conns → ℤ → Run Conns
conn_free s (negsuc c) = ok s
conn_free s (pos c) = conn_reset s c >>= λ s'.
    let conn = s'.conns c in
    ok (record s' {
      conns = update s'.conns c (record conn {
        recv_buf = [];
        send_buf = [];
        status = close;
        sock = negsuc 0;
        busy = false;
        ssl_handshake_done = false;
        ssl_is_server = false;
      });
    })
