-- ===== src/Request.antt =====
-- src/request.h and src/request.c: the table of the requests that are in progress.
--
-- A req_info_t* is the index of its entry in `reqs`, and NULL is `none`. A request id is a C int,
-- which the counter hands out in order, from the largest on to the least; the index that belongs to
-- it is the remainder of the id as an unsigned int.
pub mod Table
pub mod Unlink
mod Tests
use distwalk_iouring.Prelude.{
  ℕ, ◌+◌, ◌-◌, ◌%◌, ◌^◌, Bool, true, false, ◌&&◌, not, Option, none, some, ltb, ◌==◌, if◌then◌else◌,
}
use distwalk_iouring.Prelude.Int.{ℤ, pos, negsuc, ◌+ℤ◌, eq_ℤ, ltb_ℤ}
use distwalk_iouring.Prelude.Tables.{update}
use distwalk_iouring.Connection.{Address}

abbrev pub max_reqs : ℕ
max_reqs = 65536

-- req_info_t, but for the MAC address. `message_ptr` and `curr_cmd` are offsets into the receive
-- buffer of the connection, and `timeout_node` is an index into the queue of timeouts.
pub record Request : Type 0 where
  pub req_id : ℤ
  pub conn_id : ℤ
  pub target : Address
  pub fwd_replies_left : ℤ
  pub fwd_replies_mask : ℕ
  pub fwd_retries : ℤ
  pub fwd_timeout : ℤ
  pub fwd_on_fail_skip : ℤ
  pub message_ptr : Option ℕ
  pub curr_cmd : Option ℕ
  pub timeout_node : Option ℕ
  pub prev : Option ℕ
  pub next : Option ℕ
  pub sendfile_fd : ℤ
  pub sendfile_offset : ℕ
  pub sendfile_size : ℕ

pub record Requests : Type 0 where
  pub reqs : ℕ → Request
  pub last_reqs : ℤ

-- req_id % MAX_REQS, where MAX_REQS is unsigned
unfoldable pub slot : ℤ → ℕ
slot (pos n) = n % max_reqs
slot (negsuc n) = (2 ^ 32 - 1 - n) % max_reqs

-- atomic_fetch_add(&last_reqs, 1), which wraps around
unfoldable pub next_id : ℤ → ℤ
next_id a = if ltb_ℤ a (pos 2147483647) then a +ℤ pos 1 else negsuc 2147483647

abbrev pub unused : Request
unused = record {
  req_id = negsuc 0;
  conn_id = negsuc 0;
  target = record { sin_addr = 0; sin_port = 0 };
  fwd_replies_left = pos 0;
  fwd_replies_mask = 0;
  fwd_retries = pos 0;
  fwd_timeout = pos 0;
  fwd_on_fail_skip = pos 0;
  message_ptr = none;
  curr_cmd = none;
  timeout_node = none;
  prev = none;
  next = none;
  sendfile_fd = pos 0;
  sendfile_offset = 0;
  sendfile_size = 0;
}

unfoldable pub req_init : ℤ → Requests
req_init last_reqs = record { reqs = λ i. unused; last_reqs = last_reqs }

-- The entry, or NULL, and the table. The id is used up in both cases.
unfoldable pub req_alloc : Requests → Option ℕ × Requests
req_alloc t =
    let req_id = t.last_reqs in
    let i = slot req_id in
    let r = t.reqs i in
    let t' = record t { last_reqs = next_id req_id } in
    let r' = record r {
      req_id = req_id;
      curr_cmd = none;
      fwd_replies_left = negsuc 0;
      next = none;
      prev = none;
    } in
    if not (eq_ℤ r.req_id (negsuc 0))
    then (none, t')
    else (some i, record t' { reqs = update t.reqs i r' })

unfoldable pub req_get_by_id : Requests → ℤ → Option ℕ
req_get_by_id t req_id =
    if not (eq_ℤ (t.reqs (slot req_id)).req_id req_id) then none else some (slot req_id)

-- An assignment through a pointer that may be NULL.
abbrev pub set_prev : (ℕ → Request) → Option ℕ → Option ℕ → ℕ → Request
set_prev f none v = f
set_prev f (some i) v = update f i (record (f i) { prev = v })

abbrev pub set_next : (ℕ → Request) → Option ℕ → Option ℕ → ℕ → Request
set_next f none v = f
set_next f (some i) v = update f i (record (f i) { next = v })

-- The entry that followed, and the table.
unfoldable pub req_unlink : Requests → ℕ → Option ℕ × Requests
req_unlink t r =
    let next = (t.reqs r).next in
    let f1 = set_prev t.reqs next (t.reqs r).prev in
    let f2 = set_next f1 (f1 r).prev (f1 r).next in
    let gone = record (f2 r) { next = none; prev = none; req_id = negsuc 0; message_ptr = none } in
    (next, record t { reqs = update f2 r gone })
