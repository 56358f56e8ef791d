-- ===== src/Conns/Tests.antt =====
-- A table with one connection that has two requests, and the theorems on it.
use distwalk_iouring.Prelude.{
  ℕ, ◌<◌, ◌≡◌, ◌≢◌, refl, ap, ◌⊎◌, inl, inr, true, false, none, some, List, [], ◌∷◌, ◌++◌, arith,
  length, replicate, length-replicate, ℕ_discrete,
}
use distwalk_iouring.Prelude.Int.{ℤ, pos, negsuc, neg_part}
use distwalk_iouring.Prelude.Run.{ok, ◌>>=◌, Returns}
use distwalk_iouring.Prelude.Tables.{update}
use distwalk_iouring.Memory.{Bytes, read_u8, read_u32}
use distwalk_iouring.Message.{message_size}
use distwalk_iouring.Connection.{
  Connection, Address, tcp, tls, ready, close, reply_mode_normal, buf_size,
}
use distwalk_iouring.Request.{Request, unused, slot}
use distwalk_iouring.Request.Table.{IsValid}
use distwalk_iouring.Conns.{Conns, max_conns, conn_req_add, conn_reset, conn_req_remove, conn_free}
use distwalk_iouring.Conns.Lookup.{conn_alloc, conn_find_existing, conn_del_sock}
use distwalk_iouring.Conns.Chain.{IsList}
use distwalk_iouring.Conns.Members.{Disjoint}
use distwalk_iouring.Conns.Shift.{IsBehind}
use distwalk_iouring.Conns.Defrag.{Messages}
use distwalk_iouring.Conns.Whole.{Removed, conn_req_remove-Removed}
use distwalk_iouring.Conns.Add.{Added, conn_req_add-Added}
use distwalk_iouring.Conns.Reset.{Freed, conn_reset-Freed}
use distwalk_iouring.Conns.Alloc.{AllocOutcome, conn_alloc-outcome}
use distwalk_iouring.Conns.Stale.{conn_alloc-stale}
use distwalk_iouring.Conns.Delete.{Deleted, conn_del_sock-Deleted}
use distwalk_iouring.Conns.Existing.{Forwards, conn_find_existing-Forwards}

zeros : (n : ℕ) → (b : Bytes) × (length b ≡ n)
zeros n = (replicate n 0, length-replicate n 0)

rest : Bytes
rest = (zeros 16777176).0

length-rest : length rest ≡ 16777176
unfolding rest
length-rest = (zeros 16777176).1

blank : Bytes
blank = (zeros buf_size).0

length-blank : length blank ≡ buf_size
unfolding blank
length-blank = (zeros buf_size).1

-- A message of 20 bytes, and one of 16 behind it.
abbrev buffer : Bytes
buffer = 1 ∷ 0 ∷ 0 ∷ 0 ∷ 20 ∷ replicate 15 0 ++ 2 ∷ 0 ∷ 0 ∷ 0 ∷ 16 ∷ replicate 15 0 ++ rest

abbrev peer : Address
peer = record { sin_addr = 1; sin_port = 7891 }

abbrev idle : Connection
idle = record {
  proto = tcp;
  sock = negsuc 0;
  status = close;
  target = peer;
  recv_buf = [];
  send_buf = [];
  curr_recv_buf = 0;
  curr_recv_size = 0;
  curr_proc_buf = 0;
  curr_send_buf = 0;
  curr_send_size = 0;
  file_fd = negsuc 0;
  file_offset = 0;
  file_remaining = 0;
  reply_mode = reply_mode_normal;
  req_list = none;
  serialize_request = false;
  parent_thread = 0;
  busy = false;
  enable_defrag = true;
  is_listen = false;
  use_ssl = false;
  ssl_handshake_done = false;
  ssl_is_server = false;
}

abbrev busy_conn : Connection
busy_conn = record idle {
  sock = pos 5;
  status = ready;
  recv_buf = buffer;
  curr_recv_buf = 36;
  curr_recv_size = 16777180;
  curr_proc_buf = 36;
  req_list = some 5;
  busy = true;
}

abbrev older : Request
older = record unused {
  req_id = pos 65540;
  conn_id = pos 0;
  message_ptr = some 0;
  curr_cmd = some 12;
  prev = some 5;
}

abbrev newer : Request
newer = record unused {
  req_id = pos 65541;
  conn_id = pos 0;
  message_ptr = some 20;
  curr_cmd = some 32;
  next = some 4;
}

abbrev state : Conns
state = record {
  conns = update (λ i. idle) 0 busy_conn;
  requests = record { reqs = update (update (λ i. unused) 4 older) 5 newer; last_reqs = pos 65542 };
}

state-IsValid : IsValid state.requests
unfolding slot
state-IsValid i l = elim (ℕ_discrete i 5) [
  | yes e ↦ rw e refl
  | no ne ↦ elim (ℕ_discrete i 4) [
    | yes e ↦ rw e refl
    | no nf ↦
        let at : state.requests.reqs i ≡ unused = ground arith in absurd (l (ap (λ r. r.req_id) at))
  ]
]

live : (n : ℕ) → pos n ≢ negsuc 0
live n e = omega (arith, ap neg_part e)

state-IsList : IsList state 0 (5 ∷ 4 ∷ [])
state-IsList = record {
  head = refl;
  links = (
    record { prev = refl; next = refl; live = live 65541 },
    record { prev = refl; next = refl; live = live 65540 },
  );
  once = ((λ m. elim m [ inl e ↦ omega (arith, e) | inr n ↦ n ]), ((λ m. m), tt));
}

size_20 : message_size buffer 0 ≡ ok 20
unfolding message_size read_u32 read_u8
size_20 = refl

state-Messages : Messages state 0 (5 ∷ []) 4 0 20
state-Messages = record {
  valid = record { memory = omega (arith, length-rest); accounted = refl; handed = omega arith };
  here = refl;
  size = size_20;
  header = omega arith;
  handed = omega arith;
  newer = λ k m. elim m [ inl e ↦ rw e first_newer | inr n ↦ absurd n ];
}
  where
    first_newer : IsBehind 20 (state.requests.reqs 5)
    first_newer = record { place = 20; message = refl; far = omega arith; cmd = omega arith }

conn_req_remove-Removed_example :
    Returns (Removed state 0 (5 ∷ []) 4 [] 0 20) (conn_req_remove state 0 4)
conn_req_remove-Removed_example =
    conn_req_remove-Removed state 0 (5 ∷ []) 4 [] 0 20 state-IsValid state-IsList state-Messages

conn_req_add-Added_example :
    Added state 0 (5 ∷ 4 ∷ []) (conn_req_add state 0) × IsValid (conn_req_add state 0).1.requests
conn_req_add-Added_example =
    conn_req_add-Added state 0 (5 ∷ 4 ∷ []) state-IsValid (live 65542) state-IsList

conn_reset-Freed_example :
    Returns
      (λ s'.
        (s'.conns ≡ state.conns)
        × Freed state.requests (5 ∷ 4 ∷ []) s'.requests
        × ((d : ℕ) (ks : List ℕ) → Disjoint ks (5 ∷ 4 ∷ []) → IsList state d ks → IsList s' d ks))
      (conn_reset state 0)
conn_reset-Freed_example = conn_reset-Freed state 0 (5 ∷ 4 ∷ []) state-IsValid state-IsList

conn_alloc-outcome_example :
    Returns
      (AllocOutcome state (pos 6) peer tcp 0 (some blank) none)
      (conn_alloc state (pos 6) peer tcp 0 (some blank) none)
conn_alloc-outcome_example =
    conn_alloc-outcome state (pos 6) peer tcp 0 (some blank) none length-blank tt

conn_alloc-stale_example :
    Returns
      (λ (x : ℤ × Conns).
        (x.0 ≡ pos 0)
        × ((x.1.conns 0).req_list ≡ some 5)
        × ((x.1.requests.reqs 5).req_id ≡ negsuc 0))
      (conn_free state (pos 0) >>= λ s'. conn_alloc s' (pos 6) peer tcp 0 (some blank) (some blank))
conn_alloc-stale_example =
    conn_alloc-stale state 0 5 (4 ∷ []) state-IsValid state-IsList (omega arith)
      (λ j h. absurd (omega arith)) (pos 6) peer tcp 0 blank blank length-blank length-blank

conn_find_existing-Forwards_example :
    ((i : ℕ) × (conn_find_existing state peer tls 0 ≡ pos i)
      × (i < max_conns)
      × Forwards peer tls 0 (state.conns i)
      × ((j : ℕ) → j < i → Forwards peer tls 0 (state.conns j) → ⊥))
    ⊎ ((conn_find_existing state peer tls 0 ≡ negsuc 0)
        × ((j : ℕ) → j < max_conns → Forwards peer tls 0 (state.conns j) → ⊥))
conn_find_existing-Forwards_example = conn_find_existing-Forwards state peer tls 0

conn_del_sock-Deleted_example :
    Returns
      (λ (x : ℤ × Conns).
        (x.0 ≡ pos 0)
        × Deleted state 0 (5 ∷ 4 ∷ []) x.1
        × ((x.1.conns 0).busy ≡ (state.conns 0).busy))
      (conn_del_sock state (pos 5))
conn_del_sock-Deleted_example =
    conn_del_sock-Deleted state (pos 5) 0 (5 ∷ 4 ∷ []) (live 5) (omega arith) refl
      (λ j h. absurd (omega arith)) state-IsValid state-IsList
