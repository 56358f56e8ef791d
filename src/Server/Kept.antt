-- ===== src/Server/Kept.antt =====
-- What the code of a worker changes of the tables without a change to a list of requests.
use distwalk_iouring.Prelude.{
  ℕ, suc, ◌+◌, ◌≡◌, refl, ap, ◌∙◌, Bool, true, false, Option, none, some, List, length,
  if◌then◌else◌,
}
use distwalk_iouring.Prelude.Run.{Run, ok, fault, aborted, out_of_fuel, ◌>>=◌, or_fault}
use distwalk_iouring.Prelude.Tables.{update_self}
use distwalk_iouring.Message.{message_size}
use distwalk_iouring.Connection.{Connection, sub_word}
use distwalk_iouring.Request.{slot, max_reqs}
use distwalk_iouring.Request.Table.{IsValid}
use distwalk_iouring.Conns.{
  Conns, conn_req_remove, drop_request, defragment, defragment_at, cut_message, to_cut, back,
  move_bytes, shift_prev, same_ptr,
}
use distwalk_iouring.Conns.Chain.{IsList, SameLink, Links-same}
use distwalk_iouring.Conns.Defrag.{Messages}

-- The second table has the same lists as the first, and the messages of connection `c` at the same
-- places.
pub record KeepsTable (s t : Conns) (c : ℕ) : Type 0 where
  pub list : (d : ℕ) → (t.conns d).req_list ≡ (s.conns d).req_list
  pub defrag : (t.conns c).enable_defrag ≡ (s.conns c).enable_defrag
  pub memory : length (t.conns c).recv_buf ≡ length (s.conns c).recv_buf
  pub received : (t.conns c).curr_recv_buf ≡ (s.conns c).curr_recv_buf
  pub room : (t.conns c).curr_recv_size ≡ (s.conns c).curr_recv_size
  pub handed : (t.conns c).curr_proc_buf ≡ (s.conns c).curr_proc_buf
  pub links : (k : ℕ) → SameLink s.requests.reqs t.requests.reqs k
  pub message : (k : ℕ) → (t.requests.reqs k).message_ptr ≡ (s.requests.reqs k).message_ptr
  pub cmd : (k : ℕ) → (t.requests.reqs k).curr_cmd ≡ (s.requests.reqs k).curr_cmd

module _ {s t : Conns} {c : ℕ} (k : KeepsTable s t c) where
  pub KeepsTable-IsList : (d : ℕ) (ks : List ℕ) → IsList s d ks → IsList t d ks
  KeepsTable-IsList d ks l = record {
    head = k.list d ∙ l.head;
    links = Links-same none none ks (λ i m. k.links i) l.links;
    once = l.once;
  }

  pub KeepsTable-IsValid : IsValid s.requests → IsValid t.requests
  KeepsTable-IsValid v i l = let e = (k.links i).id in ap slot e ∙ v i (λ gone. l (e ∙ gone))

  pub KeepsTable-Messages :
      (is : List ℕ) (r m n : ℕ)
      → message_size (t.conns c).recv_buf m ≡ ok n
      → Messages s c is r m n
      → Messages t c is r m n
  KeepsTable-Messages is r m n size h = record {
    valid = record {
      memory = k.memory ∙ h.valid.memory;
      accounted = rw (k.received, k.room) h.valid.accounted;
      handed = rw (k.handed, k.received) h.valid.handed;
    };
    here = k.message r ∙ h.here;
    size = size;
    header = h.header;
    handed = rw k.handed h.handed;
    newer = λ i mi.
        let b = h.newer i mi in
        record {
          place = b.place;
          message = k.message i ∙ b.message;
          far = b.far;
          cmd = rw (k.cmd i) b.cmd;
        };
  }

-- If the code returns, the value satisfies `P`.
pub data IfReturns {ℓ} {A : Type ℓ} (P : A → Type 0) : Run A → Type ℓ where
  if_ok : {a : A} → P a → IfReturns P (ok a)
  if_fault : IfReturns P fault
  if_aborted : IfReturns P aborted
  if_out_of_fuel : IfReturns P out_of_fuel

pub IfReturns-bind {ℓ κ} :
    {A : Type ℓ} {B : Type κ} {Q : B → Type 0} {next : A → Run B} (m : Run A)
    → ((a : A) → m ≡ ok a → IfReturns Q (next a))
    → IfReturns Q (m >>= next)
IfReturns-bind (ok a) h = h a refl
IfReturns-bind fault h = if_fault
IfReturns-bind aborted h = if_aborted
IfReturns-bind out_of_fuel h = if_out_of_fuel

pub IfReturns-map {ℓ} :
    {A : Type ℓ} {P Q : A → Type 0} {m : Run A}
    → IfReturns P m
    → ((a : A) → P a → Q a)
    → IfReturns Q m
IfReturns-map (if_ok p) h = if_ok (h _ p)
IfReturns-map if_fault h = if_fault
IfReturns-map if_aborted h = if_aborted
IfReturns-map if_out_of_fuel h = if_out_of_fuel

pub IfReturns-if {ℓ} :
    {A : Type ℓ} {P : A → Type 0} {m n : Run A} (b : Bool)
    → IfReturns P m
    → IfReturns P n
    → IfReturns P (if b then m else n)
IfReturns-if true p q = p
IfReturns-if false p q = q

value_of {ℓ} : {A : Type ℓ} {P : A → Type 0} {a : A} → IfReturns P (ok a) → P a
value_of (if_ok p) = p

pub IfReturns-ok {ℓ} :
    {A : Type ℓ} {P : A → Type 0} {m : Run A} {a : A} → IfReturns P m → m ≡ ok a → P a
IfReturns-ok h e = value_of (rw e at h)

-- The two have the same bytes to send.
pub record SameSend (c d : Connection) : Type 0 where
  pub buf : d.send_buf ≡ c.send_buf
  pub start : d.curr_send_buf ≡ c.curr_send_buf
  pub size : d.curr_send_size ≡ c.curr_send_size
  pub status : d.status ≡ c.status

SameSend-trans : {a b c : Connection} → SameSend a b → SameSend b c → SameSend a c
SameSend-trans x y = record {
  buf = y.buf ∙ x.buf;
  start = y.start ∙ x.start;
  size = y.size ∙ x.size;
  status = y.status ∙ x.status;
}

SameSend-refl : (a : Connection) → SameSend a a
SameSend-refl a = record { buf = refl; start = refl; size = refl; status = refl }

cut_message-SameSend :
    (conn : Connection) (m n : ℕ) → IfReturns (SameSend conn) (cut_message conn m n)
unfolding cut_message
cut_message-SameSend conn m n =
    IfReturns-bind (move_bytes (sub_word conn.curr_recv_buf (m + n)) conn.recv_buf (m + n) m) λ b _.
      IfReturns-bind (back conn.curr_recv_buf n) λ recv _.
        IfReturns-bind (back conn.curr_proc_buf n)
          λ proc _. if_ok (record { buf = refl; start = refl; size = refl; status = refl })

defragment_at-SameSend :
    (s : Conns) (c r m : ℕ)
    → IfReturns (λ t. SameSend (s.conns c) (t.conns c)) (defragment_at s c r m)
unfolding defragment_at
defragment_at-SameSend s c r m = IfReturns-bind (message_size (s.conns c).recv_buf m) λ n _.
    IfReturns-bind (cut_message (s.conns c) m n) λ conn cut.
      IfReturns-bind (shift_prev (suc max_reqs) s.requests.reqs (s.requests.reqs r).prev n) λ f _.
        if_ok (
          rw (update_self s.conns c conn) (IfReturns-ok (cut_message-SameSend (s.conns c) m n) cut))

defragment-SameSend :
    (s : Conns) (c r : ℕ) → IfReturns (λ t. SameSend (s.conns c) (t.conns c)) (defragment s c r)
unfolding defragment
defragment-SameSend s c r =
    go (to_cut (s.conns c) (s.requests.reqs r).message_ptr) (s.requests.reqs r).message_ptr
  where
    go :
        (b : Bool) (ptr : Option ℕ)
        → IfReturns
            (λ t. SameSend (s.conns c) (t.conns c))
            (if b then or_fault ptr >>= (λ m. defragment_at s c r m) else ok s)
    go false ptr = if_ok (SameSend-refl (s.conns c))
    go true none = if_fault
    go true (some m) = defragment_at-SameSend s c r m

drop_request-SameSend :
    (s : Conns) (c r : ℕ) → SameSend (s.conns c) ((drop_request s c r).1.conns c)
unfolding drop_request
drop_request-SameSend s c r =
    let head =
      if same_ptr (s.conns c).req_list r then (s.requests.reqs r).next else (s.conns c).req_list in
    rw (update_self s.conns c (record (s.conns c) { req_list = head }))
      (record { buf = refl; start = refl; size = refl; status = refl })

-- conn_req_remove() leaves alone what the connection has to send.
pub conn_req_remove-SameSend :
    (s : Conns) (c r : ℕ)
    → IfReturns
        (λ (o : Option ℕ × Conns). SameSend (s.conns c) (o.1.conns c))
        (conn_req_remove s c r)
unfolding conn_req_remove
conn_req_remove-SameSend s c r = IfReturns-bind (defragment s c r) λ s1 d.
    if_ok
      (SameSend-trans (IfReturns-ok (defragment-SameSend s c r) d) (drop_request-SameSend s1 c r))
