-- ===== src/Conns/Defrag.antt =====
-- conn_req_remove(): the request leaves, and the messages of the others stay whole.
use distwalk_iouring.Prelude.{
  ℕ, ◌+◌, ◌-◌, ◌≤◌, ◌<◌, ◌≡◌, ◌≢◌, refl, sym, ap, ◌∙◌, inl, inr, true, false, Option, none, some,
  List, [], arith, if◌then◌else◌,
}
use distwalk_iouring.Prelude.Tables.{update, update_self, update_ne}
use distwalk_iouring.Prelude.Run.{ok}
use distwalk_iouring.Memory.{read_u8}
use distwalk_iouring.Message.{message_size}
use distwalk_iouring.Connection.{Connection}
use distwalk_iouring.Connection.Receive.{IsReceiving}
use distwalk_iouring.Request.{Request}
use distwalk_iouring.Conns.{Conns}
use distwalk_iouring.Conns.Chain.{SameLink}
use distwalk_iouring.Conns.Members.{◌∈◌, ◌∉◌, some_injective}
use distwalk_iouring.Conns.Count.{mem-Dec}
use distwalk_iouring.Conns.Cut.{Cut}
use distwalk_iouring.Conns.Shift.{
  Behind, IsBehind, lower, Shifted, rev_onto, rev_onto-mem, mem-rev_onto,
}

-- The message at `m`, of `n` bytes, is that of the request `r`, and has been handed out; those of
-- the requests `is`, with the commands they have come to, lie behind it.
pub record Messages (s : Conns) (c : ℕ) (is : List ℕ) (r m n : ℕ) : Type 0 where
  pub valid : IsReceiving (s.conns c)
  pub here : (s.requests.reqs r).message_ptr ≡ some m
  pub size : message_size (s.conns c).recv_buf m ≡ ok n
  pub header : 12 ≤ n
  pub handed : m + n ≤ (s.conns c).curr_proc_buf
  pub newer : (k : ℕ) → k ∈ is → IsBehind (m + n) (s.requests.reqs k)

-- The message of a request, as far as it has come in, has the same bytes as before, though it may
-- be elsewhere.
abbrev pub SameMessage : Conns → Conns → ℕ → ℕ → Type 0
SameMessage s s' c k =
    (p : ℕ)
    → (s.requests.reqs k).message_ptr ≡ some p
    → (q : ℕ) × ((s'.requests.reqs k).message_ptr ≡ some q)
      × ((x : ℕ)
          → p + x < (s.conns c).curr_recv_buf
          → read_u8 (s'.conns c).recv_buf (q + x) ≡ read_u8 (s.conns c).recv_buf (p + x))

-- What both the code that moves messages and the code that does not leave behind.
pub record Defragged (s : Conns) (c : ℕ) (is : List ℕ) (m n : ℕ) (s' : Conns) : Type 0 where
  pub valid : IsReceiving (s'.conns c)
  pub list : (s'.conns c).req_list ≡ (s.conns c).req_list
  pub room :
      (s'.conns c).curr_recv_buf + (if (s.conns c).enable_defrag then n else 0)
      ≡ (s.conns c).curr_recv_buf
  pub others : (d : ℕ) → d ≢ c → s'.conns d ≡ s.conns d
  pub links : (k : ℕ) → SameLink s.requests.reqs s'.requests.reqs k
  pub newer : (k : ℕ) → k ∈ is → SameMessage s s' c k
  pub rest : (k : ℕ) → k ∉ is → s'.requests.reqs k ≡ s.requests.reqs k
  pub below : (i : ℕ) → i < m → read_u8 (s'.conns c).recv_buf i ≡ read_u8 (s.conns c).recv_buf i

SameLink-refl : (f : ℕ → Request) (k : ℕ) → SameLink f f k
SameLink-refl f k = record { prev = refl; next = refl; id = refl }

weaken : (m n : ℕ) (o : Option ℕ) → Behind (m + n) o → Behind n o
weaken m n none h = tt
weaken m n (some p) h = omega arith

pub weaken_request : (m n : ℕ) (q : Request) → IsBehind (m + n) q → IsBehind n q
weaken_request m n q h = record {
  place = h.place;
  message = h.message;
  far = omega (arith, h.far);
  cmd = weaken m n q.curr_cmd h.cmd;
}

module _ (s : Conns) (c : ℕ) (is : List ℕ) (r m n : ℕ) (h : Messages s c is r m n) where
  pub unmoved : (s.conns c).enable_defrag ≡ false → Defragged s c is m n s
  unmoved off = record {
    valid = h.valid;
    list = refl;
    room = rw off (omega arith);
    others = λ d ne. refl;
    links = λ k. SameLink-refl s.requests.reqs k;
    newer = λ k mk p e. (p, e, λ x l. refl);
    rest = λ k o. refl;
    below = λ i l. refl;
  }

  module _ (conn' : Connection) (cut : Cut (s.conns c) m n conn') (f : ℕ → Request)
      (shifted : Shifted s.requests.reqs (rev_onto is []) n f) where
    abbrev after : Conns
    after = record { conns = update s.conns c conn'; requests = record s.requests { reqs = f } }

    at : after.conns c ≡ conn'
    at = update_self s.conns c conn'

    same_link : (k : ℕ) → SameLink s.requests.reqs f k
    same_link k = elim (mem-Dec k (rev_onto is [])) [
      | yes mk ↦
          let e = shifted.moved k mk in
          record { prev = ap (λ q. q.prev) e; next = ap (λ q. q.next) e; id = ap (λ q. q.req_id) e }
      | no o ↦
          let e = shifted.same k o in
          record { prev = ap (λ q. q.prev) e; next = ap (λ q. q.next) e; id = ap (λ q. q.req_id) e }
    ]

    moved_message : (k : ℕ) → k ∈ is → SameMessage s after c k
    moved_message k mk p e =
        let b = h.newer k mk in
        let same : b.place ≡ p = some_injective (sym b.message ∙ e) in
        (
          p - n,
          ap (λ q. q.message_ptr) (shifted.moved k (mem-rev_onto is [] k (inl mk)))
              ∙ ap (λ o. lower o n) e,
          λ x l.
              let e1 : p - n + x + n ≡ p + x = omega (arith, b.far) in
              ap (λ g. read_u8 g.recv_buf (p - n + x)) at
              ∙ cut.above (p - n + x) (omega (arith, b.far)) (omega (arith, b.far, cut.recv))
              ∙ ap (λ i. read_u8 (s.conns c).recv_buf i) e1,
        )

    pub moved : (s.conns c).enable_defrag ≡ true → Defragged s c is m n after
    moved on = record {
      valid = rw at cut.valid;
      list = ap (λ g. g.req_list) at ∙ cut.list;
      room = rw (at, on) cut.recv;
      others = λ d ne. update_ne s.conns c d conn' ne;
      links = same_link;
      newer = moved_message;
      rest = λ k o.
          shifted.same k (λ mk. elim (rev_onto-mem is [] k mk) [ inl a ↦ o a | inr b ↦ absurd b ]);
      below = λ i l. ap (λ g. read_u8 g.recv_buf i) at ∙ cut.below i l;
    }
