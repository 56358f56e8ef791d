-- ===== src/Server/Stuck.antt =====
-- src/dw_node.c, handle_timeout(), when the request of the first timeout is gone.
use distwalk_iouring.Prelude.{
  ℕ, ◌%◌, ◌<◌, ◌≡◌, refl, sym, ap, ◌∙◌, true, false, none, List, arith, ltb, ◌==◌,
}
use distwalk_iouring.Prelude.Int.{pos, negsuc, neg_part, eq_ℤ}
use distwalk_iouring.Prelude.Run.{ok, Returns, Returns-map}
use distwalk_iouring.PQueue.{PQueue}
use distwalk_iouring.PQueue.Insert.{IsValid}
use distwalk_iouring.PQueue.Remove.{top-eq}
use distwalk_iouring.Request.{Requests, slot, req_get_by_id}
use distwalk_iouring.Request.Table
use distwalk_iouring.Conns.{Conns, conn_reset}
use distwalk_iouring.Conns.Chain.{IsList}
use distwalk_iouring.Conns.Members.{◌∈◌}
use distwalk_iouring.Conns.Reset.{conn_reset-Freed}
use distwalk_iouring.Server.{Server, Host, req_of}
use distwalk_iouring.Server.Timeout.{top_value, disarm, handle_timeout}

-- The first timeout in the heap is that of the request with the id `i`, a C int.
pub record FirstTimeout (q : PQueue) (i : ℕ) : Type 0 where
  pub valid : IsValid q
  pub filled : 0 < q.size
  pub value : (q.nodes (q.heap 0)).payload ≡ i
  pub small : i < 2147483648

pub top_value-FirstTimeout : {q : PQueue} {i : ℕ} → FirstTimeout q i → top_value q ≡ ok (pos i)
unfolding top_value
top_value-FirstTimeout {q} {i} f =
    let within : i % 4294967296 ≡ i = omega (arith, f.small) in
    let int : ltb i 2147483648 ≡ true = let l = f.small in ground arith in
    rw (top-eq f.valid.linked f.filled, bounded_top, f.value, within, int) refl
  where
    bounded_top : ltb (q.heap 0) q.capacity ≡ true
    bounded_top = let l = f.valid.linked.inside 0 f.filled in ground arith

-- The worker with another table of connections and requests.
abbrev pub with_table : Server → Conns → Server
with_table s t = record s { table = t }

-- A request that is not in the slot of its id is not found.
req_get_by_id-gone :
    (t : Requests) (i k : ℕ)
    → slot (pos i) ≡ k
    → (t.reqs k).req_id ≡ negsuc 0
    → req_get_by_id t (pos i) ≡ none
unfolding req_get_by_id
req_get_by_id-gone t i k e g =
    let differs : eq_ℤ (negsuc 0) (pos i) ≡ false = ground arith in rw (e, g, differs) refl

stuck :
    (h : Host) (s : Server) (i k : ℕ)
    → FirstTimeout s.timeout_queue i
    → slot (pos i) ≡ k
    → (req_of s k).req_id ≡ negsuc 0
    → handle_timeout h s ≡ ok (disarm s)
unfolding handle_timeout
stuck h s i k f e g =
    let filled : (s.timeout_queue.size == 0) ≡ false = let l = f.filled in ground arith in
    rw (filled, top_value-FirstTimeout f, req_get_by_id-gone s.table.requests i k e g) refl

-- When the first timeout is that of a request of a connection, and conn_reset() of the connection
-- takes its requests out of the table: handle_timeout() then disarms the timer and leaves the heap as
-- it is, the first timeout included, whatever timeouts are behind it; and so it does at each later
-- call.
pub handle_timeout-stuck :
    (h : Host) (s : Server) (c : ℕ) (is : List ℕ) (i k : ℕ)
    → Table.IsValid s.table.requests
    → IsList s.table c is
    → k ∈ is
    → (req_of s k).req_id ≡ pos i
    → FirstTimeout s.timeout_queue i
    → Returns
        (λ t.
          (handle_timeout h (with_table s t) ≡ ok (disarm (with_table s t)))
          × (handle_timeout h (disarm (with_table s t)) ≡ ok (disarm (with_table s t))))
        (conn_reset s.table c)
unfolding disarm
handle_timeout-stuck h s c is i k v l m e f =
    let at : slot (pos i) ≡ k =
      ap slot (sym e) ∙ v k (λ gone. omega (arith, ap neg_part (sym e ∙ gone))) in
    Returns-map (conn_reset-Freed s.table c is v l) λ t (_, freed, _). (
      stuck h (with_table s t) i k f at (freed.freed k m),
      stuck h (disarm (with_table s t)) i k f at (freed.freed k m),
    )
