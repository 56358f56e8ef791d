-- ===== src/Server/Finish.antt =====
-- src/dw_node.c, handle_forward_reply(): the last reply that a request waits for, and any other.
use distwalk_iouring.Prelude.{
  ℕ, suc, ◌+◌, ◌≤◌, ◌<◌, ◌≡◌, refl, ap, ◌∙◌, Bool, true, false, ◌||◌, none, arith, length, ◌==◌,
  ltb,
}
use distwalk_iouring.Prelude.Int.{ℤ, pos, negsuc, ◌-ℤ◌, ltb_ℤ}
use distwalk_iouring.Prelude.Run.{
  ok, ◌>>=◌, Returns, returns, Returns-bind, Returns-keep, Returns-map,
}
use distwalk_iouring.Prelude.Tables.{update_self}
use distwalk_iouring.Memory.{Bytes}
use distwalk_iouring.Memory.Access.{Wrote32, write_u32-Returns}
use distwalk_iouring.Message.Bounds.{cmd_bounded_skip-Returns}
use distwalk_iouring.Request.{Request}
use distwalk_iouring.Server.{Server, Host, conn_of, req_of, set_conn, set_req}
use distwalk_iouring.Server.Reply.{status_at}
use distwalk_iouring.Server.Forward.{bit_of, with_bit, mask_bit, mask_with}
use distwalk_iouring.Server.Acks.{set_status_at, finish_forward, acknowledge}
use distwalk_iouring.Server.Masks.{bit_of-with_bit}
use distwalk_iouring.Server.Waiting.{
  Waits, Noted, Finished, noted, noted-Noted, drop_timeout-Returns, update_keeps,
  req_get_by_id-same,
}

pub set_status_at-Returns :
    (s : Server) (c m status : ℕ)
    → m + 12 ≤ length (conn_of s c).recv_buf
    → Returns
        (λ s'.
          (b : Bytes) × Wrote32 (conn_of s c).recv_buf (status_at m) status b
          × (s' ≡ set_conn s c (record (conn_of s c) { recv_buf = b })))
        (set_status_at s c m status)
unfolding set_status_at
set_status_at-Returns s c m status h =
    Returns-bind (write_u32-Returns (conn_of s c).recv_buf (status_at m) status (omega arith))
      λ b w. returns (b, w, refl)

-- The request as finish_forward() leaves it, but for its timeout.
abbrev past : Request → Request
past q = record q {
  fwd_replies_mask = 0;
  fwd_replies_left = negsuc 0;
  fwd_timeout = pos 0;
  fwd_retries = pos 0;
}

abbrev without_timeout : Request → Request
without_timeout q = record q { timeout_node = none }

pub finish_forward-Finished :
    (h : Host) (s : Server) {req_id : ℤ} {r c m e cmd : ℕ} (status : ℕ)
    → Waits s req_id r c m e cmd
    → Returns (Finished s r c m e cmd status) (finish_forward h s req_id r m status)
unfolding finish_forward
finish_forward-Finished h s {req_id} {r} {c} {m} {e} {cmd} status w =
    rw (w.at, w.end)
      (Returns-bind (set_status_at-Returns s c m status (omega (arith, w.fits, w.header)))
        λ s1 (b, (outside, stored), eq).
          let conn = record (conn_of s c) { recv_buf = b } in
          let at = update_self s.table.conns c conn in
          rw (eq, w.command, at)
            (Returns-bind
              (Returns-keep
                (cmd_bounded_skip-Returns b e (omega (arith, w.fits, outside.size)) cmd 1))
              λ next (skipped, _).
                let q = past (record (req_of s r) { curr_cmd = next }) in
                let own = update_self s.table.requests.reqs r q in
                Returns-map
                  (drop_timeout-Returns h (set_req (set_conn s c conn) r q) req_id r
                    (req_get_by_id-same s.table.requests _ req_id
                        (update_keeps (λ x. x.req_id) s.table.requests.reqs r q refl)
                      ∙ w.found)
                    (rw own w.timeout))
                  λ s' (request, conns, active).
                    let now = request ∙ ap without_timeout own in
                    let buf = ap (λ f. (f c).recv_buf) conns ∙ ap (λ x. x.recv_buf) at in
                    record {
                      left = ap (λ x. x.fwd_replies_left) now;
                      mask = ap (λ x. x.fwd_replies_mask) now;
                      retries = ap (λ x. x.fwd_retries) now;
                      timeout = ap (λ x. x.timeout_node) now;
                      message = ap (λ x. x.message_ptr) now ∙ w.message;
                      command = rw (buf, now) skipped;
                      status = rw buf stored;
                      active = active;
                    }))

-- One more branch that has replied.
abbrev pub also : ℕ → (ℕ → Bool) → ℕ → Bool
also id seen j = j == id || seen j

-- acknowledge() of the branch `id` for a request that waits for `k` + 1 more.
module _ (h : Host) (s : Server) (req_id : ℤ) (r m status id k : ℕ) (seen : ℕ → Bool)
    (small : ltb id 32 ≡ true) (left : (req_of s r).fwd_replies_left ≡ pos (suc k))
    (marks : (j : ℕ) → bit_of (req_of s r).fwd_replies_mask j ≡ seen j) where
  abbrev pub with_id : Server
  with_id = noted s r (with_bit (req_of s r).fwd_replies_mask id) k

  less : pos (suc k) -ℤ pos 1 ≡ pos k
  unfolding ◌-ℤ◌
  less = ground arith

  pub with_id-Noted : Noted s r k (also id seen) with_id
  with_id-Noted =
      noted-Noted s r _ k (also id seen)
        λ j. bit_of-with_bit (req_of s r).fwd_replies_mask id j ∙ ap (λ b. j == id || b) (marks j)

  pub acknowledge-again : seen id ≡ true → acknowledge h s req_id r m status id ≡ ok (false, s)
  unfolding acknowledge mask_bit mask_with
  acknowledge-again e = rw (small, marks id, e) refl

  pub acknowledge-more :
      seen id ≡ false → 0 < k → acknowledge h s req_id r m status id ≡ ok (false, with_id)
  unfolding acknowledge mask_bit mask_with
  acknowledge-more e l =
      let still : ltb_ℤ (pos 0) (pos k) ≡ true = ground arith in
      rw (small, marks id, e, left, less, still) refl

  pub acknowledge-last :
      seen id ≡ false
      → k ≡ 0
      → acknowledge h s req_id r m status id
        ≡ (finish_forward h with_id req_id r m status >>= λ s'. ok (true, s'))
  unfolding acknowledge mask_bit mask_with
  acknowledge-last e z =
      let over : ltb_ℤ (pos 0) (pos k) ≡ false = ground arith in
      rw (small, marks id, e, left, less, over) refl
