-- ===== src/Storage/Write.antt =====
-- safe_write() and store(): every byte is written.
use distwalk_iouring.Prelude.{
  ℕ, zero, suc, ◌+◌, ◌-◌, ◌^◌, ◌%◌, ◌≤◌, ◌<◌, ◌≡◌, ◌≢◌, refl, ap, ◌∙◌, ◌⊎◌, inl, inr, min, Bool,
  true, false, ◌&&◌, not, none, some, List, [], ◌∷◌, ◌++◌, arith, length, take, drop,
  take-append-drop, length-take, length-drop, length-append, ltb, ◌==◌, Bool-cases, ltb→lt,
}
use distwalk_iouring.Prelude.Int.{ℤ, pos, negsuc, eq_ℤ}
use distwalk_iouring.Prelude.Run.{ok, Returns, returns, Returns-bind, Returns-if}
use distwalk_iouring.Memory.{Bytes}
use distwalk_iouring.Connection.{buf_size}
use distwalk_iouring.Storage.{
  WriteAnswer, wrote, write_error, safe_write, store_loop, StorageInfo, StorageOpts, no_offset,
  rounded, place_for, Done, store,
}

-- Each answer is one byte or more.
abbrev pub IsProgress : List WriteAnswer → Type 0
IsProgress [] = Unit {0}
IsProgress (wrote n ∷ rs) = (1 ≤ n) × IsProgress rs
IsProgress (write_error ∷ rs) = ⊥

-- What safe_write() of `b` leaves: all is written, and no more answers were used than bytes.
abbrev pub Written : List WriteAnswer → Bytes → ℤ × (Bytes × List WriteAnswer) → Type 0
Written rs b (v, (w, r)) = (v ≡ pos 0) × (w ≡ b) × IsProgress r × (length rs ≤ length r + length b)

safe_write-Written :
    (rs : List WriteAnswer) (b : Bytes)
    → IsProgress rs
    → length b ≤ length rs
    → Returns (Written rs b) (safe_write rs b)
unfolding safe_write
safe_write-Written [] [] p h = returns (refl, refl, tt, omega arith)
safe_write-Written [] (x ∷ b) p h = absurd (omega arith)
safe_write-Written (a ∷ rs) [] p h = returns (refl, refl, p, omega arith)
safe_write-Written (write_error ∷ rs) (x ∷ b) p h = absurd p
safe_write-Written (wrote n ∷ rs) (x ∷ b) (pn, p) h =
    let size = length-drop n (x ∷ b) in
    Returns-bind (safe_write-Written rs (drop n (x ∷ b)) p (omega arith))
      λ (v, (w, r)) (e, ew, pr, l).
        returns (e, ap (λ z. take n (x ∷ b) ++ z) ew ∙ take-append-drop n (x ∷ b), pr, omega arith)

-- The result 0 passes the test for -1.
not_minus : (v : ℤ) → v ≡ pos 0 → not (eq_ℤ v (negsuc 0)) ≡ true
not_minus v e = rw e (ground arith)

store_loop-length :
    (fuel : ℕ) (rs : List WriteAnswer) (buf : Bytes) (left : ℕ)
    → left < fuel
    → length buf ≡ buf_size
    → IsProgress rs
    → left ≤ length rs
    → Returns (λ w. length w ≡ left) (store_loop fuel rs buf left)
unfolding store_loop
store_loop-length zero rs buf left h hb p k = absurd (omega arith)
store_loop-length (suc fuel) rs buf zero h hb p k = returns refl
store_loop-length (suc fuel) rs buf (suc n) h hb p k =
    let bytes = min (suc n) buf_size in
    let size : length (take bytes buf) ≡ bytes = omega (arith, length-take bytes buf) in
    Returns-bind (safe_write-Written rs (take bytes buf) p (omega arith))
      λ (v, (w, r)) (e, ew, pr, l).
        let wide : length w ≡ bytes = ap length ew ∙ size in
        rw (not_minus v e) (
          Returns-bind
            (store_loop-length fuel r buf (suc n - bytes) (omega arith) hb pr (omega arith))
            λ rest el. returns (length-append w rest ∙ omega arith))

-- Where the bytes of a store() go: to the offset that was given, behind the last ones, or, when they
-- do not fit there, to the start.
abbrev pub Placed : StorageInfo → ℕ → ℕ → Done → Type 0
Placed s total offset d =
    ((offset ≢ no_offset) × (d.seek ≡ some offset) × (d.info.storage_offset ≡ offset + total))
    ⊎ ((offset ≡ no_offset)
        × (s.storage_offset + total ≤ s.max_storage_size)
        × (d.seek ≡ none)
        × (d.info.storage_offset ≡ s.storage_offset + total))
    ⊎ ((offset ≡ no_offset)
        × (s.max_storage_size < s.storage_offset + total)
        × (d.seek ≡ some 0)
        × (d.info.storage_offset ≡ total))

-- What store() does: nothing but a failed lseek(), or all bytes are written, to the place given.
abbrev Stored : (Done → Type 0) → StorageInfo → ℕ → ℕ → Bool → Bool → Done → Type 0
Stored P s total offset sync lseek_ok d =
    ((offset ≢ no_offset) × (lseek_ok ≡ false) × (d.info ≡ s) × (d.bytes ≡ []))
    ⊎ ((length d.bytes ≡ total) × P d × (d.synced ≡ sync))

abbrev pub StoreOutcome : StorageInfo → ℕ → ℕ → Bool → Bool → Done → Type 0
StoreOutcome s total offset = Stored (Placed s total offset) s total offset

-- Placed, with the sums of 64 bits that the code computes.
abbrev pub WrapPlaced : StorageInfo → ℕ → ℕ → Done → Type 0
WrapPlaced s total offset d =
    ((offset ≢ no_offset)
      × (d.seek ≡ some offset)
      × (d.info.storage_offset ≡ (offset + total) % 2 ^ 64))
    ⊎ ((offset ≡ no_offset)
        × ((s.storage_offset + total) % 2 ^ 64 ≤ s.max_storage_size)
        × (d.seek ≡ none)
        × (d.info.storage_offset ≡ (s.storage_offset + total) % 2 ^ 64))
    ⊎ ((offset ≡ no_offset)
        × (s.max_storage_size < (s.storage_offset + total) % 2 ^ 64)
        × (d.seek ≡ some 0)
        × (d.info.storage_offset ≡ total % 2 ^ 64))

abbrev pub WrapOutcome : StorageInfo → ℕ → ℕ → Bool → Bool → Done → Type 0
WrapOutcome s total offset = Stored (WrapPlaced s total offset) s total offset

place_for-cases :
    (s : StorageInfo) (total offset : ℕ) (w : Bytes) (sync : Bool)
    → WrapPlaced s total offset (record {
      info = record s { storage_offset = ((place_for s total offset).0 + total) % 2 ^ 64 };
      seek = (place_for s total offset).1;
      bytes = w;
      synced = sync;
    })
unfolding place_for
place_for-cases s total offset w sync = elim (Bool-cases (offset == no_offset)) [
  | inr n ↦ let ne : offset ≢ no_offset = ground arith in rw n (inl (ne, refl, refl))
  | inl y ↦
      let e : offset ≡ no_offset = ground arith in
      let after = (s.storage_offset + total) % 2 ^ 64 in
      elim (Bool-cases (ltb s.max_storage_size after)) [
        | inl full ↦
            let l : s.max_storage_size < after = ltb→lt _ _ full in
            rw (y, full) (inr (inr (e, l, refl, omega arith)))
        | inr room ↦
            let l : after ≤ s.max_storage_size = not_ltb _ _ room in
            rw (y, room) (inr (inl (e, l, refl, refl)))
      ]
]
  where
    not_ltb : (m n : ℕ) → ltb m n ≡ false → n ≤ m
    not_ltb m n h = ground arith

refused :
    (offset : ℕ) (b : Bool)
    → (not (offset == no_offset) && not b) ≡ true
    → (offset ≢ no_offset) × (b ≡ false)
refused offset true e = absurd (clash (not (offset == no_offset)) e)
  where
    clash : (a : Bool) → (a && false) ≡ true → ⊥
    clash true h = cc
    clash false h = cc
refused offset false e = (ground arith, refl)

pub store_at :
    (s : StorageInfo) (blk_size : ℕ) (o : StorageOpts) (periodic lseek_ok : Bool)
    (rs : List WriteAnswer) (buf : Bytes) (total offset : ℕ)
    → rounded s blk_size o ≡ ok (total, offset)
    → length buf ≡ buf_size
    → IsProgress rs
    → total ≤ length rs
    → Returns
        (WrapOutcome s total offset (o.wait_sync && not periodic) lseek_ok)
        (store s blk_size o periodic lseek_ok rs buf)
unfolding store
store_at s blk_size o periodic lseek_ok rs buf total offset e hb p h = rw e (
    Returns-if (not (offset == no_offset) && not lseek_ok)
      (λ y. let (a, b) = refused offset lseek_ok y in returns (inl (a, b, refl, refl)))
      (λ n. Returns-bind (store_loop-length (suc total) rs buf total (omega arith) hb p h) λ w ew.
        returns (inr (ew, place_for-cases s total offset w (o.wait_sync && not periodic), refl))))
