-- ===== src/Storage.antt =====
-- src/dw_node.c, safe_write(), safe_read(), store() and load(): what a storage worker does with its
-- device.
--
-- What write(), read() and lseek() answer is an argument; what is written is the bytes that the
-- kernel has taken, and what is read those that it has given. The position in the file is that of
-- the kernel. Sizes are 64 bits wide and offsets 32 bits, as in the source.
pub mod Write
pub mod Read
pub mod Direct
pub mod Worker
mod Tests
use distwalk_iouring.Prelude.{
  ℕ, zero, suc, ◌+◌, ◌-◌, ◌*◌, ◌/◌, ◌%◌, ◌^◌, min, Bool, true, false, ◌&&◌, not, Option, none, some,
  List, [], ◌∷◌, ◌++◌, length, take, drop, ltb, ◌==◌, if◌then◌else◌,
}
use distwalk_iouring.Prelude.Int.{ℤ, pos, negsuc, eq_ℤ}
use distwalk_iouring.Prelude.Run.{Run, ok, fault, out_of_fuel, ◌>>=◌, ◌>>◌, check}
use distwalk_iouring.Memory.{Bytes}
use distwalk_iouring.Connection.{buf_size}

-- The answer of write(): the bytes it took, or an error.
pub data WriteAnswer : Type 0 where
  wrote : ℕ → WriteAnswer
  write_error : WriteAnswer

-- The answer of read(): bytes, of which none say the end of the file, or an error.
pub data ReadAnswer : Type 0 where
  got : Bytes → ReadAnswer
  read_error : ReadAnswer

-- safe_write() of the bytes of a buffer: the result, what was taken, and the answers to come.
unfoldable pub safe_write : List WriteAnswer → Bytes → Run (ℤ × (Bytes × List WriteAnswer))
safe_write [] [] = ok (pos 0, ([], []))
safe_write [] (x ∷ b) = out_of_fuel
safe_write (a ∷ rs) [] = ok (pos 0, ([], a ∷ rs))
safe_write (write_error ∷ rs) (x ∷ b) = ok (negsuc 0, ([], rs))
safe_write (wrote n ∷ rs) (x ∷ b) =
    safe_write rs (drop n (x ∷ b)) >>= λ (v, (w, r)). ok (v, (take n (x ∷ b) ++ w, r))

-- safe_read() of `len` bytes, when `last` were wanted at the last end of the file: the result, the
-- bytes, and the answers to come.
unfoldable pub safe_read : List ReadAnswer → ℕ → ℕ → Run (ℤ × (Bytes × List ReadAnswer))
safe_read rs zero last = ok (pos 0, ([], rs))
safe_read [] (suc n) last = out_of_fuel
safe_read (read_error ∷ rs) (suc n) last = ok (negsuc 0, ([], rs))
safe_read (got [] ∷ rs) (suc n) last =
    let again = safe_read rs (suc n) (suc n) in
    if ltb 0 last && last == suc n then ok (pos 0, ([], rs)) else again
safe_read (got (x ∷ d) ∷ rs) (suc n) last =
    safe_read rs (suc n - length (x ∷ d)) last >>= λ (v, (w, r)). ok (v, (x ∷ d ++ w, r))

-- The fields of storage_info_t that change or steer the operations.
pub record StorageInfo : Type 0 where
  pub use_odirect : Bool
  pub max_storage_size : ℕ
  pub storage_offset : ℕ

-- store_opts_t and load_opts_t; the number of bytes is store_nbytes or load_nbytes.
pub record StorageOpts : Type 0 where
  pub offset : ℕ
  pub nbytes : ℕ
  pub wait_sync : Bool

-- (uint32_t) -1, for no offset
abbrev pub no_offset : ℕ
no_offset = 4294967295

-- a / b * b of unsigned longs, for a = n + b - 1
unfoldable pub round_up : ℕ → ℕ → Run ℕ
round_up n zero = fault
round_up n (suc b) = ok ((n + b) % 2 ^ 64 / suc b * suc b)

-- The bytes to store, and the offset, after rounding for O_DIRECT.
unfoldable pub rounded : StorageInfo → ℕ → StorageOpts → Run (ℕ × ℕ)
rounded s blk_size o =
    let offset = o.offset % 2 ^ 32 in
    let direct =
      round_up o.nbytes blk_size >>= λ t. round_up offset blk_size >>= λ p. ok (t, p % 2 ^ 32) in
    if s.use_odirect then direct else ok (o.nbytes, offset)

-- The loop of store(), with `left` bytes to go.
unfoldable pub store_loop : ℕ → List WriteAnswer → Bytes → ℕ → Run Bytes
store_loop zero rs buf left = out_of_fuel
store_loop (suc fuel) rs buf zero = ok []
store_loop (suc fuel) rs buf (suc n) =
    let bytes = min (suc n) buf_size in
    safe_write rs (take bytes buf) >>= λ (v, (w, r)).
    check (not (eq_ℤ v (negsuc 0))) >> store_loop fuel r buf (suc n - bytes) >>= λ rest.
    ok (w ++ rest)

-- What store() or load() has done: the state, where it has called lseek() to, the bytes, and whether
-- it has called fsync().
pub record Done : Type 0 where
  pub info : StorageInfo
  pub seek : Option ℕ
  pub bytes : Bytes
  pub synced : Bool

-- Where store() of `total` bytes goes: the place, and the call of lseek() if there is one.
unfoldable pub place_for : StorageInfo → ℕ → ℕ → ℕ × Option ℕ
place_for s total offset =
    if not (offset == no_offset)
    then (offset, some offset)
    else if ltb s.max_storage_size ((s.storage_offset + total) % 2 ^ 64)
    then (0, some 0)
    else (s.storage_offset, none)

-- store(), for a worker that syncs when asked (`periodic` if it has a timer for that); lseek() to an
-- offset that was given succeeds or not.
unfoldable pub store :
    StorageInfo → ℕ → StorageOpts → Bool → Bool → List WriteAnswer → Bytes → Run Done
store s blk_size o periodic lseek_ok rs buf = do
  (total, offset) ← rounded s blk_size o
  let (place, seek) = place_for s total offset
  let given = not (offset == no_offset)
  let moved : Run Done = store_loop (suc total) rs buf total >>= λ w. ok (record {
    info = record s { storage_offset = (place + total) % 2 ^ 64 };
    seek = seek;
    bytes = w;
    synced = o.wait_sync && not periodic;
  })
  let failed : Run Done = ok (record { info = s; seek = seek; bytes = []; synced = false })
  if given && not lseek_ok then failed else moved

-- The loop of load(), with `left` bytes to go.
unfoldable pub load_loop : ℕ → List ReadAnswer → ℕ → Run Bytes
load_loop zero rs left = out_of_fuel
load_loop (suc fuel) rs zero = ok []
load_loop (suc fuel) rs (suc n) =
    let bytes = min (suc n) buf_size in
    safe_read rs bytes 0 >>= λ (v, (w, r)).
    check (not (eq_ℤ v (negsuc 0))) >> load_loop fuel r (suc n - bytes) >>= λ rest. ok (w ++ rest)

unfoldable pub load : StorageInfo → StorageOpts → Bool → List ReadAnswer → Run Done
load s o lseek_ok rs =
    let offset = o.offset % 2 ^ 32 in
    let given = not (offset == no_offset) in
    let seek = if given then some offset else none in
    let start = if given then offset else s.storage_offset in
    let moved : Run Done = load_loop (suc o.nbytes) rs o.nbytes >>= λ w. ok (record {
      info = record s { storage_offset = (start + o.nbytes) % 2 ^ 64 };
      seek = seek;
      bytes = w;
      synced = false;
    }) in
    if given && not lseek_ok
    then ok (record { info = s; seek = seek; bytes = []; synced = false })
    else moved
