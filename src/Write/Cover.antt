-- ===== src/Write/Cover.antt =====
-- `kv_process_for_write` and `kv_process_for_trim` of src/kv_store_mgr.cpp as a whole.
use native.Mathlib.Nat.{div-le_self, mod-eq_of_lt, mod_self}
use nvmkv.Prelude.{
  ℕ, ◌+◌, ◌-◌, ◌*◌, ◌/◌, ◌%◌, ◌^◌, ◌<◌, ◌≤◌, ◌≡◌, true, false, ◌||◌, none, some, List, ◌∷◌, arith,
  ltb, ◌==◌, if◌then◌else◌, refl, length, ap, ◌∙◌,
}
use nvmkv.Error.{internal_failure, ok, err}
use nvmkv.Util.{round_upto_blk}
use nvmkv.Util.Round.{RoundsUp, round_upto_blk-RoundsUp}
use nvmkv.Write.{
  Capabilities, Iov, nvm_iov_write, nvm_iov_trim, max_write_size, max_trim_size, write_iovs,
  WriteArgs, kv_process_for_write, kv_process_for_trim,
}
use nvmkv.Write.Tiling.{Tiles, write_iovs-Tiles}

-- The first IOV where the value is written from the caller's buffer.
abbrev pub header_iov : Capabilities → WriteArgs → Iov
header_iov caps a = record {
  iov_base = a.buf;
  iov_len = caps.nvm_sector_size;
  iov_lba = a.key_hash_val;
  iov_opcode = nvm_iov_write;
}

module _ (caps : Capabilities) (a : WriteArgs) (now : ℕ) (pos : 0 < max_write_size caps)
    (whole : max_write_size caps % caps.nvm_sector_size ≡ 0) where
  abbrev rounded : ℕ
  rounded = round_upto_blk (length a.value) caps.nvm_sector_size % 2 ^ 32

  user_iovec :
      a.user_buffer_usage ≡ true
      → a.key_hash_val + 1 < 2 ^ 64
      → (kv_process_for_write caps a now).iovec
        ≡ header_iov caps a ∷ write_iovs rounded caps a.value_address (a.key_hash_val + 1) 0 rounded
  unfolding kv_process_for_write
  user_iovec user fits =
      let e : (a.key_hash_val + 1) % 2 ^ 64 ≡ a.key_hash_val + 1 = mod-eq_of_lt fits in
      rw (user, e) refl

  copied_iovec :
      a.user_buffer_usage ≡ false
      → (kv_process_for_write caps a now).iovec
        ≡ write_iovs caps.nvm_sector_size caps a.buf a.key_hash_val 0 caps.nvm_sector_size
  unfolding kv_process_for_write
  copied_iovec own = rw own refl

  from_zero :
      (n base lba : ℕ)
      → n % caps.nvm_sector_size ≡ 0
      → base + n < 2 ^ 64
      → lba + n < 2 ^ 64
      → Tiles caps.nvm_sector_size (max_write_size caps) base lba (write_iovs n caps base lba 0 n) n
  from_zero n base lba sectors base_fits lba_fits =
      let first : base + 0 * max_write_size caps ≡ base = omega arith in
      let second : lba + 0 * (max_write_size caps / caps.nvm_sector_size) ≡ lba = omega arith in
      rw (first, second) at
        (write_iovs-Tiles caps pos whole base lba n 0 n (omega arith) sectors (omega arith)
          (omega arith) (div-le_self (max_write_size caps) caps.nvm_sector_size))

-- For sectors of 2^k bytes, k below 32, a device whose write limit is a positive whole number of
-- sectors, a rounded length below 2^31, and no overflow of an address, a write from the caller's buffer
-- sends the sector of the header to the LBA of the key and covers the value, rounded up to sectors,
-- with IOVs that follow each other without a gap or an overlap in the buffer and on the media, each of
-- them whole sectors, one at least, and no longer than the device allows.
pub kv_process_for_write_user :
    (caps : Capabilities) (a : WriteArgs) (now k : ℕ)
    → 0 < max_write_size caps
    → max_write_size caps % caps.nvm_sector_size ≡ 0
    → a.user_buffer_usage ≡ true
    → caps.nvm_sector_size ≡ 2 ^ k
    → k < 32
    → length a.value + 2 ^ k < 2 ^ 31
    → a.value_address + 2 ^ 32 < 2 ^ 64
    → a.key_hash_val + 2 ^ 32 < 2 ^ 64
    → (vs : List Iov) × ((kv_process_for_write caps a now).iovec ≡ header_iov caps a ∷ vs)
      × RoundsUp (length a.value) (2 ^ k) (round_upto_blk (length a.value) caps.nvm_sector_size)
      × Tiles caps.nvm_sector_size
          (max_write_size caps)
          a.value_address
          (a.key_hash_val + 1)
          vs
          (round_upto_blk (length a.value) caps.nvm_sector_size)
kv_process_for_write_user caps a now k pos whole user sector narrow fits base_fits lba_fits =
    let n = round_upto_blk (length a.value) caps.nvm_sector_size in
    let up : RoundsUp (length a.value) (2 ^ k) n =
      rw sector (round_upto_blk-RoundsUp (length a.value) k (omega arith) (omega arith)) in
    let same : n % 2 ^ 32 ≡ n = mod-eq_of_lt (omega (arith, up.close)) in
    (
      write_iovs (rounded caps a now pos whole) caps a.value_address (a.key_hash_val + 1) 0
          (rounded caps a now pos whole),
      user_iovec caps a now pos whole user (omega arith),
      up,
      rw same (
          from_zero caps a now pos whole n a.value_address (a.key_hash_val + 1)
            (ap (λ (b : ℕ). n % b) sector ∙ up.multiple) (omega (arith, up.close))
            (omega (arith, up.close))),
    )

-- A write from a buffer of the store covers exactly one sector of it, whatever the length of the
-- value copied to it, where no address overflows and the device's write limit is a positive whole
-- number of sectors.
pub kv_process_for_write_copied :
    (caps : Capabilities) (a : WriteArgs) (now : ℕ)
    → 0 < max_write_size caps
    → max_write_size caps % caps.nvm_sector_size ≡ 0
    → a.user_buffer_usage ≡ false
    → a.buf + caps.nvm_sector_size < 2 ^ 64
    → a.key_hash_val + caps.nvm_sector_size < 2 ^ 64
    → Tiles caps.nvm_sector_size
        (max_write_size caps)
        a.buf
        a.key_hash_val
        (kv_process_for_write caps a now).iovec
        caps.nvm_sector_size
kv_process_for_write_copied caps a now pos whole own base_fits lba_fits =
    rw (copied_iovec caps a now pos whole own) (
      from_zero caps a now pos whole caps.nvm_sector_size a.buf a.key_hash_val
        (mod_self caps.nvm_sector_size) base_fits lba_fits)

-- Where the rounded new length is at most the rounded old one and nothing overflows, the trim takes
-- the bytes between the two rounded lengths at that distance from the LBA; there is none where they
-- agree or nothing is to be trimmed, and a trim beyond the limit is an error.
pub kv_process_for_trim_rest :
    (caps : Capabilities) (value_len trim_len lba : ℕ)
    → let value_bytes = round_upto_blk value_len caps.nvm_sector_size in
      let trim_bytes = round_upto_blk trim_len caps.nvm_sector_size in
      value_bytes ≤ trim_bytes
      → trim_bytes < 2 ^ 32
      → lba + value_bytes < 2 ^ 64
      → kv_process_for_trim caps value_len trim_len lba ≡ (
          if ltb (max_trim_size caps) trim_len
          then err internal_failure
          else if trim_len == 0 || trim_bytes == value_bytes
          then ok none
          else ok (
              some (record {
                iov_base = 0;
                iov_len = trim_bytes - value_bytes;
                iov_lba = lba + value_bytes / caps.nvm_sector_size;
                iov_opcode = nvm_iov_trim;
              })))
unfolding kv_process_for_trim
kv_process_for_trim_rest caps value_len trim_len lba le fits lba_fits =
    let vb = round_upto_blk value_len caps.nvm_sector_size in
    let tb = round_upto_blk trim_len caps.nvm_sector_size in
    let v : vb % 2 ^ 32 ≡ vb = mod-eq_of_lt (omega arith) in
    let t : tb % 2 ^ 32 ≡ tb = mod-eq_of_lt fits in
    let rest : (tb + 2 ^ 32 - vb) % 2 ^ 32 ≡ tb - vb = omega arith in
    let at : (lba + vb / caps.nvm_sector_size) % 2 ^ 64 ≡ lba + vb / caps.nvm_sector_size =
      mod-eq_of_lt (omega (arith, div-le_self vb caps.nvm_sector_size)) in
    let agree : (tb - vb == 0) ≡ (tb == vb) = ground arith in rw (v, t, rest, at, agree) refl
