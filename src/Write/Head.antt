-- ===== src/Write/Head.antt =====
-- The first IOV of `kv_process_for_write` of src/kv_store_mgr.cpp.
use nvmkv.Prelude.{
  ℕ, zero, suc, ◌+◌, ◌*◌, ◌/◌, ◌%◌, ◌^◌, ◌<◌, ◌≡◌, false, List, ◌∷◌, some, length, arith, ltb, ◌==◌,
  Bool-cases, inl, inr, refl,
}
use nvmkv.Write.{
  Capabilities, Iov, nvm_iov_write, WriteArgs, max_write_size, write_iovs, kv_process_for_write,
  plan_write, kv_alloc_for_write,
}
use nvmkv.Error.{ok}

-- A list whose first IOV writes to an LBA.
abbrev pub StartsAt : ℕ → List Iov → Type 0
StartsAt lba iovs =
    (iov : Iov) × (rest : List Iov) × (iovs ≡ iov ∷ rest)
    × (iov.iov_opcode ≡ nvm_iov_write)
    × (iov.iov_lba ≡ lba)

write_iovs-StartsAt :
    (n : ℕ) (caps : Capabilities) (base lba : ℕ)
    → 0 < n
    → lba < 2 ^ 64
    → StartsAt lba (write_iovs n caps base lba 0 n)
unfolding write_iovs
write_iovs-StartsAt zero caps base lba pos fits = absurd (omega arith)
write_iovs-StartsAt (suc n) caps base lba pos fits =
    let some_left : (suc n == 0) ≡ false = ground arith in
    let at : (lba + 0 * (max_write_size caps / caps.nvm_sector_size)) % 2 ^ 64 ≡ lba =
      omega arith in
    rw some_left (_, _, refl, refl, at)

-- The first IOV writes to the LBA of the key.
pub kv_process_for_write-StartsAt :
    (caps : Capabilities) (a : WriteArgs) (now : ℕ)
    → 0 < caps.nvm_sector_size
    → a.key_hash_val < 2 ^ 64
    → StartsAt a.key_hash_val (kv_process_for_write caps a now).iovec
unfolding kv_process_for_write
kv_process_for_write-StartsAt caps a now pos fits = elim (Bool-cases a.user_buffer_usage) [
  | inl user ↦ rw user (_, _, refl, refl, refl)
  | inr own ↦ rw own (write_iovs-StartsAt caps.nvm_sector_size caps a.buf a.key_hash_val pos fits)
]

-- The allocation where there are not too many IOVs and the buffer is large enough.
pub kv_alloc_for_write-ok :
    (caps : Capabilities) (key_len value value_len address size : ℕ)
    → let plan = plan_write caps key_len value value_len 0 in
      ltb caps.nvm_max_num_iovs plan.iov_count ≡ false
      → ltb size plan.buf_len ≡ false
      → kv_alloc_for_write caps key_len value value_len 0 (λ n. some (address, size))
        ≡ ok (plan, address)
unfolding kv_alloc_for_write
kv_alloc_for_write-ok caps key_len value value_len address size few large = rw (few, large) refl

-- What the header and the key say of the arguments.
pub kv_process_for_write_header :
    (caps : Capabilities) (a : WriteArgs) (now : ℕ)
    → let x = kv_process_for_write caps a now in
      (x.key_bytes ≡ a.key)
      × (x.header.key_len ≡ length a.key)
      × (x.header.value_len ≡ length a.value)
      × (x.header.pool_id ≡ a.pool_id)
      × (x.header.gen_count ≡ a.gen_count)
unfolding kv_process_for_write
kv_process_for_write_header caps a now = elim (Bool-cases a.user_buffer_usage) [
  | inl user ↦ rw user (refl, refl, refl, refl, refl)
  | inr own ↦ rw own (refl, refl, refl, refl, refl)
]
