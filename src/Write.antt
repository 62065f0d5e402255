-- ===== src/Write.antt =====
-- src/kv_store_mgr.cpp: how a key and its value are laid out in a buffer and in the IOVs of the batch
-- write, and the trim of what an older, longer value leaves. Pointers are addresses, and `nvm_iovec_t`
-- of the device library is the record of the fields that the code fills.
pub mod Tiling
pub mod Cover
pub mod Head
use nvmkv.Prelude.{
  ℕ, zero, suc, ◌+◌, ◌-◌, ◌*◌, ◌/◌, ◌%◌, ◌^◌, Bool, true, false, not, ◌&&◌, ◌||◌, Option, none,
  some, List, [], ◌∷◌, ltb, leb, ◌==◌, if◌then◌else◌, length, bit_and,
}
use nvmkv.Error.{
  ErrorCode, internal_failure, invalid_input, out_of_memory, object_not_found, Result, ok, err,
  Status, success, failure,
}
use nvmkv.Util.{round_upto_blk}

-- `nvm_kv_store_capabilities_t`
pub record Capabilities : Type 0 where
  pub nvm_max_num_iovs : ℕ
  pub nvm_atomic_write_multiplicity : ℕ
  pub nvm_max_write_size_per_iov : ℕ
  pub nvm_max_trim_size_per_iov : ℕ
  pub nvm_sector_size : ℕ

pub data IovOpcode : Type 0 where
  nvm_iov_write nvm_iov_trim : IovOpcode

pub record Iov : Type 0 where
  pub iov_base : ℕ
  pub iov_len : ℕ
  pub iov_lba : ℕ
  pub iov_opcode : IovOpcode

-- `nvm_kv_header_t` with its `nvm_kv_key_metadata_t`; `num_key` is always 0, and the reserved field is
-- not written.
pub record KvHeader : Type 0 where
  pub metadata_len : ℕ
  pub key_len : ℕ
  pub value_len : ℕ
  pub value_offset : ℕ
  pub pool_id : ℕ
  pub gen_count : ℕ
  pub expiry : ℕ

-- `sizeof(nvm_kv_header_t)` and `sizeof(nvm_kv_key_metadata_t)`.
abbrev pub kv_header_size : ℕ
kv_header_size = 40

abbrev pub key_metadata_size : ℕ
key_metadata_size = 16

-- `max_write_size_per_iov` and `max_trim_size_per_iov`, in bytes.
abbrev pub max_write_size : Capabilities → ℕ
max_write_size caps = caps.nvm_atomic_write_multiplicity * caps.nvm_max_write_size_per_iov % 2 ^ 64

abbrev pub max_trim_size : Capabilities → ℕ
max_trim_size caps = caps.nvm_atomic_write_multiplicity * caps.nvm_max_trim_size_per_iov % 2 ^ 64

-- The arguments of `kv_process_for_write`: the addresses of the buffer and of the value, and the rest.
pub record WriteArgs : Type 0 where
  pub pool_id : ℕ
  pub key : List ℕ
  pub value : List ℕ
  pub value_address : ℕ
  pub buf : ℕ
  pub user_buffer_usage : Bool
  pub expiry : ℕ
  pub gen_count : ℕ
  pub key_hash_val : ℕ
  pub value_offset : ℕ

-- The loop that splits `remaining_len` bytes into IOVs, for lengths below 2^31: `vector_size` is an `int`.
pub write_iovs : ℕ → Capabilities → ℕ → ℕ → ℕ → ℕ → List Iov
write_iovs zero caps temp_buf key_hash_val count remaining_len = []
write_iovs (suc n) caps temp_buf key_hash_val count remaining_len =
    let max = max_write_size caps in
    let vector_size = if ltb remaining_len max then remaining_len else max in
    let rest = write_iovs n caps temp_buf key_hash_val (count + 1) (remaining_len - vector_size) in
    if remaining_len == 0
    then []
    else record {
      iov_base = (temp_buf + count * max) % 2 ^ 64;
      iov_len = vector_size;
      iov_lba = (key_hash_val + count * (max / caps.nvm_sector_size)) % 2 ^ 64;
      iov_opcode = nvm_iov_write;
    }
      ∷ rest

-- What `kv_process_for_write` leaves: the header and the key at the start of the buffer, the value at
-- an offset of the buffer where it is copied, and the IOVs.
pub record Prepared : Type 0 where
  pub header : KvHeader
  pub key_bytes : List ℕ
  pub copied : Option (ℕ × List ℕ)
  pub iovec : List Iov

-- Expiry times are seconds since the epoch on 32 bits, and 0 means never.
pub abs_expiry : ℕ → ℕ → ℕ
abs_expiry expiry now = if expiry == 0 then 0 else (expiry + now) % 2 ^ 32

pub kv_process_for_write : Capabilities → WriteArgs → ℕ → Prepared
kv_process_for_write caps a now =
    let sector_size = caps.nvm_sector_size in
    let header : KvHeader = record {
      metadata_len = key_metadata_size;
      key_len = length a.key;
      value_len = length a.value;
      value_offset = a.value_offset;
      pool_id = a.pool_id;
      gen_count = a.gen_count;
      expiry = abs_expiry a.expiry now;
    } in
    let rounded = round_upto_blk (length a.value) sector_size % 2 ^ 32 in
    if a.user_buffer_usage
    then record {
      header = header;
      key_bytes = a.key;
      copied = none;
      iovec =
          record {
            iov_base = a.buf;
            iov_len = sector_size;
            iov_lba = a.key_hash_val;
            iov_opcode = nvm_iov_write;
          }
          ∷ write_iovs rounded caps a.value_address ((a.key_hash_val + 1) % 2 ^ 64) 0 rounded;
    }
    else record {
      header = header;
      key_bytes = a.key;
      copied = some (a.value_offset, a.value);
      iovec = write_iovs sector_size caps a.buf a.key_hash_val 0 sector_size;
    }

-- What `kv_alloc_for_write` decides before it takes a buffer of `buf_len` bytes from the pool.
pub record Allocation : Type 0 where
  pub buf_len : ℕ
  pub uses_user_buffer : Bool
  pub offset : ℕ
  pub iov_count : ℕ

pub kv_use_user_buf : ℕ → ℕ → Bool
kv_use_user_buf sum_write_len sector_size = if leb sum_write_len sector_size then false else true

abbrev pub is_unaligned : ℕ → ℕ → Bool
is_unaligned address sector_size = not (bit_and address (sector_size - 1) == 0)

-- The numbers of `kv_alloc_for_write` for a key and a value of the given lengths.
pub plan_write : Capabilities → ℕ → ℕ → ℕ → ℕ → Allocation
plan_write caps key_len value value_len iov_count =
    let sector_size = caps.nvm_sector_size in
    let max = max_write_size caps in
    let whole = (kv_header_size + key_len + value_len) % 2 ^ 32 in
    let user = kv_use_user_buf whole sector_size in
    let unaligned = is_unaligned value sector_size in
    let sum_write_len = if user && unaligned then (sector_size + value_len) % 2 ^ 32 else whole in
    let rounded = round_upto_blk value_len sector_size % 2 ^ 32 in
    let total = round_upto_blk sum_write_len sector_size % 2 ^ 32 in
    if user && not unaligned
    then record {
      buf_len = sector_size;
      uses_user_buffer = true;
      offset = sector_size;
      iov_count = iov_count + 1 + round_upto_blk rounded max / max;
    }
    else record {
      buf_len = total;
      uses_user_buffer = false;
      offset =
          if unaligned && ltb sector_size sum_write_len
          then sector_size
          else kv_header_size + key_len;
      iov_count = iov_count + round_upto_blk total max / max;
    }

-- `get_buf` of the buffer pool returns an address and a length, or NULL.
pub kv_alloc_for_write :
    Capabilities → ℕ → ℕ → ℕ → ℕ → (ℕ → Option (ℕ × ℕ)) → Result (Allocation × ℕ)
kv_alloc_for_write caps key_len value value_len iov_count get_buf =
    let plan = plan_write caps key_len value value_len iov_count in
    if ltb caps.nvm_max_num_iovs plan.iov_count
    then err invalid_input
    else elim (get_buf plan.buf_len) [
      | none ↦ err out_of_memory
      | some (address, size) ↦
          if ltb size plan.buf_len then err out_of_memory else ok (plan, address)
    ]

-- The trim that follows a shorter value, or `none` where there is nothing to trim.
pub kv_process_for_trim : Capabilities → ℕ → ℕ → ℕ → Result (Option Iov)
kv_process_for_trim caps value_len trim_len lba =
    let sector_size = caps.nvm_sector_size in
    let trim_bytes = round_upto_blk trim_len sector_size % 2 ^ 32 in
    let value_bytes = round_upto_blk value_len sector_size % 2 ^ 32 in
    let rest = (trim_bytes + 2 ^ 32 - value_bytes) % 2 ^ 32 in
    if ltb (max_trim_size caps) trim_len
    then err internal_failure
    else if trim_len == 0 || rest == 0
    then ok none
    else ok (
        some (record {
          iov_base = 0;
          iov_len = rest;
          iov_lba = (lba + value_bytes / sector_size) % 2 ^ 64;
          iov_opcode = nvm_iov_trim;
        }))

-- What a test of this module unfolds.
unfoldable pub write_program : Unit {0}
unfolding write_iovs kv_process_for_write kv_use_user_buf plan_write kv_alloc_for_write
    kv_process_for_trim abs_expiry
write_program = tt
