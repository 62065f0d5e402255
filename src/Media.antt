-- ===== src/Media.antt =====
-- What src/kv_store_mgr.cpp does at the LBAs of a key: the interface of the media and of the other
-- threads, the configuration of a store, and the probe sequence. `World` is the state of both; every
-- call may find it changed.
pub mod Quiet
pub mod Expiry
use nvmkv.Prelude.{
  ℕ, zero, suc, ◌+◌, ◌-◌, ◌/◌, ◌%◌, ◌^◌, Bool, true, false, ◌&&◌, List, [], ◌∷◌, bit_or, bit_and,
  ltb, ◌==◌, if◌then◌else◌, length, not, Option,
}
use nvmkv.Error.{ErrorCode, object_not_found, Status, success, failure, Result, ok, err}
use nvmkv.Hash.{HashFunc, key_hash, resolve_coll}
use nvmkv.Write.{KvHeader, Iov, Prepared}

-- An `nvm_iovec_t` of a read.
pub record ReadIov : Type 0 where
  pub iov_base : ℕ
  pub iov_len : ℕ
  pub iov_lba : ℕ

-- What `nvm_wrapper::nvm_readv` of src/kv_wrappers.cpp asks of its IOVs before it reads: not more of
-- them than the device takes, and each buffer on a boundary of `sector_size` bytes.
abbrev pub is_aligned : ℕ → ℕ → Bool
is_aligned sector_size base = bit_and base ((sector_size + 2 ^ 64 - 1) % 2 ^ 64) == 0

abbrev pub all_aligned : ℕ → List ReadIov → Bool
all_aligned sector_size [] = true
all_aligned sector_size (iov ∷ iovs) =
    is_aligned sector_size iov.iov_base && all_aligned sector_size iovs

abbrev pub nvm_readable : ℕ → ℕ → List ReadIov → Bool
nvm_readable sector_size max_iovs iovs =
    not (ltb max_iovs (length iovs)) && all_aligned sector_size iovs

-- What `nvm_readv` returns and what the caller's buffers hold afterwards: the header and the bytes
-- behind it in the first buffer, and the bytes of the value's buffer.
pub record Reading : Type 0 where
  pub read_len : ℕ
  pub header : KvHeader
  pub body : List ℕ
  pub value : List ℕ

-- The calls by which an operation meets the media and the other threads. `kv_range_exists` returns the
-- length of the range that it found, `acquire` is `insert_lba_to_safe_list`, which always succeeds and
-- says whether it waited for another thread, and `release` is `delete_lba_from_safe_list`. The first
-- arguments of `nvm_writev` are what the buffers hold. `get_buf` of the buffer pool returns an address
-- and a length, or NULL.
pub record Media : Type 1 where
  pub World : Type 0
  pub kv_range_exists : ℕ → ℕ → World → Result ℕ × World
  pub nvm_readv : List ReadIov → World → Result Reading × World
  pub nvm_writev : Prepared → List ℕ → List Iov → World → Status × World
  pub acquire : ℕ → World → Bool × World
  pub release : ℕ → World → World
  pub time : World → ℕ × World
  pub update_expiry_queue : ℕ → KvHeader → World → Status × World
  pub get_buf : ℕ → World → Option (ℕ × ℕ) × World
  pub release_buf : ℕ → World → World

pub data ExpiryMode : Type 0 where
  kv_disable_expiry kv_arbitrary_expiry kv_global_expiry : ExpiryMode

-- What the operations read of an open store: `get_hash_func`, the layout's key and value bits and
-- search range, the device's sector size, and the metadata.
pub record Store : Type 0 where
  pub hash_func : HashFunc
  pub key_bits : ℕ
  pub val_bits : ℕ
  pub max_search_range : ℕ
  pub sector_size : ℕ
  pub max_pools : ℕ
  pub expiry_mode : ExpiryMode
  pub global_expiry : ℕ

-- The bytes of a pool id, as in `fnv1a`.
abbrev pub id_bytes : ℕ → List ℕ
id_bytes p = p % 256 ∷ p / 256 % 256 ∷ p / 65536 % 256 ∷ p / 16777216 % 256 ∷ []

unfoldable pub get_poolid_hash : Store → ℕ → ℕ
get_poolid_hash st pool_id =
    let pool_bits = st.val_bits - 1 in
    if ltb (2 ^ pool_bits) st.max_pools
    then key_hash st.hash_func (id_bytes pool_id) 0 pool_bits false
    else pool_id

-- M_MAX_COLLISION
abbrev pub max_collision : ℕ
max_collision = 8

-- The LBA of round `itr` of the loops over the collisions of a key: the hash, then `resolve_coll`.
unfoldable pub probe_lba : Store → List ℕ → ℕ → ℕ → ℕ
probe_lba st key pool_id itr =
    let init = key_hash st.hash_func key pool_id st.key_bits true in
    let lba : ℕ =
      if itr == 0 then init else resolve_coll st.hash_func key pool_id init itr st.key_bits true in
    bit_or lba (get_poolid_hash st pool_id)

abbrev pub starts_with : List ℕ → List ℕ → Bool
starts_with bytes [] = true
starts_with [] (k ∷ key) = false
starts_with (b ∷ bytes) (k ∷ key) = b == k && starts_with bytes key

-- The test for the key: its length, `memcmp` behind the header, and the pool.
pub holds_key : Reading → List ℕ → ℕ → Bool
holds_key r key pool_id =
    r.header.key_len == length key && starts_with r.body key && r.header.pool_id == pool_id

abbrev pub is_not_found : ErrorCode → Bool
is_not_found object_not_found = true
is_not_found _ = false

module _ (m : Media) where
  open m use {World, time, update_expiry_queue}

  expire_at : KvHeader → ℕ → Bool → ℕ × World → Status × World
  expire_at hdr key_loc del_exp (curtime, w) =
      let queued = update_expiry_queue key_loc hdr w in
      if ltb hdr.expiry curtime && not (hdr.expiry == 0)
      then if del_exp
        then elim (queued.0) [
          | success ↦ (failure object_not_found, queued.1)
          | failure c ↦ (failure c, queued.1)
        ]
        else (failure object_not_found, w)
      else (success, w)

  pub kv_expire : ExpiryMode → KvHeader → ℕ → Bool → World → Status × World
  unfolding expire_at
  kv_expire kv_disable_expiry hdr key_loc del_exp w = (success, w)
  kv_expire kv_arbitrary_expiry hdr key_loc del_exp w = expire_at hdr key_loc del_exp (time w)
  kv_expire kv_global_expiry hdr key_loc del_exp w = expire_at hdr key_loc del_exp (time w)
