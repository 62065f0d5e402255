-- ===== src/Remove.antt =====
-- Deletes: delete_range and batch_delete of src/kv_store.cpp, and kv_delete_internal
-- and kv_delete_sync of src/kv_store_mgr.cpp.
pub mod Ends
pub mod Release
use nvmkv.Prelude.{
  ℕ, zero, suc, ◌+◌, ◌-◌, ◌*◌, ◌/◌, ◌%◌, ◌^◌, Bool, true, false, not, ◌&&◌, Option, none, some,
  List, [], ◌∷◌, ltb, ◌==◌, if◌then◌else◌, length,
}
use nvmkv.Error.{
  ErrorCode, internal_failure, out_of_memory, io, Status, success, failure, Result, ok, err,
}
use nvmkv.Util.{round_upto_blk}
use nvmkv.SyncList.{erase}
use nvmkv.Cache.{CacheEntry, KvCache}
use nvmkv.Cache.Delete.{kv_cache_delete}
use nvmkv.Write.{Capabilities, Iov, nvm_iov_trim, KvHeader, Prepared, max_trim_size}
use nvmkv.Media.{Media, Store, is_not_found}
use nvmkv.Read.{ReadArgs, Found, kv_read_media}

-- The buffers of a batch that only trims.
abbrev pub no_buffers : Prepared
no_buffers = record {
  header = record {
    metadata_len = 0;
    key_len = 0;
    value_len = 0;
    value_offset = 0;
    pool_id = 0;
    gen_count = 0;
    expiry = 0;
  };
  key_bytes = [];
  copied = none;
  iovec = [];
}

-- `temp_discard_len`
pub discard_len : Capabilities → ℕ → ℕ
discard_len caps remaining_len =
    if ltb (max_trim_size caps) remaining_len then max_trim_size caps else remaining_len

pub trim_iov : Capabilities → ℕ → ℕ → ℕ → Iov
unfolding discard_len
trim_iov caps del_lba total_iovs remaining_len = record {
  iov_base = 0;
  iov_len = round_upto_blk (discard_len caps remaining_len) caps.nvm_sector_size;
  iov_lba = (del_lba + total_iovs * (max_trim_size caps / caps.nvm_sector_size)) % 2 ^ 64;
  iov_opcode = nvm_iov_trim;
}

-- The inner loop, with `n` more places in the array behind the next: the IOVs and what remains.
pub trim_batch : ℕ → Capabilities → ℕ → ℕ → ℕ → List Iov × ℕ
unfolding trim_iov discard_len
trim_batch zero caps del_lba total_iovs remaining_len = (
  trim_iov caps del_lba total_iovs remaining_len ∷ [],
  remaining_len - discard_len caps remaining_len,
)
trim_batch (suc n) caps del_lba total_iovs remaining_len =
    let left = remaining_len - discard_len caps remaining_len in
    let iov = trim_iov caps del_lba total_iovs remaining_len in
    let rest = trim_batch n caps del_lba ((total_iovs + 1) % 2 ^ 32) left in
    if left == 0 then (iov ∷ [], left) else (iov ∷ rest.0, rest.1)

-- The variables of `kv_delete_sync` that its exit reads: the cache, the buffer that was acquired, the
-- LBAs that the thread has taken and not yet released, and the state of the media.
pub record Removing (W : Type 0) : Type 0 where
  pub cache : Option KvCache
  pub buf : Option (ℕ × ℕ)
  pub insert_lba : Bool
  pub key_hash : ℕ
  pub held : List ℕ
  pub world : W

module _ (m : Media) (caps : Capabilities) where
  open m use {World, nvm_writev}

  abbrev pub status_of : Status → Status
  status_of success = success
  status_of (failure c) = failure io

  -- Behind a batch: an error, the end, or the next batch.
  abbrev pub after_batch :
      (World → Option (Status × World)) → ℕ → Status × World → Option (Status × World)
  after_batch next left (failure c, w) = some (failure io, w)
  after_batch next zero (success, w) = some (success, w)
  after_batch next (suc left) (success, w) = next w

  -- The outer loop: `none` where the fuel ran out.
  pub discard : ℕ → ℕ → ℕ → ℕ → World → Option (Status × World)
  unfolding trim_batch
  discard zero del_lba total_iovs remaining_len w = none
  discard (suc n) del_lba total_iovs remaining_len w =
      let batch = trim_batch (caps.nvm_max_num_iovs - 1) caps del_lba total_iovs remaining_len in
      after_batch (discard n del_lba ((total_iovs + length (batch.0)) % 2 ^ 32) (batch.1)) (batch.1)
        (nvm_writev no_buffers [] (batch.0) w)

  -- The bytes are counted on 64 bits; each round of the loop discards one at least.
  pub delete_range : ℕ → ℕ → World → Option (Status × World)
  unfolding discard
  delete_range del_lba discard_sec w =
      let remaining_len = discard_sec * caps.nvm_sector_size % 2 ^ 64 in
      discard (suc remaining_len) del_lba 0 remaining_len w

  unfoldable pub batch_delete : List Iov → World → Status × World
  batch_delete iovec w = let r = nvm_writev no_buffers [] iovec w in (status_of (r.0), r.1)

module _ (m : Media) (st : Store) (caps : Capabilities) (key : List ℕ) (pool_id : ℕ)
    (del_sec_count : ℕ) where
  open m use {World, acquire, release, get_buf, release_buf}

  -- How a stage ends: it goes on, or the function returns.
  abbrev pub RemoveM : Type 0
  RemoveM = Removing World → Option Status × Removing World

  abbrev pub and_then : Option Status × Removing World → RemoveM → Option Status × Removing World
  and_then (none, s) f = f s
  and_then (some r, s) f = (some r, s)

  -- Only the first sector is read.
  abbrev pub delete_args : ℕ → ReadArgs
  delete_args address = record {
    key = key;
    pool_id = pool_id;
    value = 0;
    value_len = 0;
    buf = address;
    read_exact = false;
  }

  -- Behind `kv_read_media`: a key that is not there counts as deleted.
  pub on_media : Result Found × World → RemoveM
  on_media (ok f, w) s = (none, record s { key_hash = f.lba; world = w })
  on_media (err c, w) s =
      if is_not_found c
      then (some success, record s { world = w })
      else (some (failure c), record s { world = w })

  pub read_key : ℕ → RemoveM
  unfolding on_media
  read_key address s = on_media (kv_read_media m st (delete_args address) s.world) s

  -- The buffer, where there is none yet, and the read.
  pub on_buffer : Option (ℕ × ℕ) × World → RemoveM
  unfolding read_key
  on_buffer (none, w) s = (some (failure out_of_memory), record s { world = w })
  on_buffer (some (address, size), w) s =
      if ltb size st.sector_size
      then (some (failure out_of_memory), record s { world = w })
      else read_key address (record s { buf = some (address, size); world = w })

  pub read_buffered : Option (ℕ × ℕ) → RemoveM
  unfolding on_buffer
  read_buffered none s = on_buffer (get_buf st.sector_size s.world) s
  read_buffered (some (address, size)) s = read_key address s

  -- Behind `kv_cache_delete`, which leaves the cache `c`.
  pub on_cached : KvCache → Option CacheEntry → RemoveM
  unfolding read_buffered
  on_cached c (some e) s = (none, record s { cache = some c; key_hash = e.lba })
  on_cached c none s = read_buffered s.buf (record s { cache = some c })

  -- The cache, or else the media.
  pub find_key : Option KvCache → RemoveM
  unfolding on_cached read_buffered
  find_key none s = read_buffered s.buf s
  find_key (some c) s =
      let deleted = kv_cache_delete c key pool_id in on_cached (deleted.1) (deleted.0) s

  -- The LBA is taken, and after a wait the media is read again.
  pub take_key : RemoveM
  unfolding read_buffered
  take_key s =
      let got = acquire s.key_hash s.world in
      let s' = record s { insert_lba = true; held = s.key_hash ∷ s.held; world = got.1 } in
      if got.0 then read_buffered s.buf s' else (none, s')

  -- The result of `delete_range`, which ends where the device trims something.
  pub on_deleted : Option (Status × World) → RemoveM
  on_deleted none s = (some (failure internal_failure), s)
  on_deleted (some (r, w)) s = (some r, record s { world = w })

  pub kv_delete_internal : RemoveM
  unfolding on_deleted delete_range
  kv_delete_internal s = on_deleted (delete_range m caps s.key_hash del_sec_count s.world) s

  abbrev pub give_back : Option (ℕ × ℕ) → World → World
  give_back none w = w
  give_back (some (address, size)) w = release_buf size w

  -- `end_kv_delete_sync`
  pub delete_exit : Removing World → Removing World
  delete_exit s =
      let w = give_back s.buf s.world in
      if s.insert_lba
      then record s { held = erase s.held s.key_hash; world = release s.key_hash w }
      else record s { world = w }

  pub delete_body : RemoveM
  unfolding find_key take_key kv_delete_internal
  delete_body s = and_then (and_then (find_key s.cache s) take_key) kv_delete_internal

  pub kv_delete_sync : Option KvCache → List ℕ → World → Option Status × Removing World
  unfolding delete_body delete_exit
  kv_delete_sync cache held w =
      let r = delete_body (record {
        cache = cache;
        buf = none;
        insert_lba = false;
        key_hash = 0;
        held = held;
        world = w;
      }) in
      (r.0, delete_exit (r.1))
