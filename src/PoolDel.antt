-- ===== src/PoolDel.antt =====
-- src/kv_pool_del_manager.cpp: the deletion of the keys of pools, and src/kv_scanner.cpp:
-- is_valid_for_del, by which a scanner looks at a key on the media. The buffers of the scanner are
-- allocated. Where the header is not that of a key, is_valid_for_del does not set the pool id: what the
-- variable of its caller holds then is the argument `stale`.
pub mod Default
use nvmkv.Prelude.{
  ℕ, zero, suc, ◌+◌, ◌-◌, ◌%◌, ◌^◌, Bool, true, false, not, ◌&&◌, ◌||◌, Option, none, some, List,
  [], ◌∷◌, bit_and, ltb, ◌==◌, if◌then◌else◌,
}
use nvmkv.Error.{ErrorCode, out_of_memory, Status, success, failure, Result, ok, err}
use nvmkv.Bitmap.{KvBitmap, bitmap_test}
use nvmkv.Pool.{
  PoolMgr, PoolId, all_pools, other_negative, one_pool, clear_pool_bitmap, clear_pool_bitmaps,
  has_pools_to_delete, get_pool_deletion_bitmap,
}
use nvmkv.Write.{Capabilities}
use nvmkv.Media.{ReadIov, Reading, Media, Store, get_poolid_hash}
use nvmkv.Ranges.{BlockRange, RangeIter, Lister}
use nvmkv.Iterator.{pool_mask}
use nvmkv.Remove.{batch_delete}
use nvmkv.Sweep.{sweep_all}

-- The part of the media that holds the user's data, and the length of the array of the iterator.
pub record ScanConfig : Type 0 where
  pub usr_data_start_lba : ℕ
  pub usr_data_max_lba : ℕ
  pub max_ranges : ℕ

module _ (m : Media) (st : Store) where
  open m use {World, nvm_readv, get_buf, release_buf, time}

  -- Behind the read: 1 where the key has expired and 0 where not, and the pool id where it is set.
  pub on_header : ℕ → Result Reading × World → (Result ℕ × Option ℕ) × World
  on_header size (err c, w) = ((err c, none), release_buf size w)
  on_header size (ok reading, w) =
      let hdr = reading.header in
      let now = time w in
      if hdr.key_len == 0 || ltb 128 hdr.key_len then ((ok 0, none), release_buf size w) else (
        (ok (if not (hdr.expiry == 0) && ltb hdr.expiry now.0 then 1 else 0), some hdr.pool_id),
        release_buf size (now.1),
      )

  pub on_scan_buf : ℕ → Option (ℕ × ℕ) × World → (Result ℕ × Option ℕ) × World
  unfolding on_header
  on_scan_buf key_loc (none, w) = ((err out_of_memory, none), w)
  on_scan_buf key_loc (some (address, size), w) = on_header size (
      nvm_readv (record { iov_base = address; iov_len = st.sector_size; iov_lba = key_loc } ∷ []) w)

  pub is_valid_for_del : ℕ → World → (Result ℕ × Option ℕ) × World
  unfolding on_scan_buf
  is_valid_for_del key_loc w = on_scan_buf key_loc (get_buf st.sector_size w)

  -- `m_validate_pool_id_on_media`
  abbrev pub validate_on_media : Bool
  validate_on_media = ltb (2 ^ (st.val_bits - 1)) st.max_pools

  -- Whether a key of pool `found` is to be deleted: not that of another pool, and where all pools are
  -- deleted not that of the default pool.
  abbrev pub is_target : PoolId → ℕ → Bool
  is_target all_pools found = not (found == 0)
  is_target other_negative found = false
  is_target (one_pool p) found = p == found

  -- Without a read the filter of the iterator is relied on.
  abbrev pub is_listed_target : PoolId → BlockRange → Bool
  is_listed_target all_pools r = not (bit_and r.start_lba (pool_mask st) == 0)
  is_listed_target other_negative r = true
  is_listed_target (one_pool p) r = true

  abbrev pub stored_or : ℕ → Option ℕ → ℕ
  stored_or d none = d
  stored_or d (some p) = p

  abbrev pub on_checked : PoolId → ℕ → (Result ℕ × Option ℕ) × World → Result (ℕ × Bool) × World
  on_checked target d ((err c, p), w) = (err c, w)
  on_checked target d ((ok code, p), w) = (ok (code, is_target target (stored_or d p)), w)

  -- Whether a range is to be trimmed, with the new `ret_code`.
  pub judge_key :
      (BlockRange → World → ℕ) → PoolId → BlockRange → ℕ → World → Result (ℕ × Bool) × World
  unfolding is_valid_for_del
  judge_key stale target r ret w =
      if validate_on_media
      then on_checked target (stale r w) (is_valid_for_del r.start_lba w)
      else (ok (ret, is_listed_target target r), w)

  -- The filter of the iterator: all keys, or those with the hash of the pool.
  unfoldable pub scan_iter : ScanConfig → PoolId → RangeIter
  scan_iter conf (one_pool p) = record {
    range_start = conf.usr_data_start_lba;
    range_length = conf.usr_data_max_lba;
    max_ranges = conf.max_ranges;
    ranges = [];
    filter_pattern = get_poolid_hash st p;
    filter_mask = pool_mask st;
    filter_expiry = 0;
  }
  scan_iter conf _ = record {
    range_start = conf.usr_data_start_lba;
    range_length = conf.usr_data_max_lba;
    max_ranges = conf.max_ranges;
    ranges = [];
    filter_pattern = 0;
    filter_mask = 0;
    filter_expiry = 0;
  }

module _ (m : Media) (lister : Lister m) (st : Store) (caps : Capabilities) (conf : ScanConfig)
    (stale : BlockRange → m.World → ℕ) where
  open m use {World}

  -- `delete_pool` of the deletion manager; `none` where the fuel ran out.
  pub delete_keys : ℕ → PoolId → World → Option (Result ℕ × World)
  unfolding judge_key scan_iter
  delete_keys fuel target w =
      sweep_all m lister caps (judge_key m st stale target) (batch_delete m caps) fuel
        (scan_iter m st conf target) [] w

  -- Behind the deletion of the keys: `ret_code != NVM_SUCCESS` ends the pass, and a positive code is
  -- not NVM_SUCCESS either.
  abbrev pub on_keys :
      (PoolMgr → Status × PoolMgr)
      → PoolMgr
      → Option (Result ℕ × World)
      → Option (Result ℕ × PoolMgr × World)
  on_keys clear mgr none = none
  on_keys clear mgr (some (err c, w)) = some (err c, mgr, w)
  on_keys clear mgr (some (ok (suc n), w)) = some (ok (suc n), mgr, w)
  on_keys clear mgr (some (ok zero, w)) = elim ((clear mgr).0) [
    | success ↦ some (ok 0, (clear mgr).1, w)
    | failure c ↦ some (err c, (clear mgr).1, w)
  ]

  abbrev pub and_next :
      (PoolMgr → World → Option (Result ℕ × PoolMgr × World))
      → Option (Result ℕ × PoolMgr × World)
      → Option (Result ℕ × PoolMgr × World)
  and_next next none = none
  and_next next (some (err c, mgr, w)) = some (err c, mgr, w)
  and_next next (some (ok (suc n), mgr, w)) = some (ok (suc n), mgr, w)
  and_next next (some (ok zero, mgr, w)) = next mgr w

  -- The loop over the pools, `n` of them from `i` on.
  pub delete_each :
      ℕ
      → (PoolMgr → Status)
      → KvBitmap
      → ℕ
      → ℕ
      → PoolMgr
      → World
      → Option (Result ℕ × PoolMgr × World)
  unfolding delete_keys
  delete_each fuel persist pools zero i mgr w = some (ok 0, mgr, w)
  delete_each fuel persist pools (suc n) i mgr w =
      let rest = delete_each fuel persist pools n (i + 1) in
      if bitmap_test pools i == 0
      then rest mgr w
      else and_next rest
          (on_keys (λ x. clear_pool_bitmap x i persist) mgr (delete_keys fuel (one_pool i) w))

  pub start_pool_delete :
      ℕ
      → (PoolMgr → Status)
      → KvBitmap
      → Bool
      → PoolMgr
      → World
      → Option (Result ℕ × PoolMgr × World)
  unfolding delete_each delete_keys
  start_pool_delete fuel persist pools true mgr w =
      on_keys (λ x. clear_pool_bitmaps x pools persist) mgr (delete_keys fuel all_pools w)
  start_pool_delete fuel persist pools false mgr w =
      delete_each fuel persist pools (mgr.max_pools - 1) 1 mgr w

  -- One turn of the loop of `start_thread`, from the map of the pools to delete on.
  unfoldable pub deletion_turn :
      ℕ → (PoolMgr → Status) → PoolMgr → World → Option (Result ℕ × PoolMgr × World)
  unfolding start_pool_delete
  deletion_turn fuel persist mgr w =
      let (pools, all) = get_pool_deletion_bitmap mgr in
      start_pool_delete fuel persist pools all mgr w
