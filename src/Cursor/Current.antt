-- ===== src/Cursor/Current.antt =====
-- src/kv_store_mgr.cpp: kv_get_current, which reads the pair at the position of an iterator and moves the
-- iterator on where there is none that is to be given out. What an error leaves in the caller's
-- variables is left out.
pub mod Fetch
pub mod Shown
use nvmkv.Prelude.{
  ℕ, zero, suc, ◌+◌, ◌-◌, ◌*◌, ◌%◌, ◌^◌, Bool, true, false, ◌&&◌, ◌||◌, Option, none, some, List,
  [], ◌∷◌, ltb, ◌==◌, if◌then◌else◌,
}
use nvmkv.Error.{ErrorCode, invalid_input, out_of_memory, Status, success, failure, Result, ok, err}
use nvmkv.Util.{round_upto_blk}
use nvmkv.Pool.{PoolMgr, one_pool}
use nvmkv.Write.{KvHeader}
use nvmkv.Validate.{kvgetcurrent, Flags, Call, KvMap, OpenStore, kv_internal_validation}
use nvmkv.Media.{ReadIov, Reading, Media, Store, is_not_found, kv_expire}
use nvmkv.Ranges.{BlockRange, Lister}
use nvmkv.Iterator.{IterId, IterTable, kv_regular_iter, get_iter_loc}
use nvmkv.Iterator.Walk.{IterState, iter_over_pool}
use nvmkv.Cursor.{bare_call}

-- The buffer of the value, and whether the pointers for the results are given.
pub record CurrentArgs : Type 0 where
  pub value : ℕ
  pub value_len : ℕ
  pub has_value : Bool
  pub has_outputs : Bool

-- What a success gives: the key, the lengths of `key_info`, the offset and the length of the bytes that
-- are copied from the buffer of the pool to `value`, if they are, and what the call returns.
pub record CurrentPair : Type 0 where
  pub key : List ℕ
  pub key_len : ℕ
  pub value_len : ℕ
  pub copied : Option (ℕ × ℕ)
  pub ret_read_len : ℕ

abbrev pub take_bytes : ℕ → List ℕ → List ℕ
take_bytes zero bytes = []
take_bytes (suc n) [] = []
take_bytes (suc n) (b ∷ bytes) = b ∷ take_bytes n bytes

-- The test for the header of a key.
abbrev pub no_key : Reading → Bool
no_key r = r.read_len == 0 || (r.header.key_len == 0 || ltb 128 r.header.key_len)

module _ (m : Media) (lister : Lister m) (mgr : PoolMgr) (st : Store) (a : CurrentArgs) where
  open m use {World, nvm_readv, get_buf, release_buf}

  -- `read_len` for the value, behind the first sector.
  abbrev pub value_part : ℕ → ℕ
  value_part len =
      let part = if ltb st.sector_size len then len - st.sector_size else st.sector_size in
      let rounded = round_upto_blk a.value_len st.sector_size in
      if ltb rounded part then rounded else part

  abbrev pub value_iov : ℕ → BlockRange → List ReadIov
  value_iov len r =
      if ltb st.sector_size len
      then (record {
        iov_base = a.value;
        iov_len = value_part len;
        iov_lba = (r.start_lba + 1) % 2 ^ 64;
      }
          ∷ [])
      else []

  abbrev pub current_iovs : ℕ → BlockRange → List ReadIov
  current_iovs address r =
      record { iov_base = address; iov_len = st.sector_size; iov_lba = r.start_lba }
      ∷ value_iov (r.sectors * st.sector_size % 2 ^ 64) r

  pub current_pair : KvHeader → List ℕ → CurrentPair
  current_pair hdr body =
      let ret = if ltb a.value_len hdr.value_len then a.value_len else hdr.value_len in
      record {
        key = take_bytes hdr.key_len body;
        key_len = hdr.key_len;
        value_len = hdr.value_len;
        copied = if ltb hdr.value_offset st.sector_size then some (hdr.value_offset, ret) else none;
        ret_read_len = ret;
      }

  -- The exit: the buffer goes back where one was got, in whatever round that was.
  abbrev pub leave :
      Option ℕ
      → Result CurrentPair
      → IterState World
      → Option (Result CurrentPair × IterState World)
  leave none r s = some (r, s)
  leave (some size) r s = some (r, record s { world = release_buf size s.world })

  -- `ret_buf_size` is one variable for all rounds.
  abbrev pub resized : Option ℕ → ℕ → Option ℕ
  resized none size = none
  resized (some old) size = some size

  abbrev pub Round : Type 0
  Round = Option ℕ → IterState World → Option (Result CurrentPair × IterState World)

  -- Behind `iter_over_pool`: the buffer goes back, and the next round follows.
  abbrev pub after_move :
      Round → ℕ → Option (Status × IterState World) → Option (Result CurrentPair × IterState World)
  after_move next size none = none
  after_move next size (some (failure c, s)) = leave (some size) (err c) s
  after_move next size (some (success, s)) =
      next (some size) (record s { world = release_buf size s.world })

  abbrev pub move_on :
      Round → ℕ → IterId → ℕ → IterState World → Option (Result CurrentPair × IterState World)
  move_on next fuel it_id size s =
      after_move next size (iter_over_pool m lister mgr st fuel it_id kv_regular_iter s)

  -- Behind `kv_expire`.
  abbrev pub on_live :
      Round
      → ℕ
      → IterId
      → ℕ
      → Reading
      → Status × World
      → IterTable
      → Option (Result CurrentPair × IterState World)
  on_live next fuel it_id size r (success, w) t =
      leave (some size) (ok (current_pair r.header r.body)) (record { table = t; world = w })
  on_live next fuel it_id size r (failure c, w) t =
      if is_not_found c
      then move_on next fuel it_id size (record { table = t; world = w })
      else leave (some size) (err c) (record { table = t; world = w })

  -- Behind the read.
  pub on_current :
      Round
      → ℕ
      → IterId
      → ℕ
      → BlockRange
      → Result Reading × World
      → IterTable
      → Option (Result CurrentPair × IterState World)
  unfolding current_pair
  on_current next fuel it_id size r (err c, w) t =
      leave (some size) (err c) (record { table = t; world = w })
  on_current next fuel it_id size r (ok reading, w) t =
      if no_key reading
      then move_on next fuel it_id size (record { table = t; world = w })
      else on_live next fuel it_id size reading
          (kv_expire m st.expiry_mode reading.header r.start_lba true w) t

  pub on_current_buf :
      Round
      → ℕ
      → IterId
      → Option ℕ
      → BlockRange
      → Option (ℕ × ℕ) × World
      → IterTable
      → Option (Result CurrentPair × IterState World)
  unfolding on_current
  on_current_buf next fuel it_id held r (none, w) t =
      leave (resized held 0) (err out_of_memory) (record { table = t; world = w })
  on_current_buf next fuel it_id held r (some (address, size), w) t =
      if ltb size st.sector_size
      then leave (resized held size) (err out_of_memory) (record { table = t; world = w })
      else on_current next fuel it_id size r (nvm_readv (current_iovs address r) w) t

  -- The loop: `none` where the fuel, of its own or of `iter_over_pool`, ran out.
  pub current_loop : ℕ → ℕ → IterId → Round
  unfolding on_current_buf
  current_loop zero fuel it_id held s = none
  current_loop (suc n) fuel it_id held s = elim (get_iter_loc mgr s.table it_id kv_regular_iter) [
    | err c ↦ leave held (err c) s
    | ok r ↦
        on_current_buf (current_loop n fuel it_id) fuel it_id held r
          (get_buf st.sector_size s.world) s.table
  ]

-- KV_VALIDATE_ID and KV_VALIDATE_VALUE.
abbrev pub value_flags : Flags
value_flags = record {
  validate_id = true;
  validate_key = false;
  validate_value = true;
  validate_batch = false;
  validate_pool_id = false;
}

abbrev pub current_call : ℕ → CurrentArgs → Call
current_call id a = record (bare_call id (one_pool 0) kvgetcurrent) {
  has_value = a.has_value;
  value_len = a.value_len;
}

module _ (m : Media) (lister : Lister m) (stores : KvMap) (given : OpenStore) (st : Store) where
  open m use {World}

  pub kv_get_current :
      ℕ
      → ℕ
      → ℕ
      → IterId
      → CurrentArgs
      → IterState World
      → Option (Result CurrentPair × IterState World)
  unfolding current_loop
  kv_get_current rounds fuel id it_id a s =
      elim (kv_internal_validation value_flags stores given (current_call id a)) [
        | err c ↦ some (err invalid_input, s)
        | ok open_store ↦
            if a.has_outputs
            then current_loop m lister open_store.pool_mgr st a rounds fuel it_id none s
            else some (err invalid_input, s)
      ]
