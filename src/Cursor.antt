-- ===== src/Cursor.antt =====
-- src/kv_store_mgr.cpp: the calls by which a caller iterates over a pool: kv_begin, kv_next and
-- kv_iteration_end, and kv_get_current in Current. A result is what the call returns, `err` with what it
-- puts into errno. The pools do not change while one call runs.
pub mod Begins
pub mod Current
pub mod Stuck
use nvmkv.Prelude.{
  ℕ, zero, suc, ◌+◌, ◌-◌, ◌*◌, ◌%◌, ◌^◌, Bool, true, false, ◌&&◌, ◌||◌, Option, none, some, List,
  [], ◌∷◌, ltb, leb, ◌==◌, if◌then◌else◌,
}
use nvmkv.Error.{ErrorCode, invalid_input, out_of_memory, Status, success, failure, Result, ok, err}
use nvmkv.Util.{round_upto_blk}
use nvmkv.Pool.{PoolMgr, PoolId, all_pools, other_negative, one_pool}
use nvmkv.Validate.{
  Api, kvbegin, kvnext, kvgetcurrent, kviterend, Flags, Call, KvMap, OpenStore,
  kv_internal_validation,
}
use nvmkv.Media.{ReadIov, Reading, Media, Store, get_poolid_hash, is_not_found, kv_expire}
use nvmkv.Ranges.{BlockRange, Lister}
use nvmkv.Iterator.{
  BatchIter, IterId, at, IterTable, kv_regular_iter, alloc_iter, init_iter, free_iterator,
  get_iter_loc,
}
use nvmkv.Iterator.Walk.{IterState, iter_over_pool}

-- What iterators take from the layout and the capabilities of an open store.
pub record IterConfig : Type 0 where
  pub data_start_lba : ℕ
  pub kv_len : ℕ
  pub max_ranges : ℕ

-- A call that names no key, value or batch.
abbrev pub bare_call : ℕ → PoolId → Api → Call
bare_call id pool_id api = record {
  id = id;
  pool_id = pool_id;
  api = api;
  has_key = false;
  key_len = 0;
  has_value = false;
  value_len = 0;
  has_iov = false;
  iov_count = 0;
}

-- KV_VALIDATE_ID, and with the Boolean KV_VALIDATE_POOL_ID.
abbrev pub id_flags : Bool → Flags
id_flags pool = record {
  validate_id = true;
  validate_key = false;
  validate_value = false;
  validate_batch = false;
  validate_pool_id = pool;
}

-- The argument of `get_poolid_hash`, an `int` that is read as a word of 32 bits.
abbrev pub id_word : PoolId → ℕ
id_word all_pools = 4294967295
id_word other_negative = 4294967295
id_word (one_pool id) = id

module _ (m : Media) (lister : Lister m) (st : Store) (conf : IterConfig) where
  open m use {World}

  -- `kv_begin_exit` on an error: the iterator that was allocated is freed.
  abbrev pub begin_failed : PoolMgr → ℕ → ErrorCode → IterState World → Result ℕ × IterState World
  begin_failed mgr i c s =
      (err c, record s { table = (free_iterator mgr (at i) kv_regular_iter s.table).1 })

  pub on_first :
      PoolMgr → ℕ → Option (Status × IterState World) → Option (Result ℕ × IterState World)
  on_first mgr i none = none
  on_first mgr i (some (success, s)) = some (ok i, s)
  on_first mgr i (some (failure c, s)) = some (begin_failed mgr i c s)

  pub on_init : PoolMgr → ℕ → ℕ → Status × IterTable → World → Option (Result ℕ × IterState World)
  unfolding on_first
  on_init mgr fuel i (failure c, t) w =
      some (begin_failed mgr i c (record { table = t; world = w }))
  on_init mgr fuel i (success, t) w =
      on_first mgr i (
        iter_over_pool m lister mgr st fuel (at i) kv_regular_iter
          (record { table = t; world = w }))

  pub on_alloc : PoolMgr → ℕ → Result ℕ × IterTable → World → Option (Result ℕ × IterState World)
  unfolding on_init
  on_alloc mgr fuel (err c, t) w = some (err c, record { table = t; world = w })
  on_alloc mgr fuel (ok i, t) w =
      on_init mgr fuel i
        (init_iter mgr st conf.max_ranges (at i) conf.data_start_lba
          ((conf.kv_len + 2 ^ 64 - conf.data_start_lba) % 2 ^ 64) kv_regular_iter t)
        w

  -- `none` where the fuel of the walk ran out.
  pub begin_in :
      PoolMgr
      → ℕ
      → PoolId
      → Option BatchIter
      → IterState World
      → Option (Result ℕ × IterState World)
  unfolding on_alloc
  begin_in mgr fuel pool_id fresh s =
      on_alloc mgr fuel
        (alloc_iter kv_regular_iter pool_id (get_poolid_hash st (id_word pool_id)) fresh s.table)
        s.world

module _ (m : Media) (lister : Lister m) (stores : KvMap) (given : OpenStore) (st : Store)
    (conf : IterConfig) where
  open m use {World}

  pub kv_begin :
      ℕ → ℕ → PoolId → Option BatchIter → IterState World → Option (Result ℕ × IterState World)
  unfolding begin_in
  kv_begin fuel id pool_id fresh s =
      elim (kv_internal_validation (id_flags true) stores given (bare_call id pool_id kvbegin)) [
        | err c ↦ some (err invalid_input, s)
        | ok open_store ↦ begin_in m lister st conf open_store.pool_mgr fuel pool_id fresh s
      ]

  unfoldable pub kv_next : ℕ → ℕ → IterId → IterState World → Option (Status × IterState World)
  kv_next fuel id it_id s =
      elim (kv_internal_validation (id_flags false) stores given
        (bare_call id (one_pool 0) kvnext)) [
          | err c ↦ some (failure invalid_input, s)
          | ok open_store ↦
              iter_over_pool m lister open_store.pool_mgr st fuel it_id kv_regular_iter s
        ]

  pub kv_iteration_end : ℕ → IterId → IterTable → Status × IterTable
  kv_iteration_end id it_id t =
      elim (kv_internal_validation (id_flags false) stores given
        (bare_call id (one_pool 0) kviterend)) [
          | err c ↦ (failure invalid_input, t)
          | ok open_store ↦ free_iterator open_store.pool_mgr it_id kv_regular_iter t
        ]
