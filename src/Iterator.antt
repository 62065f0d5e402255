-- ===== src/Iterator.antt =====
-- src/kv_iterator.cpp: the table of iterators of a store, and the walk of one over the keys of a pool.
-- An iterator that malloc returns is an argument `fresh`, since some of its fields are not set.
pub mod Walk
pub mod Slots
use nvmkv.Prelude.{
  ℕ, zero, suc, ◌+◌, ◌-◌, ◌%◌, ◌^◌, Bool, true, false, not, ◌&&◌, ◌||◌, Option, none, some, List,
  length, bit_and, ltb, leb, ◌==◌, if◌then◌else◌, get_or, set, replicate,
}
use nvmkv.Error.{
  ErrorCode, invalid_input, out_of_memory, object_exists, max_limit_reached, internal_failure,
  object_not_found, Status, success, failure, Result, ok, err,
}
use nvmkv.Pool.{PoolMgr, PoolId, check_pool_status}
use nvmkv.Validate.{is_all, is_in_use}
use nvmkv.Media.{ReadIov, Reading, Media, Store}
use nvmkv.Ranges.{BlockRange, RangeIter, Listing, Lister, moved}

-- `nvm_kv_iterator_type_t`; `unknown_iter` is any other number.
pub data IterType : Type 0 where
  kv_regular_iter kv_pool_del_iter kv_arb_exp_iter kv_glb_exp_iter unknown_iter : IterType

-- An iterator id of type `int`.
pub data IterId : Type 0 where
  negative : IterId
  at : ℕ → IterId

-- `kv_batch_iterator_t`
pub record BatchIter : Type 0 where
  pub pool_id : PoolId
  pub pool_hash : ℕ
  pub num_ranges_found : ℕ
  pub pos : ℕ
  pub it : RangeIter

-- `m_iter`: NULL is `none`.
abbrev pub IterTable : Type 0
IterTable = List (Option BatchIter)

abbrev pub nvm_kv_max_iterators : ℕ
nvm_kv_max_iterators = 128

abbrev pub pool_del_itr : ℕ
pool_del_itr = 128

abbrev pub arb_exp_itr : ℕ
arb_exp_itr = 129

abbrev pub glb_exp_itr : ℕ
glb_exp_itr = 130

abbrev pub no_itr : ℕ
no_itr = 131

-- The table that the constructor makes.
abbrev pub new_iterators : IterTable
new_iterators = replicate no_itr none

abbrev pub slot : IterTable → ℕ → Option BatchIter
slot t i = get_or t i none

-- The loop for a regular iterator over the `n` places from `i` on.
pub first_free : ℕ → ℕ → IterTable → Option ℕ
first_free zero i t = none
first_free (suc n) i t =
    let rest = first_free n (i + 1) t in elim (slot t i) [ none ↦ some i | some _ ↦ rest ]

abbrev pub started_at : BatchIter → PoolId → ℕ → BatchIter
started_at b id hash = record b { pool_id = id; pool_hash = hash; num_ranges_found = 0; pos = 0 }

-- The slot of a scanner, which is to be empty.
pub alloc_at : ℕ → BatchIter → IterTable → Result ℕ × IterTable
alloc_at i b t = elim (slot t i) [
  | none ↦ (ok i, set t i (some b))
  | some _ ↦ (err object_exists, t)
]

pub alloc_regular : BatchIter → IterTable → Result ℕ × IterTable
alloc_regular b t = elim (first_free nvm_kv_max_iterators 0 t) [
  | none ↦ (err max_limit_reached, t)
  | some i ↦ (ok i, set t i (some b))
]

-- Behind malloc. The iterator of pool deletion keeps what malloc left in it.
pub alloc_typed : IterType → PoolId → ℕ → BatchIter → IterTable → Result ℕ × IterTable
unfolding first_free alloc_at alloc_regular
alloc_typed kv_regular_iter id hash b t = alloc_regular (started_at b id hash) t
alloc_typed kv_pool_del_iter id hash b t = alloc_at pool_del_itr b t
alloc_typed kv_arb_exp_iter id hash b t = alloc_at arb_exp_itr (started_at b id hash) t
alloc_typed kv_glb_exp_iter id hash b t = alloc_at glb_exp_itr (started_at b id hash) t
alloc_typed unknown_iter id hash b t = (err invalid_input, t)

pub alloc_iter : IterType → PoolId → ℕ → Option BatchIter → IterTable → Result ℕ × IterTable
unfolding alloc_typed
alloc_iter unknown_iter id hash fresh t = (err invalid_input, t)
alloc_iter ty id hash none t = (err out_of_memory, t)
alloc_iter ty id hash (some b) t = alloc_typed ty id hash b t

-- The ids that a type of iterator admits.
abbrev pub only : ℕ → IterId → Option ℕ
only i negative = none
only i (at n) = if n == i then some n else none

abbrev pub slot_of : IterId → IterType → Option ℕ
slot_of negative kv_regular_iter = none
slot_of (at n) kv_regular_iter = if leb nvm_kv_max_iterators n then none else some n
slot_of id kv_arb_exp_iter = only arb_exp_itr id
slot_of id kv_pool_del_iter = only pool_del_itr id
slot_of id kv_glb_exp_iter = only glb_exp_itr id
slot_of id unknown_iter = only glb_exp_itr id

-- `pool_mgr` is not NULL in a store that is open.
abbrev pub pool_iterable : PoolMgr → BatchIter → Bool
pool_iterable mgr b = is_in_use (check_pool_status mgr b.pool_id) || is_all b.pool_id

abbrev pub valid_entry : PoolMgr → Option BatchIter → Result BatchIter
valid_entry mgr none = err invalid_input
valid_entry mgr (some b) = if pool_iterable mgr b then ok b else err invalid_input

-- `validate_iter`, with the index and the iterator that its callers read once it succeeds.
unfoldable pub validate_iter : PoolMgr → IterTable → IterId → IterType → Result (ℕ × BatchIter)
validate_iter mgr t id ty = elim (slot_of id ty) [
  | none ↦ err invalid_input
  | some i ↦ elim (valid_entry mgr (slot t i)) [ err c ↦ err c | ok b ↦ ok (i, b) ]
]

-- `m_pool_mask`, for fewer than 32 bits.
abbrev pub pool_mask : Store → ℕ
pool_mask st = 2 ^ (st.val_bits - 1) - 1

abbrev pub set_range : Store → ℕ → ℕ → ℕ → BatchIter → BatchIter
set_range st max_ranges base len b = record b {
  it = record b.it {
    range_start = base;
    range_length = len;
    max_ranges = max_ranges;
    filter_pattern = b.pool_hash;
    filter_mask = if b.pool_hash == 0 then 0 else pool_mask st;
  };
}

pub init_iter : PoolMgr → Store → ℕ → IterId → ℕ → ℕ → IterType → IterTable → Status × IterTable
unfolding validate_iter
init_iter mgr st max_ranges id base len ty t = elim (validate_iter mgr t id ty) [
  | err c ↦ (failure c, t)
  | ok (i, b) ↦ (success, set t i (some (set_range st max_ranges base len b)))
]

abbrev pub current : BatchIter → BlockRange
current b = get_or b.it.ranges b.pos (record { start_lba = 0; sectors = 0 })

unfoldable pub get_iter_loc : PoolMgr → IterTable → IterId → IterType → Result BlockRange
unfolding validate_iter
get_iter_loc mgr t id ty = elim (validate_iter mgr t id ty) [
  | err c ↦ err c
  | ok (i, b) ↦ ok (current b)
]

unfoldable pub get_iter : IterTable → IterId → IterType → Option BatchIter
get_iter t id unknown_iter = none
get_iter t id ty = elim (slot_of id ty) [ none ↦ none | some i ↦ slot t i ]

pub free_iterator : PoolMgr → IterId → IterType → IterTable → Status × IterTable
unfolding validate_iter
free_iterator mgr id ty t = elim (validate_iter mgr t id ty) [
  | err c ↦ (failure c, t)
  | ok (i, b) ↦ (success, set t i none)
]
