-- ===== src/Validate.antt =====
-- src/kv_store_mgr.cpp: kv_internal_validation, which every operation of the store manager starts with.
pub mod Accepts
use nvmkv.Prelude.{
  ℕ, ◌-◌, Bool, true, false, not, ◌&&◌, ◌||◌, Option, none, some, List, [], ◌∷◌, bit_and, ltb, ◌==◌,
  if◌then◌else◌,
}
use nvmkv.Error.{invalid_input, Result, ok, err}
use nvmkv.Pool.{PoolMgr, PoolId, all_pools, one_pool, PoolStatus, pool_in_use, check_pool_status}

-- `nvm_kv_api`
pub data Api : Type 0 where
  kvcreate kvput kvget kvdelete kvpoolcreate kvgetpoolinfo kvpooldelete kvdeleteall : Api
  kvclose kvexists kvbatchget kvbatchput kvbegin kvnext kvgetcurrent kviterend : Api
  kvgetstoreinfo kvgetkeyinfo kvdeletewrapper kvgetvallen kvsetexpiry kvgetexpiry : Api
  kvgetpoolmetadata : Api

-- The bits of `kv_validation_t`.
pub record Flags : Type 0 where
  pub validate_id : Bool
  pub validate_key : Bool
  pub validate_value : Bool
  pub validate_batch : Bool
  pub validate_pool_id : Bool

-- What the checks read of an open store.
pub record OpenStore : Type 0 where
  pub pool_mgr : PoolMgr
  pub sector_size : ℕ

-- The arguments that are checked; of a pointer, whether it is one.
pub record Call : Type 0 where
  pub id : ℕ
  pub pool_id : PoolId
  pub api : Api
  pub has_key : Bool
  pub key_len : ℕ
  pub has_value : Bool
  pub value_len : ℕ
  pub has_iov : Bool
  pub iov_count : ℕ

abbrev pub nvm_kv_max_key_size : ℕ
nvm_kv_max_key_size = 128

abbrev pub nvm_kv_max_value_size : ℕ
nvm_kv_max_value_size = 1047552

-- `m_kvMap`
abbrev pub KvMap : Type 0
KvMap = List (ℕ × OpenStore)

abbrev pub get_store : KvMap → ℕ → Option OpenStore
get_store [] id = none
get_store ((i, st) ∷ rest) id = if i == id then some st else get_store rest id

-- The two calls that the default pool is refused to.
abbrev pub is_pool_call : Api → Bool
is_pool_call kvgetpoolmetadata = true
is_pool_call kvpooldelete = true
is_pool_call _ = false

abbrev pub is_get : Api → Bool
is_get kvget = true
is_get kvbatchget = true
is_get _ = false

abbrev pub is_default : PoolId → Bool
is_default (one_pool id) = id == 0
is_default _ = false

abbrev pub is_all : PoolId → Bool
is_all all_pools = true
is_all _ = false

abbrev pub is_in_use : PoolStatus → Bool
is_in_use pool_in_use = true
is_in_use _ = false

pub refuses_pool : Flags → Call → OpenStore → Bool
refuses_pool f a st =
    f.validate_id
    && f.validate_pool_id
    && (is_pool_call a.api && is_default a.pool_id
        || not (is_in_use (check_pool_status st.pool_mgr a.pool_id)) && not (is_all a.pool_id))

pub refuses_key : Flags → Call → Bool
refuses_key f a =
    f.validate_key && (a.key_len == 0 || ltb nvm_kv_max_key_size a.key_len || not a.has_key)

pub refuses_value : Flags → Call → OpenStore → Bool
refuses_value f a st =
    f.validate_value
    && (a.value_len == 0
        || not a.has_value
        || ltb nvm_kv_max_value_size a.value_len
        || is_get a.api && not (bit_and a.value_len (st.sector_size - 1) == 0))

pub refuses_batch : Flags → Call → Bool
refuses_batch f a = f.validate_batch && (not a.has_iov || a.iov_count == 0)

-- The store, where the id is to be checked; otherwise `*kv_store` is what the caller gave.
abbrev pub find_store : Flags → KvMap → OpenStore → Call → Option OpenStore
find_store f stores given a = if f.validate_id then get_store stores a.id else some given

pub check_call : Flags → Call → OpenStore → Result OpenStore
unfolding refuses_pool refuses_key refuses_value refuses_batch
check_call f a st =
    if refuses_pool f a st
    then err invalid_input
    else if refuses_key f a
    then err invalid_input
    else if refuses_value f a st
    then err invalid_input
    else if refuses_batch f a
    then err invalid_input
    else ok st

-- The status, with `*kv_store` where it succeeds.
unfoldable pub kv_internal_validation : Flags → KvMap → OpenStore → Call → Result OpenStore
unfolding check_call
kv_internal_validation f stores given a = elim (find_store f stores given a) [
  | none ↦ err invalid_input
  | some st ↦ check_call f a st
]
