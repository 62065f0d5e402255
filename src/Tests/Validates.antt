-- ===== src/Tests/Validates.antt =====
-- Instances for kv_internal_validation of src/kv_store_mgr.cpp.
use nvmkv.Prelude.{◌≡◌, ◌↔◌, true, false, some, [], ◌∷◌, refl}
use nvmkv.Error.{ok}
use nvmkv.Pool.{one_pool}
use nvmkv.Validate.{Flags, OpenStore, Call, KvMap, kvget, find_store, kv_internal_validation}
use nvmkv.Validate.Accepts.{Allowed, kv_internal_validation-Allowed}
use nvmkv.Tests.Pools.{three_pools}

-- What kv_get asks for.
abbrev get_flags : Flags
get_flags = record {
  validate_id = true;
  validate_key = true;
  validate_value = true;
  validate_batch = false;
  validate_pool_id = true;
}

abbrev pub a_store : OpenStore
a_store = record { pool_mgr = three_pools; sector_size = 512 }

abbrev pub stores : KvMap
stores = (4, a_store) ∷ []

abbrev get_call : Call
get_call = record {
  id = 4;
  pool_id = one_pool 1;
  api = kvget;
  has_key = true;
  key_len = 16;
  has_value = true;
  value_len = 1024;
  has_iov = false;
  iov_count = 0;
}

kv_internal_validation-Allowed_example :
    (kv_internal_validation get_flags stores a_store get_call ≡ ok a_store) ↔ (
      (find_store get_flags stores a_store get_call ≡ some a_store)
      × Allowed 9 get_flags get_call a_store)
kv_internal_validation-Allowed_example =
    kv_internal_validation-Allowed get_flags stores a_store get_call a_store 9 refl
