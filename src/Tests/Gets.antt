-- ===== src/Tests/Gets.antt =====
-- Runs and instances for kv_get of src/kv_store_mgr.cpp.
use nvmkv.Prelude.{true, [], ◌∷◌, refl}
use nvmkv.Media.Quiet.{first_match}
use nvmkv.Get.{GetArgs, KeyInfo, kv_get}
use nvmkv.Get.Reports.{Gets, kv_get-Gets}
use nvmkv.Tests.Flash.{pair_at, flash, flash-IsQuiet, flash-Writes, small_store}
use nvmkv.Tests.Reads.{collided}

abbrev a_get : GetArgs
a_get = record { key = 97 ∷ []; pool_id = 2; value = 8192; value_len = 512; read_exact = true }

abbrev no_info : KeyInfo
no_info = record { pool_id = 0; key_len = 0; value_len = 0; expiry = 0; gen_count = 0 }

kv_get-Gets_example :
    Gets flash small_store a_get 100
      (pair_at collided)
      (first_match (pair_at collided) small_store (97 ∷ []) 2)
      ((kv_get flash small_store a_get no_info collided).0)
kv_get-Gets_example =
    kv_get-Gets flash small_store a_get flash-IsQuiet flash-Writes no_info collided refl
