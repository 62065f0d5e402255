-- ===== src/Tests/Exist.antt =====
-- Runs and instances for kv_exists of src/kv_store_mgr.cpp.
use nvmkv.Prelude.{[], ◌∷◌}
use nvmkv.Media.{Reading}
use nvmkv.Media.Quiet.{first_match}
use nvmkv.Exists.{kv_exists}
use nvmkv.Exists.Agree.{Reports, kv_exists-Reports}
use nvmkv.Tests.Flash.{pair_at, blank, flash, flash-IsQuiet, flash-Writes, small_store}
use nvmkv.Tests.Reads.{collided}

abbrev old_buffer : Reading
old_buffer = record { read_len = 0; header = blank; body = []; value = [] }

kv_exists-Reports_example :
    Reports flash small_store
      (97 ∷ [])
      2
      100
      (pair_at collided)
      (first_match (pair_at collided) small_store (97 ∷ []) 2)
      ((kv_exists flash small_store (97 ∷ []) 2 old_buffer collided).0)
kv_exists-Reports_example =
    kv_exists-Reports flash small_store (97 ∷ []) 2 flash-IsQuiet flash-Writes old_buffer collided
