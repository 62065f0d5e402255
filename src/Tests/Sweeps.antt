-- ===== src/Tests/Sweeps.antt =====
-- Instances for the deletions of ranges of src/kv_store.cpp and src/kv_pool_del_manager.cpp.
use nvmkv.Prelude.{
  ℕ, ◌<◌, ◌≡◌, ◌≢◌, false, true, none, some, List, [], ◌∷◌, ◌++◌, length, refl, arith,
}
use nvmkv.Error.{success, Result, ok, err, object_not_found}
use nvmkv.Pool.{all_pools, pool_program}
use nvmkv.Bitmap.{bitmap_test, bitmap_clear}
use nvmkv.Write.{Iov}
use nvmkv.Media.{Media}
use nvmkv.Ranges.{BlockRange, Lister, IsLister}
use nvmkv.Sweep.{delete_all}
use nvmkv.Sweep.Trims.{Fit}
use nvmkv.Sweep.Keys.{TrimsQuietly, DeletesKeys, delete_all-DeletesKeys}
use nvmkv.PoolDel.{
  is_listed_target, ScanConfig, scan_iter, start_pool_delete, delete_keys, deletion_turn,
}
use nvmkv.PoolDel.Default.{DeletesTargets, delete_keys-DeletesTargets, start_pool_delete_default}
use nvmkv.Tests.Flash.{reading_of, small_store}
use nvmkv.Tests.Writes.{small_device}
use nvmkv.Tests.Pools.{three_pools, saved}
use nvmkv.Tests.Iterators.{keys_from, append_nothing}

-- A media that only records the IOVs of the batches that it gets.
abbrev log_media : Media
log_media = record {
  World = List Iov;
  kv_range_exists = λ lba len w. (err object_not_found, w);
  nvm_readv = λ iovs w. (ok (reading_of none), w);
  nvm_writev = λ x value iovs w. (success, w ++ iovs);
  acquire = λ lba w. (false, w);
  release = λ lba w. w;
  time = λ w. (100, w);
  update_expiry_queue = λ lba hdr w. (success, w);
  get_buf = λ n w. (some (4096, n), w);
  release_buf = λ n w. w;
}

-- A key of one sector at each LBA, all of them listed at once.
abbrev log_device : Lister log_media
log_device it w = (
  ok (record {
    found = keys_from it.range_start it.range_length;
    left_start = it.range_start;
    left_length = 0;
  }),
  w,
)

abbrev log_device-IsLister : IsLister log_media log_device
log_device-IsLister = record {
  upcoming = λ it w. keys_from it.range_start it.range_length;
  lists = λ it w. record {
    listing = record {
      found = keys_from it.range_start it.range_length;
      left_start = it.range_start;
      left_length = 0;
    };
    returned = refl;
    next = append_nothing (keys_from it.range_start it.range_length);
    ended = λ h. refl;
    started = λ e. e;
  };
}

abbrev log_device-TrimsQuietly : TrimsQuietly log_media log_device log_device-IsLister
log_device-TrimsQuietly = record {
  trimmed = λ w. w;
  written = λ iovs w h. refl;
  write_keep = λ iovs w it. refl;
  acquire_keep = λ lba w. refl;
  acquire_come = λ lba w it. refl;
  release_keep = λ lba w. refl;
  release_come = λ lba w it. refl;
  list_keep = λ it w. refl;
}

delete_all-DeletesKeys_example :
    DeletesKeys log_media log_device log_device-IsLister small_device log_device-TrimsQuietly
      (keys_from 1 5)
      []
      ((delete_all log_media log_device small_device 10 8 1 6 5 none []).1)
delete_all-DeletesKeys_example =
    delete_all-DeletesKeys log_media log_device log_device-IsLister small_device
      log_device-TrimsQuietly 10 8 1 6 5 none [] (omega arith) (omega arith) (omega arith)

abbrev user_data : ScanConfig
user_data = record { usr_data_start_lba = 4094; usr_data_max_lba = 5; max_ranges = 8 }

abbrev no_stale : BlockRange → List Iov → ℕ
no_stale r w = 0

user_keys :
    Fit small_device
      (is_listed_target log_media small_store all_pools)
      (log_device-IsLister.upcoming (scan_iter log_media small_store user_data all_pools) [])
unfolding scan_iter
user_keys = omega arith

user_count :
    length (log_device-IsLister.upcoming (scan_iter log_media small_store user_data all_pools) [])
    < 10
unfolding scan_iter
user_count = omega arith

delete_keys-DeletesTargets_example :
    DeletesTargets log_media log_device log_device-IsLister small_store small_device user_data
      no_stale all_pools log_device-TrimsQuietly
      (log_device-IsLister.upcoming (scan_iter log_media small_store user_data all_pools) [])
      []
      (delete_keys log_media log_device small_store small_device user_data no_stale 10 all_pools [])
delete_keys-DeletesTargets_example =
    delete_keys-DeletesTargets log_media log_device log_device-IsLister small_store small_device
      user_data no_stale all_pools log_device-TrimsQuietly 10 [] (omega arith) (omega arith)
      user_keys user_count

-- Two keys of the default pool, at the LBAs 4096 and 6144, and none of another.
abbrev default_keys : List BlockRange
default_keys =
    record { start_lba = 4096; sectors = 1 } ∷ record { start_lba = 6144; sectors = 1 } ∷ []

abbrev default_device : Lister log_media
default_device it w = (ok (record { found = default_keys; left_start = 0; left_length = 0 }), w)

start_pool_delete_default_example :
    (start_pool_delete log_media default_device small_store small_device user_data no_stale 1 saved
        (4 ∷ [])
        true
        three_pools
        []
      ≡ some (ok 2, three_pools, []))
    × (◌≢◌ {A = Result ℕ} (ok 2) (ok 0))
start_pool_delete_default_example =
    start_pool_delete_default log_media default_device small_store small_device user_data no_stale 0
      saved (4 ∷ []) three_pools []
      (record { found = default_keys; left_start = 0; left_length = 0 }) (omega arith) refl
      (omega arith) (omega arith) (refl, (refl, tt))

-- Pool 2 alone is in deletion.
turn_one :
    deletion_turn log_media default_device small_store small_device user_data no_stale 1 saved
      three_pools []
    ≡ start_pool_delete log_media default_device small_store small_device user_data no_stale 1 saved
        (4 ∷ [])
        false
        three_pools
        []
unfolding deletion_turn pool_program bitmap_test bitmap_clear
turn_one = refl
