-- ===== src/Tests/Iterators.antt =====
-- Instances for src/kv_iterator.cpp and the iterations of src/kv_store_mgr.cpp.
use nvmkv.Prelude.{
  ℕ, zero, suc, ◌+◌, ◌≡◌, true, false, none, some, List, [], ◌∷◌, ◌++◌, refl, arith, ap,
}
use nvmkv.Error.{success, failure, invalid_input, object_not_found, ok, err}
use nvmkv.Bitmap.{bitmap_test}
use nvmkv.Pool.{PoolId, all_pools, one_pool, pool_program, delete_pool}
use nvmkv.Validate.{kvbegin, kviterend, kv_internal_validation, OpenStore, KvMap}
use nvmkv.Media.{Store}
use nvmkv.Ranges.{BlockRange, Lister, IsLister}
use nvmkv.Iterator.{
  slot, current, get_iter, get_iter_loc, validate_iter, kv_pool_del_iter, kv_glb_exp_iter,
  BatchIter, at, kv_regular_iter, new_iterators, pool_iterable,
}
use nvmkv.Iterator.Walk.{count_from, count_ranges, IterState, iterate, iter_over_pool}
use nvmkv.Iterator.Walk.Pending.{IsOpen, pending}
use nvmkv.Iterator.Walk.Visits.{of_pool, visited, visited-of_pool}
use nvmkv.Iterator.Walk.Misses.{iter_over_pool_all, iterate_resumes}
use nvmkv.Cursor.{IterConfig, id_flags, bare_call, kv_begin, kv_next, kv_iteration_end}
use nvmkv.Cursor.Begins.{Begins, kv_begin-Begins}
use nvmkv.Cursor.Stuck.{kv_iteration_end_deleted}
use nvmkv.Tests.Flash.{Pairs, flash, small_store}
use nvmkv.Tests.Pools.{three_pools, three_pools-PoolsValid, saved}
use nvmkv.Tests.Validates.{a_store, stores}

-- A device with a key of one sector at each LBA, which lists all of them at once.
abbrev pub keys_from : ℕ → ℕ → List BlockRange
keys_from start zero = []
keys_from start (suc n) = record { start_lba = start; sectors = 1 } ∷ keys_from (start + 1) n

abbrev full_device : Lister flash
full_device it w = (
  ok (record {
    found = keys_from it.range_start it.range_length;
    left_start = it.range_start;
    left_length = 0;
  }),
  w,
)

pub append_nothing : (rs : List BlockRange) → rs ≡ rs ++ []
append_nothing [] = refl
append_nothing (r ∷ rs) = ap (λ (x : List BlockRange). r ∷ x) (append_nothing rs)

abbrev full_device-IsLister : IsLister flash full_device
full_device-IsLister = record {
  upcoming = λ it w. keys_from it.range_start it.range_length;
  lists = λ it w. record {
    listing = record {
      found = keys_from it.range_start it.range_length;
      left_start = it.range_start;
      left_length = 0;
    };
    returned = refl;
    next = append_nothing (keys_from it.range_start it.range_length);
    ended = λ h. refl;
    started = λ e. e;
  };
}

-- An iterator over pool 1 that has four keys to come, at the LBAs 1 to 4.
abbrev pool_iter : PoolId → ℕ → BatchIter
pool_iter id found = record {
  pool_id = id;
  pool_hash = 1;
  num_ranges_found = found;
  pos = 0;
  it = record {
    range_start = 1;
    range_length = 4;
    max_ranges = 8;
    ranges = [];
    filter_pattern = 1;
    filter_mask = 2047;
    filter_expiry = 0;
  };
}

abbrev one_iter : IterState Pairs
one_iter = record { table = some (pool_iter (one_pool 1) 0) ∷ none ∷ []; world = [] }

one_iter-IsOpen : IsOpen three_pools 0 one_iter.table (pool_iter (one_pool 1) 0)
unfolding pool_program bitmap_test
one_iter-IsOpen = record {
  regular = omega arith;
  inside = omega arith;
  stands = refl;
  iterable = refl;
  counted = λ h. absurd (omega (arith, h));
}

visited-of_pool_example :
    visited flash full_device full_device-IsLister three_pools small_store 0
      (one_pool 1)
      1
      10
      10
      one_iter
    ≡ of_pool small_store
        (one_pool 1)
        1
        (pending flash full_device full_device-IsLister (pool_iter (one_pool 1) 0) [])
visited-of_pool_example =
    visited-of_pool flash full_device full_device-IsLister three_pools small_store 0 (one_pool 1) 1
      10 10 one_iter (pool_iter (one_pool 1) 0) (omega arith) refl refl one_iter-IsOpen
      (omega arith) (omega arith)

abbrev config : IterConfig
config = record { data_start_lba = 1; kv_len = 5; max_ranges = 8 }

begin_valid :
    kv_internal_validation (id_flags true) stores a_store (bare_call 4 (one_pool 1) kvbegin)
    ≡ ok a_store
unfolding kv_internal_validation pool_program bitmap_test
begin_valid = refl

abbrev no_iters : IterState Pairs
no_iters = record { table = new_iterators; world = [] }

kv_begin-Begins_example :
    Begins flash full_device full_device-IsLister small_store config three_pools
      (one_pool 1)
      new_iterators
      (keys_from 1 4)
      (kv_begin flash full_device stores a_store small_store config 10 4
        (one_pool 1)
        (some (pool_iter (one_pool 1) 0))
        no_iters)
kv_begin-Begins_example =
    kv_begin-Begins flash full_device full_device-IsLister stores a_store a_store small_store config
      4 (one_pool 1) 10 (pool_iter (one_pool 1) 0) no_iters begin_valid (omega arith) (omega arith)
      (omega arith) (omega arith) (omega arith)

-- 4,096 pools, and 11 bits of an LBA for them.
abbrev large_store : Store
large_store = record small_store { max_pools = 4096 }

abbrev all_iter : IterState Pairs
all_iter = record { table = some (pool_iter all_pools 0) ∷ []; world = [] }

iter_over_pool_all_example : ¬ (
    (s' : IterState Pairs) × (iter_over_pool flash full_device three_pools large_store 10
        (at 0)
        kv_regular_iter
        all_iter
      ≡ some (success, s')))
iter_over_pool_all_example =
    iter_over_pool_all flash full_device three_pools large_store 0 10 all_iter
      (pool_iter all_pools 0) (omega arith) (omega arith) refl refl

-- An iterator at the last of two keys.
abbrev last_iter : BatchIter
last_iter = record (pool_iter all_pools 2) {
  pos = 1;
  it = record (pool_iter all_pools 2).it { range_length = 0; ranges = keys_from 1 2 };
}

abbrev at_end : IterState Pairs
at_end = record { table = some last_iter ∷ []; world = [] }

last_iterable : pool_iterable three_pools last_iter ≡ true
unfolding pool_program
last_iterable = refl

iterate_resumes_example :
    ((iterate flash full_device three_pools small_store (at 0) kv_regular_iter at_end).0
      ≡ failure object_not_found)
    × (let again =
          iterate flash full_device three_pools small_store
            (at 0)
            kv_regular_iter
            ((iterate flash full_device three_pools small_store (at 0) kv_regular_iter at_end).1) in
        (again.0 ≡ success)
        × ((b : BatchIter) × (slot again.1.table 0 ≡ some b)
            × (current b ≡ record { start_lba = 2; sectors = 1 })))
iterate_resumes_example =
    iterate_resumes flash full_device three_pools small_store 0 at_end last_iter
      (record { found = []; left_start = 1; left_length = 0 }) (omega arith) (omega arith) refl
      last_iterable (omega arith) (omega arith) refl refl

abbrev after_delete : OpenStore
after_delete = record {
  pool_mgr = (delete_pool three_pools (one_pool 1) saved).1;
  sector_size = 512;
}

abbrev left_stores : KvMap
left_stores = (4, after_delete) ∷ []

end_valid :
    kv_internal_validation
      (id_flags false)
      left_stores
      after_delete
      (bare_call 4 (one_pool 0) kviterend)
    ≡ ok after_delete
unfolding kv_internal_validation
end_valid = refl

delete_one : (delete_pool three_pools (one_pool 1) saved).0 ≡ success
unfolding pool_program bitmap_test
delete_one = refl

kv_iteration_end_deleted_example :
    kv_iteration_end flash full_device left_stores after_delete small_store config 4
      (at 0)
      one_iter.table
    ≡ (failure invalid_input, one_iter.table)
kv_iteration_end_deleted_example =
    kv_iteration_end_deleted flash full_device left_stores after_delete after_delete small_store
      config 4 1 0 three_pools saved one_iter.table (pool_iter (one_pool 1) 0)
      three_pools-PoolsValid (omega arith) (omega arith) (omega arith) delete_one end_valid refl
      refl refl

-- The iterator stands at the second key. Its slot is not that of a scanner.
last_iter_loc :
    (get_iter_loc three_pools at_end.table (at 0) kv_regular_iter
      ≡ ok (record { start_lba = 2; sectors = 1 }))
    × (get_iter_loc three_pools at_end.table (at 0) kv_pool_del_iter ≡ err invalid_input)
    × (get_iter at_end.table (at 0) kv_regular_iter ≡ some last_iter)
    × (get_iter at_end.table (at 0) kv_glb_exp_iter ≡ none)
unfolding get_iter_loc get_iter validate_iter pool_program
last_iter_loc = (refl, refl, refl, refl)

-- One listing of four keys, and an empty one.
four_ranges :
    count_ranges flash full_device 2 8 1 4 (some (pool_iter all_pools 0).it) [] ≡ some (ok 4, [])
unfolding count_from count_ranges
four_ranges = refl

-- There is no store 5.
next_unknown :
    kv_next flash full_device stores a_store small_store config 10 5 (at 0) one_iter
    ≡ some (failure invalid_input, one_iter)
unfolding kv_next kv_internal_validation
next_unknown = refl
