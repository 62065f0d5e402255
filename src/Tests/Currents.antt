-- ===== src/Tests/Currents.antt =====
-- Instances for kv_get_current of src/kv_store_mgr.cpp.
use nvmkv.Prelude.{ℕ, ◌≡◌, true, false, some, [], ◌∷◌, refl, arith}
use nvmkv.Error.{success, ok}
use nvmkv.Bitmap.{bitmap_test}
use nvmkv.Pool.{one_pool, pool_program}
use nvmkv.Validate.{kv_internal_validation}
use nvmkv.Media.{Media, Store, kv_arbitrary_expiry}
use nvmkv.Media.Quiet.{Pair, IsQuiet, range_of}
use nvmkv.Ranges.{Lister, IsLister}
use nvmkv.Iterator.{BatchIter, at}
use nvmkv.Iterator.Walk.{IterState}
use nvmkv.Iterator.Walk.Pending.{IsOpen}
use nvmkv.Iterator.Walk.Visits.{of_pool}
use nvmkv.Cursor.Current.{CurrentArgs, value_flags, current_call, kv_get_current}
use nvmkv.Cursor.Current.Fetch.{IsFixed, first_shown, Gives}
use nvmkv.Cursor.Current.Shown.{kv_get_current-Gives}
use nvmkv.Tests.Flash.{
  Pairs, pair_at, blank, read_pairs, read_hole, read_pair, small_store, large_enough,
}
use nvmkv.Tests.Pools.{three_pools}
use nvmkv.Tests.Validates.{a_store, stores}

-- Two pairs of pool 1, the first of which has expired at 50 seconds.
abbrev pair_until : ℕ → Pair
pair_until expiry = record {
  sectors = 1;
  header = record blank {
    key_len = 2;
    value_len = 100;
    value_offset = 34;
    pool_id = 1;
    expiry = expiry;
  };
  body = 97 ∷ 98 ∷ [];
}

abbrev two_pairs : Pairs
two_pairs = (1, pair_until 50) ∷ (2049, pair_until 0) ∷ []

abbrev fixed_media : Media
fixed_media = record {
  World = ℕ;
  kv_range_exists = λ lba len w. (range_of (pair_at two_pairs lba), w);
  nvm_readv = λ iovs w. (ok (read_pairs iovs two_pairs), w);
  nvm_writev = λ x value iovs w. (success, w);
  acquire = λ lba w. (false, w);
  release = λ lba w. w;
  time = λ w. (100, w);
  update_expiry_queue = λ lba hdr w. (success, w);
  get_buf = λ n w. (some (4096, n), w);
  release_buf = λ n w. w;
}

abbrev fixed_media-IsQuiet : IsQuiet fixed_media
fixed_media-IsQuiet = record {
  contents = λ w. pair_at two_pairs;
  ranges = λ lba len w. refl;
  ranges_keep = λ lba len w. refl;
  reading = λ iovs w. read_pairs iovs two_pairs;
  sector_size = 512;
  max_iovs = 16;
  two_iovs = omega arith;
  reads = λ iovs w readable. refl;
  reads_keep = λ iovs w. refl;
  hole = λ iov rest w h. read_hole iov rest two_pairs h;
  pair = λ iov rest w p h. read_pair iov rest two_pairs p h;
  no_wait = λ lba w. refl;
  acquire_keep = λ lba w. refl;
  now = 100;
  clock = λ w. refl;
  time_keep = λ w. refl;
}

abbrev ended_device : Lister fixed_media
ended_device it w = (ok (record { found = []; left_start = 0; left_length = 0 }), w)

abbrev ended_device-IsLister : IsLister fixed_media ended_device
ended_device-IsLister = record {
  upcoming = λ it w. [];
  lists = λ it w. record {
    listing = record { found = []; left_start = 0; left_length = 0 };
    returned = refl;
    next = refl;
    ended = λ h. refl;
    started = λ e. refl;
  };
}

abbrev fixed_media-IsFixed :
    IsFixed fixed_media fixed_media-IsQuiet ended_device ended_device-IsLister (pair_at two_pairs)
fixed_media-IsFixed = record {
  holds = λ w. refl;
  listed = λ it v w. refl;
  address = λ n w. 4096;
  size = λ n w. n;
  buffer = λ n w. refl;
  buffer_fits = λ n w. large_enough n [];
  buffer_aligned = λ n w. refl;
  queued = λ lba hdr w. refl;
}

abbrev first_of_two : BatchIter
first_of_two = record {
  pool_id = one_pool 1;
  pool_hash = 1;
  num_ranges_found = 2;
  pos = 0;
  it = record {
    range_start = 4096;
    range_length = 0;
    max_ranges = 8;
    ranges = record { start_lba = 1; sectors = 1 } ∷ record { start_lba = 2049; sectors = 1 } ∷ [];
    filter_pattern = 1;
    filter_mask = 2047;
    filter_expiry = 0;
  };
}

abbrev at_first : IterState ℕ
at_first = record { table = some first_of_two ∷ []; world = 0 }

at_first-IsOpen : IsOpen three_pools 0 at_first.table first_of_two
unfolding pool_program bitmap_test
at_first-IsOpen = record {
  regular = omega arith;
  inside = omega arith;
  stands = refl;
  iterable = refl;
  counted = λ h. refl;
}

abbrev expiring_store : Store
expiring_store = record small_store { expiry_mode = kv_arbitrary_expiry }

abbrev current_args : CurrentArgs
current_args = record { value = 8192; value_len = 512; has_value = true; has_outputs = true }

current_valid :
    kv_internal_validation value_flags stores a_store (current_call 4 current_args) ≡ ok a_store
unfolding kv_internal_validation
current_valid = refl

-- The pair that has expired is passed over.
shown_second :
    first_shown kv_arbitrary_expiry 100
      (pair_at two_pairs)
      (of_pool expiring_store (one_pool 1) 1 first_of_two.it.ranges)
    ≡ some (pair_until 0)
shown_second = refl

kv_get_current-Gives_example :
    Gives fixed_media fixed_media-IsQuiet ended_device ended_device-IsLister
      (pair_at two_pairs)
      fixed_media-IsFixed
      three_pools
      expiring_store
      current_args
      0
      (one_pool 1)
      1
      first_of_two.it.ranges
      (kv_get_current fixed_media ended_device stores a_store expiring_store 3 3 4
        (at 0)
        current_args
        at_first)
kv_get_current-Gives_example =
    kv_get_current-Gives fixed_media fixed_media-IsQuiet ended_device ended_device-IsLister
      (pair_at two_pairs) fixed_media-IsFixed stores a_store a_store expiring_store current_args 3 3
      4 0 at_first first_of_two current_valid refl refl (omega arith) at_first-IsOpen (omega arith)
      (omega arith) (omega arith)
