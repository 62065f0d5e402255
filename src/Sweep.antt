-- ===== src/Sweep.antt =====
-- The loop of delete_all_keys of src/kv_store.cpp, which src/kv_pool_del_manager.cpp repeats: the ranges
-- that the device lists become trims, which are sent in batches. The deletion of all keys of a store.
pub mod Trims
pub mod Finish
pub mod Keys
use nvmkv.Prelude.{
  ℕ, zero, suc, ◌+◌, ◌-◌, ◌*◌, ◌%◌, ◌^◌, Bool, true, false, Option, none, some, List, [], ◌∷◌, ◌++◌,
  length, ltb, ◌==◌, if◌then◌else◌,
}
use nvmkv.Error.{
  ErrorCode, internal_failure, out_of_memory, io, Status, success, failure, Result, ok, err,
}
use nvmkv.Cache.{KvCache}
use nvmkv.Cache.Delete.{kv_cache_delete_lbas, kv_cache_delete_all}
use nvmkv.Write.{Capabilities, Iov, nvm_iov_trim, max_trim_size}
use nvmkv.Media.{Media}
use nvmkv.Remove.{batch_delete}
use nvmkv.Ranges.{BlockRange, RangeIter, Listing, Lister, moved}

-- Where the loop stands: it returned, or goes on with a value of `ret_code` and the IOVs that wait.
pub data Swept (W : Type 0) : Type 0 where
  returned : Result ℕ → W → Swept W
  going : ℕ → List Iov → W → Swept W

-- `trim_len`, on 64 bits.
abbrev pub trim_len : Capabilities → BlockRange → ℕ
trim_len caps r = r.sectors * caps.nvm_sector_size % 2 ^ 64

abbrev pub trim_of : Capabilities → BlockRange → Iov
trim_of caps r = record {
  iov_base = 0;
  iov_len = trim_len caps r;
  iov_lba = r.start_lba;
  iov_opcode = nvm_iov_trim;
}

module _ (m : Media) (lister : Lister m) (caps : Capabilities)
    (judge : BlockRange → ℕ → m.World → Result (ℕ × Bool) × m.World)
    (send : List Iov → m.World → Status × m.World) where
  open m use {World}

  -- Behind a batch: NVM_SUCCESS is 0, and no IOV waits.
  abbrev pub on_sent : Status × World → Swept World
  on_sent (success, w) = going 0 [] w
  on_sent (failure c, w) = returned (err c) w

  -- One range: too long, one more IOV, or the batch is full.
  unfoldable pub add_trim : BlockRange → ℕ → List Iov → World → Swept World
  add_trim r ret iovs w =
      let iovs' = iovs ++ trim_of caps r ∷ [] in
      if ltb (max_trim_size caps) (trim_len caps r)
      then returned (err internal_failure) w
      else if length iovs' == caps.nvm_max_num_iovs
      then on_sent (send iovs' w)
      else going ret iovs' w

  -- `judge` is the part of the loop that skips ranges: the new `ret_code`, and whether to trim.
  abbrev pub on_judged : BlockRange → List Iov → Result (ℕ × Bool) × World → Swept World
  on_judged r iovs (err c, w) = returned (err c) w
  on_judged r iovs (ok (ret, true), w) = add_trim r ret iovs w
  on_judged r iovs (ok (ret, false), w) = going ret iovs w

  abbrev pub and_on : Swept World → (ℕ → List Iov → World → Swept World) → Swept World
  and_on (returned r w) next = returned r w
  and_on (going ret iovs w) next = next ret iovs w

  -- The inner loop, over the ranges of a listing.
  unfoldable pub sweep_ranges : List BlockRange → ℕ → List Iov → World → Swept World
  unfolding add_trim
  sweep_ranges [] ret iovs w = going ret iovs w
  sweep_ranges (r ∷ rs) ret iovs w = and_on (on_judged r iovs (judge r ret w)) (sweep_ranges rs)

  abbrev pub result_of : Status × World → Result ℕ × World
  result_of (success, w) = (ok 0, w)
  result_of (failure c, w) = (err c, w)

  -- The IOVs that wait behind the last listing.
  abbrev pub send_rest : ℕ → List Iov → World → Result ℕ × World
  send_rest ret [] w = (ok ret, w)
  send_rest ret (iov ∷ iovs) w = result_of (send (iov ∷ iovs) w)

  -- Behind the inner loop: a listing that does not fill the array is the last.
  abbrev pub on_page :
      (RangeIter → List Iov → World → Option (Result ℕ × World))
      → RangeIter
      → Listing
      → Swept World
      → Option (Result ℕ × World)
  on_page next it l (returned r w) = some (r, w)
  on_page next it l (going ret iovs w) =
      if ltb (length l.found) it.max_ranges
      then some (send_rest ret iovs w)
      else next (moved it l) iovs w

  abbrev pub on_listed :
      (RangeIter → List Iov → World → Option (Result ℕ × World))
      → RangeIter
      → List Iov
      → Result Listing × World
      → Option (Result ℕ × World)
  on_listed next it iovs (err c, w) = some (err internal_failure, w)
  on_listed next it iovs (ok l, w) =
      on_page next it l (sweep_ranges l.found (length l.found) iovs w)

  -- The outer loop: `none` where the fuel ran out. The result is `ret_code`.
  unfoldable pub sweep_all : ℕ → RangeIter → List Iov → World → Option (Result ℕ × World)
  unfolding sweep_ranges
  sweep_all zero it iovs w = none
  sweep_all (suc n) it iovs w = on_listed (sweep_all n) it iovs (lister it w)

-- The loops of `batch_delete_sync` over the safe list.
module _ (m : Media) where
  open m use {World, acquire, release}

  abbrev pub take_all : List Iov → World → World
  take_all [] w = w
  take_all (iov ∷ iovs) w = take_all iovs ((acquire iov.iov_lba w).1)

  abbrev pub release_all : List Iov → World → World
  release_all [] w = w
  release_all (iov ∷ iovs) w = release_all iovs (release iov.iov_lba w)

abbrev pub lbas_of : List Iov → List ℕ
lbas_of [] = []
lbas_of (iov ∷ iovs) = iov.iov_lba ∷ lbas_of iovs

-- The cache without the LBAs of a batch, where it is to be looked at. The set of LBAs holds each once;
-- to clear an LBA twice is to clear it once.
abbrev pub uncache : Bool → List Iov → Option KvCache → Option KvCache
uncache true iovs (some c) = some (kv_cache_delete_lbas c (lbas_of iovs))
uncache _ iovs cache = cache

module _ (m : Media) (lister : Lister m) (caps : Capabilities) where
  open m use {World}

  pub batch_delete_sync : Bool → List Iov → Option KvCache → World → Status × Option KvCache × World
  batch_delete_sync delete_from_cache iovs cache w =
      let r = batch_delete m caps iovs (take_all m iovs w) in
      (r.0, uncache delete_from_cache iovs cache, release_all m iovs (r.1))

  -- Without the cache, as `delete_all_keys` sends its batches.
  abbrev pub send_sync : List Iov → World → Status × World
  send_sync iovs w = let r = batch_delete_sync false iovs none w in (r.0, r.2)

  abbrev pub every_range : BlockRange → ℕ → World → Result (ℕ × Bool) × World
  every_range r ret w = (ok (ret, true), w)

  -- The iterator over a part of the media, with no filter.
  abbrev pub unfiltered : ℕ → ℕ → ℕ → RangeIter
  unfiltered max_ranges start_lba discard_length = record {
    range_start = start_lba;
    range_length = discard_length;
    max_ranges = max_ranges;
    ranges = [];
    filter_pattern = 0;
    filter_mask = 0;
    filter_expiry = 0;
  }

  pub delete_all_keys : ℕ → ℕ → ℕ → ℕ → World → Option (Result ℕ × World)
  unfolding sweep_all batch_delete_sync
  delete_all_keys fuel max_ranges start_lba discard_length w =
      sweep_all m lister caps every_range send_sync fuel
        (unfiltered max_ranges start_lba discard_length) [] w

  abbrev pub clear_cache : Option KvCache → Option KvCache
  clear_cache none = none
  clear_cache (some c) = some (kv_cache_delete_all c)

  -- `num_keys` of the store's metadata, which nothing reads.
  abbrev pub keys_left : ℕ → Option (Result ℕ × World) → ℕ
  keys_left num_keys (some (ok zero, w)) = 0
  keys_left num_keys _ = num_keys

  abbrev pub after_all :
      ℕ
      → Option KvCache
      → Option (Result ℕ × World)
      → (Option KvCache × ℕ) × Option (Result ℕ × World)
  after_all num_keys cache r = ((cache, keys_left num_keys r), r)

  -- The cache and the count of keys that are left, and what the deletion returns.
  pub delete_all :
      ℕ → ℕ → ℕ → ℕ → ℕ → Option KvCache → World → (Option KvCache × ℕ) × Option (Result ℕ × World)
  unfolding delete_all_keys
  delete_all fuel max_ranges data_start_lba kv_len num_keys cache w =
      after_all num_keys (clear_cache cache) (
        delete_all_keys fuel max_ranges data_start_lba ((kv_len + 2 ^ 64 - data_start_lba) % 2 ^ 64)
          w)
