-- ===== src/Iterator/Walk.antt =====
-- src/kv_iterator.cpp: the steps of an iterator over the ranges that the device lists. The ids of pools
-- on the media are below 2^31.
pub mod Pending
pub mod Visits
pub mod Held
pub mod Misses
use nvmkv.Prelude.{
  ℕ, zero, suc, ◌+◌, ◌-◌, ◌%◌, ◌^◌, Bool, false, ◌||◌, Option, none, some, [], ◌∷◌, length, bit_and,
  ltb, leb, ◌==◌, if◌then◌else◌, set,
}
use nvmkv.Error.{
  out_of_memory, internal_failure, object_not_found, Status, success, failure, Result, ok, err,
}
use nvmkv.Pool.{PoolMgr, PoolId, one_pool}
use nvmkv.Validate.{is_all}
use nvmkv.Media.{ReadIov, Media, Store}
use nvmkv.Ranges.{RangeIter, Listing, Lister, moved}
use nvmkv.Iterator.{
  BatchIter, IterId, IterTable, IterType, kv_glb_exp_iter, current, pool_mask, slot, validate_iter,
}

-- The table and the state of the media.
pub record IterState (W : Type 0) : Type 0 where
  pub table : IterTable
  pub world : W

abbrev pub put_iter : {W : Type 0} → IterState W → ℕ → BatchIter → IterState W
put_iter s i b = record s { table = set s.table i (some b) }

abbrev pub with_expiry : BatchIter → ℕ → BatchIter
with_expiry b e = record b { pos = 0; it = record b.it { filter_expiry = e } }

-- No range was found: what is left to iterate over moves on, and the array keeps what it held.
abbrev pub ended_at : RangeIter → Listing → RangeIter
ended_at it l = record it { range_start = l.left_start; range_length = l.left_length }

abbrev pub same_pool : PoolId → ℕ → Bool
same_pool (one_pool id) p = id == p
same_pool _ p = false

-- The LBA at the position of the iterator in slot `i`.
abbrev pub key_loc_at : IterTable → ℕ → ℕ
key_loc_at t i = elim (slot t i) [ none ↦ 0 | some b ↦ (current b).start_lba ]

module _ (m : Media) (lister : Lister m) (mgr : PoolMgr) (st : Store) where
  open m use {World, nvm_readv, get_buf, release_buf, time}

  -- Behind `nvm_logical_range_iterator`: no range means the end of the drive.
  pub on_listing : ℕ → BatchIter → Result Listing × World → IterTable → Status × IterState World
  on_listing i b (err c, w) t =
      (failure internal_failure, record { table = set t i (some b); world = w })
  on_listing i b (ok l, w) t =
      let b' = record b { it = moved b.it l } in
      if length l.found == 0
      then (
        failure object_not_found,
        record { table = set t i (some (record b { it = ended_at b.it l })); world = w },
      )
      else (
        success,
        record {
          table = set t i (some (record b' { num_ranges_found = length l.found }));
          world = w;
        },
      )

  abbrev pub list_more : ℕ → BatchIter → World → IterTable → Status × IterState World
  list_more i b w t = on_listing i b (lister b.it w) t

  -- The expiry filter of an iterator whose ranges are used up. The difference is on 64 bits.
  pub refill : IterType → ℕ → BatchIter → IterState World → Status × IterState World
  unfolding on_listing
  refill kv_glb_exp_iter i b s =
      if st.global_expiry == 0
      then (failure internal_failure, s)
      else let now = time s.world in
        list_more i (with_expiry b ((now.0 + 2 ^ 64 - st.global_expiry) % 2 ^ 64)) (now.1) s.table
  refill _ i b s = list_more i (with_expiry b 0) s.world s.table

  pub step_iter : IterType → ℕ → BatchIter → IterState World → Status × IterState World
  unfolding refill
  step_iter ty i b s =
      if ltb (b.pos + 1) b.num_ranges_found
      then (success, put_iter s i (record b { pos = b.pos + 1 }))
      else refill ty i b s

  -- Behind `validate_iter`.
  abbrev pub on_valid :
      IterType → IterState World → Result (ℕ × BatchIter) → Status × IterState World
  on_valid ty s (err c) = (failure c, s)
  on_valid ty s (ok (i, b)) = step_iter ty i b s

  pub iterate : IterId → IterType → IterState World → Status × IterState World
  unfolding step_iter
  iterate id ty s = on_valid ty s (validate_iter mgr s.table id ty)

  -- The buffer goes back whatever its size is.
  pub read_poolid : ℕ → Option (ℕ × ℕ) × World → Result ℕ × World
  read_poolid key_loc (none, w) = (err out_of_memory, w)
  read_poolid key_loc (some (address, size), w) =
      let iov : ReadIov = record {
        iov_base = address;
        iov_len = st.sector_size;
        iov_lba = key_loc;
      } in
      let r = nvm_readv (iov ∷ []) w in
      let back = λ (v : World). if size == 0 then v else release_buf size v in
      if ltb size st.sector_size then (err out_of_memory, back w) else elim (r.0) [
        | err c ↦ (err c, back (r.1))
        | ok reading ↦ (ok reading.header.pool_id, back (r.1))
      ]

  pub get_poolid : ℕ → World → Result ℕ × World
  unfolding read_poolid
  get_poolid key_loc w = read_poolid key_loc (get_buf st.sector_size w)

  -- Whether the walk stops at a key: its pool is the iterator's, or an error was met.
  pub at_pool : PoolId → ℕ → ℕ → IterState World → Option Status × IterState World
  unfolding get_poolid
  at_pool id hash key_loc s =
      let found = get_poolid key_loc s.world in
      let s' = record s { world = found.1 } in
      if hash == bit_and key_loc (pool_mask st) || is_all id
      then if leb st.max_pools (2 ^ (st.val_bits - 1)) then (some success, s) else elim (found.0) [
        | err c ↦ (some (failure c), s')
        | ok p ↦ (if same_pool id p then some success else none, s')
      ]
      else (none, s)

  -- A round of the loop, behind `iterate`. The iterator is read where it stands in the table.
  abbrev pub after_step :
      PoolId → ℕ → ℕ → Status × IterState World → Option Status × IterState World
  after_step id hash i (failure c, s) = (some (failure c), s)
  after_step id hash i (success, s) = at_pool id hash (key_loc_at s.table i) s

  abbrev pub walk_on :
      (IterState World → Option (Status × IterState World))
      → Option Status × IterState World
      → Option (Status × IterState World)
  walk_on next (some status, s) = some (status, s)
  walk_on next (none, s) = next s

  -- The loop: `none` where the fuel ran out.
  pub walk :
      ℕ → IterId → IterType → PoolId → ℕ → ℕ → IterState World → Option (Status × IterState World)
  unfolding iterate at_pool
  walk zero it_id ty id hash i s = none
  walk (suc n) it_id ty id hash i s =
      walk_on (walk n it_id ty id hash i) (after_step id hash i (iterate it_id ty s))

  pub iter_over_pool : ℕ → IterId → IterType → IterState World → Option (Status × IterState World)
  unfolding walk
  iter_over_pool fuel it_id ty s = elim (validate_iter mgr s.table it_id ty) [
    | err c ↦ some (failure c, s)
    | ok (i, b) ↦ walk fuel it_id ty b.pool_id b.pool_hash i s
  ]

module _ (m : Media) (lister : Lister m) where
  open m use {World}

  -- The loop of `count_ranges`: a round that finds none ends it.
  unfoldable pub count_from : ℕ → RangeIter → ℕ → World → Option (Result ℕ × World)
  count_from zero it num_ranges w = none
  count_from (suc n) it num_ranges w = elim ((lister it w).0) [
    | err c ↦ some (err internal_failure, (lister it w).1)
    | ok l ↦ elim l.found [
      | [] ↦ some (ok num_ranges, (lister it w).1)
      | r ∷ rs ↦ count_from n (moved it l) (num_ranges + length (r ∷ rs)) ((lister it w).1)
    ]
  ]

  unfoldable pub count_ranges : ℕ → ℕ → ℕ → ℕ → Option RangeIter → World → Option (Result ℕ × World)
  unfolding count_from
  count_ranges fuel max_ranges base len none w = some (err out_of_memory, w)
  count_ranges fuel max_ranges base len (some it) w =
      count_from fuel
        (record it {
          range_start = base;
          range_length = len;
          max_ranges = max_ranges;
          filter_mask = 0;
          filter_expiry = 0;
        })
        0 w
