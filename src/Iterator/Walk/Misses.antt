-- ===== src/Iterator/Walk/Misses.antt =====
-- src/kv_iterator.cpp: an iterator over all pools of a store with many pools, and an iterator that goes on
-- behind the end of the drive.
use nvmkv.Prelude.{
  ℕ, zero, suc, ◌+◌, ◌-◌, ◌^◌, ◌<◌, ◌≤◌, ◌≡◌, ◌≢◌, true, false, Option, none, some, List, [],
  length, ltb, leb, ◌==◌, set, refl, ap, ◌∙◌, arith, get_or, get_or-set, length-set,
}
use nvmkv.Error.{object_not_found, Status, success, failure, ok}
use nvmkv.Pool.{PoolMgr, all_pools}
use nvmkv.Media.{Media, Store}
use nvmkv.Ranges.{BlockRange, Listing, Lister}
use nvmkv.Iterator.{BatchIter, at, current, kv_regular_iter, slot, pool_iterable}
use nvmkv.Iterator.Slots.{validate_iter_ok}
use nvmkv.Iterator.Walk.{
  IterState, with_expiry, ended_at, on_listing, refill, step_iter, iterate, at_pool, after_step,
  walk_on, walk, iter_over_pool, key_loc_at,
}

module _ (m : Media) (lister : Lister m) (mgr : PoolMgr) (st : Store) (i : ℕ) where
  -- The way in which a call does not end: with success.
  abbrev pub Succeeds : Option (Status × IterState m.World) → Type 0
  Succeeds o = (s' : IterState m.World) × (o ≡ some (success, s'))

  at_pool_all :
      (hash key_loc : ℕ) (s : IterState m.World)
      → leb st.max_pools (2 ^ (st.val_bits - 1)) ≡ false
      → (at_pool m lister mgr st all_pools hash key_loc s).0 ≢ some success
  unfolding at_pool
  at_pool_all hash key_loc s many e = ground (arith, many, e)

  walk_on_fails :
      (next : IterState m.World → Option (Status × IterState m.World))
      (r : Option Status × IterState m.World)
      → r.0 ≢ some success
      → ((s : IterState m.World) → ¬ Succeeds (next s))
      → ¬ Succeeds (walk_on m lister mgr st next r)
  walk_on_fails next (none, s) fails later good = later s good
  walk_on_fails next (some success, s) fails later good = fails refl
  walk_on_fails next (some (failure c), s) fails later (s', e) = cc

  after_step_fails :
      (hash : ℕ) (r : Status × IterState m.World)
      → leb st.max_pools (2 ^ (st.val_bits - 1)) ≡ false
      → (after_step m lister mgr st all_pools hash i r).0 ≢ some success
  after_step_fails hash (success, s) many e = at_pool_all hash (key_loc_at s.table i) s many e
  after_step_fails hash (failure c, s) many e = cc

  walk_fails :
      (n hash : ℕ) (s : IterState m.World)
      → leb st.max_pools (2 ^ (st.val_bits - 1)) ≡ false
      → ¬ Succeeds (walk m lister mgr st n (at i) kv_regular_iter all_pools hash i s)
  unfolding walk
  walk_fails zero hash s many (s', e) = cc
  walk_fails (suc n) hash s many good =
      walk_on_fails _ _
        (after_step_fails hash (iterate m lister mgr st (at i) kv_regular_iter s) many)
        (λ s'. walk_fails n hash s' many) good

  -- Where more pools are allowed than the low bits of an LBA can tell apart, an iterator over all pools
  -- does not come to any key, whatever the device lists and however many rounds it takes.
  pub iter_over_pool_all :
      (fuel : ℕ) (s : IterState m.World) (b : BatchIter)
      → 2 ^ (st.val_bits - 1) < st.max_pools
      → i < 128
      → slot s.table i ≡ some b
      → b.pool_id ≡ all_pools
      → ¬ (
          (s' : IterState m.World) × (iter_over_pool m lister mgr st fuel (at i) kv_regular_iter s
            ≡ some (success, s')))
  unfolding iter_over_pool
  iter_over_pool_all fuel s b many below stands all =
      rw
        (validate_iter_ok mgr i s.table b below stands (rw all (ground arith)), iter_over_pool, all)
        (walk_fails fuel b.pool_hash s (ground (arith, many)))

  -- The iterator that is left where the device lists no more.
  abbrev used_up : BatchIter → Listing → BatchIter
  used_up b l = record (with_expiry b 0) { it = ended_at (with_expiry b 0).it l }

  -- The iterator that the next step leaves.
  abbrev resumed : BatchIter → Listing → BatchIter
  resumed b l = record (used_up b l) { pos = 1 }

  iterate_ends :
      (s : IterState m.World) (b : BatchIter) (l : Listing)
      → i < 128
      → slot s.table i ≡ some b
      → pool_iterable mgr b ≡ true
      → b.num_ranges_found ≤ b.pos + 1
      → (lister (with_expiry b 0).it s.world).0 ≡ ok l
      → l.found ≡ []
      → iterate m lister mgr st (at i) kv_regular_iter s ≡ (
        failure object_not_found,
        record {
          table = set s.table i (some (used_up b l));
          world = (lister (with_expiry b 0).it s.world).1;
        },
      )
  unfolding iterate step_iter refill on_listing
  iterate_ends s b l below stands good used called none_left =
      let past : ltb (b.pos + 1) b.num_ranges_found ≡ false = ground (arith, used) in
      let empty : (length l.found == 0) ≡ true =
        ap (λ (rs : List BlockRange). length rs == 0) none_left in
      rw (validate_iter_ok mgr i s.table b below stands good, iterate, past, called, empty) refl

  -- Where the ranges that an iterator has are used up and the device lists no more, it reports that no
  -- object is found. If the last ranges that were listed were two or more, the next step of the iterator
  -- reports success all the same, and the iterator stands at the second one of those ranges again.
  pub iterate_resumes :
      (s : IterState m.World) (b : BatchIter) (l : Listing)
      → i < 128
      → i < length (s.table)
      → slot s.table i ≡ some b
      → pool_iterable mgr b ≡ true
      → b.num_ranges_found ≤ b.pos + 1
      → 1 < b.num_ranges_found
      → (lister (record b.it { filter_expiry = 0 }) s.world).0 ≡ ok l
      → l.found ≡ []
      → let first = iterate m lister mgr st (at i) kv_regular_iter s in
        (first.0 ≡ failure object_not_found)
        × (let again = iterate m lister mgr st (at i) kv_regular_iter (first.1) in
            (again.0 ≡ success)
            × ((b' : BatchIter) × (slot again.1.table i ≡ some b')
                × (current b' ≡ get_or b.it.ranges 1 (record { start_lba = 0; sectors = 0 }))))
  unfolding iterate step_iter
  iterate_resumes s b l below inside stands good used two called none_left =
      let first = iterate_ends s b l below stands good used called none_left in
      let t1 = set s.table i (some (used_up b l)) in
      let stored : slot t1 i ≡ some (used_up b l) =
        get_or-set s.table i i (some (used_up b l)) none inside ∙ ground arith in
      let inside1 : i < length t1 = rw (length-set s.table i (some (used_up b l))) inside in
      let restored : slot (set t1 i (some (resumed b l))) i ≡ some (resumed b l) =
        get_or-set t1 i i (some (resumed b l)) none inside1 ∙ ground arith in
      let more : ltb (0 + 1) b.num_ranges_found ≡ true = ground (arith, two) in
      rw first (
        refl,
        rw (validate_iter_ok mgr i t1 (used_up b l) below stored good, iterate, step_iter, more)
            (refl, (resumed b l, restored, refl)),
      )
