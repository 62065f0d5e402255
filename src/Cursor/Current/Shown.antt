-- ===== src/Cursor/Current/Shown.antt =====
-- src/kv_store_mgr.cpp: what kv_get_current gives out, behind its validation.
use nvmkv.Prelude.{ℕ, ◌-◌, ◌^◌, ◌<◌, ◌≤◌, ◌≡◌, true, Option, none, ◌∷◌, length, refl}
use nvmkv.Error.{ok}
use nvmkv.Media.{Media, Store, is_aligned}
use nvmkv.Media.Quiet.{Pair, IsQuiet}
use nvmkv.Validate.{KvMap, OpenStore, kv_internal_validation}
use nvmkv.Ranges.{Lister, IsLister}
use nvmkv.Iterator.{BatchIter, at, current}
use nvmkv.Iterator.Walk.{IterState}
use nvmkv.Iterator.Walk.Pending.{IsOpen, pending}
use nvmkv.Iterator.Walk.Visits.{of_pool}
use nvmkv.Cursor.Current.{CurrentArgs, value_flags, current_call, kv_get_current}
use nvmkv.Cursor.Current.Fetch.{IsFixed, Gives, current_loop-Gives}

-- In any state of the media, where its pairs and ranges are fixed, the buffers of the pool and of the
-- value are aligned to the sectors, that of the pool is large enough and the expiry queue takes what has
-- expired, where no more pools than low bits of an LBA can tell apart are
-- allowed, with a call that passes the validation and names its results, for an iterator on a pool in use,
-- or on all pools, that stands at a range: kv_get_current ends, and gives out the first pair, among the
-- range of the iterator and those of its pool still to come, that has a key of 1 to 128 bytes and has not
-- expired, or reports that no object is found where there is none.
pub kv_get_current-Gives :
    (m : Media) (q : IsQuiet m) (lister : Lister m) (lib : IsLister m lister)
    (pairs : ℕ → Option Pair) (fixed : IsFixed m q lister lib pairs) (stores : KvMap)
    (given open_store : OpenStore) (st : Store) (a : CurrentArgs) (rounds fuel store_id i : ℕ)
    (s : IterState m.World) (b : BatchIter)
    → kv_internal_validation value_flags stores given (current_call store_id a) ≡ ok open_store
    → a.has_outputs ≡ true
    → is_aligned q.sector_size a.value ≡ true
    → st.max_pools ≤ 2 ^ (st.val_bits - 1)
    → IsOpen open_store.pool_mgr i (s.table) b
    → b.pos < b.num_ranges_found
    → length (pending m lister lib b s.world) < fuel
    → length (pending m lister lib b s.world) < rounds
    → Gives m q lister lib pairs fixed open_store.pool_mgr st a i b.pool_id b.pool_hash
        (current b ∷ of_pool st b.pool_id b.pool_hash (pending m lister lib b s.world))
        (kv_get_current m lister stores given st rounds fuel store_id (at i) a s)
unfolding kv_get_current
kv_get_current-Gives m q lister lib pairs fixed stores given open_store st a rounds fuel store_id i
      s b valid outputs aligned few h stands enough many =
    rw (valid, kv_get_current, outputs)
      (current_loop-Gives m q lister lib pairs fixed open_store.pool_mgr st a i b.pool_id
        b.pool_hash rounds fuel none s b aligned few refl refl h enough many)
