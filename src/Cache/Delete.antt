-- ===== src/Cache/Delete.antt =====
-- The deletions of src/kv_cache.cpp: one key, all keys at a set of LBAs, and all keys of pools.
use nvmkv.Prelude.{
  ℕ, zero, suc, ◌+◌, Bool, true, false, not, ◌&&◌, ◌||◌, Option, none, some, List, [], ◌∷◌, ◌==◌,
  if◌then◌else◌,
}
use nvmkv.Cache.{
  CacheEntry, KvCache, cleared, at_slot, entry_compare, is_empty, first_slot, next_slot, write_slot,
  collision_limit,
}

-- The loop of `kv_cache_delete`: the slot that holds the key, if one of the probes finds it.
unfoldable pub find_slot : KvCache → List ℕ → ℕ → ℕ → ℕ → ℕ → Option ℕ
find_slot c key pool_id zero hash_itr slot = none
find_slot c key pool_id (suc n) hash_itr slot =
    let rest = find_slot c key pool_id n (hash_itr + 1) (next_slot c key pool_id hash_itr) in
    if entry_compare (at_slot c.hash_table slot) key pool_id then some slot else rest

-- The entry that was deleted, where one was found; `none` is -NVM_ERR_OBJECT_NOT_FOUND.
unfoldable pub kv_cache_delete : KvCache → List ℕ → ℕ → Option CacheEntry × KvCache
unfolding find_slot
kv_cache_delete c key pool_id =
    elim (find_slot c key pool_id collision_limit 0 (first_slot c key pool_id)) [
      | none ↦ (none, c)
      | some slot ↦
          let e = at_slot c.hash_table slot in (some e, write_slot c slot (cleared e.index))
    ]

-- The loops over the whole table: entry `i` is cleared where it is in use and `drop` holds of it.
unfoldable pub sweep : (CacheEntry → Bool) → ℕ → List CacheEntry → List CacheEntry
sweep drop i [] = []
sweep drop i (e ∷ es) =
    (if not (is_empty e) && drop e then cleared i else e) ∷ sweep drop (i + 1) es

abbrev pub sweep_table : KvCache → (CacheEntry → Bool) → KvCache
sweep_table c drop = record c { hash_table = sweep drop 0 c.hash_table }

abbrev pub contains : List ℕ → ℕ → Bool
contains [] x = false
contains (y ∷ ys) x = x == y || contains ys x

-- `kv_cache_delete(lba_list)`: one loop over the table for each LBA of the set.
unfoldable pub kv_cache_delete_lbas : KvCache → List ℕ → KvCache
unfolding sweep
kv_cache_delete_lbas c [] = c
kv_cache_delete_lbas c (l ∷ ls) = kv_cache_delete_lbas (sweep_table c (λ e. e.lba == l)) ls

unfoldable pub kv_cache_delete_pools : KvCache → List ℕ → KvCache
unfolding sweep
kv_cache_delete_pools c pool_ids = sweep_table c (λ e. contains pool_ids e.pool_id)

-- Every pool but the default one, whose id is 0.
unfoldable pub kv_cache_delete_all_pools : KvCache → KvCache
unfolding sweep
kv_cache_delete_all_pools c = sweep_table c (λ e. not (e.pool_id == 0))

unfoldable pub kv_cache_delete_all : KvCache → KvCache
unfolding sweep
kv_cache_delete_all c = sweep_table c (λ _. true)
