-- ===== src/Cache/Get.antt =====
-- `kv_cache_get` of src/kv_cache.cpp. Its callers never pass a NULL context.
use nvmkv.Prelude.{
  ℕ, zero, suc, ◌+◌, Bool, true, false, not, ◌&&◌, none, some, List, ltb, ◌==◌, if◌then◌else◌,
}
use nvmkv.Cache.{
  CacheEntry, CacheContext, EntryState, entry_not_found, entry_empty, entry_found, entry_delete,
  KvCache, cleared, at_slot, entry_compare, is_empty, Oldest, eviction_insert, first_slot,
  next_slot, collision_limit,
}

-- `memset(cache_context, 0, sizeof(nvm_kv_cache_context))`
abbrev pub zero_context : CacheContext
zero_context = record {
  context_entry = cleared 0;
  context_state = entry_not_found;
  expired = false;
}

-- Is an entry past its time, where the store has expiry on (`expiry_mode` is not KV_DISABLE_EXPIRY)?
unfoldable pub is_expired : ℕ → ℕ → CacheEntry → Bool
is_expired expiry_mode now e = not (expiry_mode == 0) && not (e.expiry == 0) && ltb e.expiry now

unfoldable pub found_context : ℕ → ℕ → CacheEntry → CacheContext
unfolding is_expired
found_context expiry_mode now e = record {
  context_entry = e;
  context_state = entry_found;
  expired = is_expired expiry_mode now e;
}

-- The first empty slot is remembered; a later one is not.
unfoldable pub see_empty : CacheContext → EntryState → ℕ → CacheContext
see_empty ctx entry_not_found slot = record ctx {
  context_entry = record (ctx.context_entry) { index = slot };
  context_state = entry_empty;
}
see_empty ctx _ slot = ctx

-- After the last round: with no empty slot seen, the oldest entry seen is the one to replace.
unfoldable pub see_none : KvCache → CacheContext → EntryState → Oldest → CacheContext
see_none c ctx entry_not_found (some (ts, s)) = record ctx {
  context_entry = at_slot c.hash_table s;
  context_state = entry_delete;
}
see_none c ctx _ oldest = ctx

-- The loop, with `n` rounds left. At an empty slot the code goes on without moving to another slot.
unfoldable pub look :
    KvCache → ℕ → ℕ → List ℕ → ℕ → ℕ → ℕ → ℕ → CacheContext → Oldest → Bool × CacheContext
unfolding found_context see_empty see_none
look c expiry_mode now key pool_id zero hash_itr slot ctx oldest =
    (false, see_none c ctx ctx.context_state oldest)
look c expiry_mode now key pool_id (suc n) hash_itr slot ctx oldest =
    let e = at_slot c.hash_table slot in
    let stay =
      look c expiry_mode now key pool_id n (hash_itr + 1) slot
        (see_empty ctx ctx.context_state slot) oldest in
    let move =
      look c expiry_mode now key pool_id n (hash_itr + 1) (next_slot c key pool_id hash_itr) ctx
        (eviction_insert oldest e.ts slot) in
    if is_empty e
    then stay
    else if entry_compare e key pool_id
    then (true, found_context expiry_mode now e)
    else move

-- The flag is the return code: NVM_SUCCESS, or -NVM_ERR_OBJECT_NOT_FOUND.
unfoldable pub kv_cache_get : KvCache → ℕ → ℕ → List ℕ → ℕ → Bool × CacheContext
kv_cache_get c expiry_mode now key pool_id =
    look c expiry_mode now key pool_id collision_limit 0 (first_slot c key pool_id) zero_context
      none
