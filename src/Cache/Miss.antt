-- ===== src/Cache/Miss.antt =====
-- A `kv_cache_get` of src/kv_cache.cpp that finds nothing, and the search of a put.
use nvmkv.Prelude.{
  ℕ, zero, suc, ◌+◌, ◌≡◌, Bool, true, false, List, arith, Bool-cases, inl, inr, refl,
}
use nvmkv.Cache.{
  CacheContext, EntryState, entry_not_found, entry_empty, KvCache, at_slot, is_empty, entry_compare,
  next_slot, Oldest, eviction_insert, Place, free_at, evict, place,
}
use nvmkv.Cache.Get.{look, see_empty, see_none}

see_empty-keep :
    (ctx : CacheContext) (s : EntryState) (slot : ℕ) → s ≡ entry_empty → see_empty ctx s slot ≡ ctx
unfolding see_empty
see_empty-keep ctx s slot h = rw h refl

see_none-keep :
    (c : KvCache) (ctx : CacheContext) (s : EntryState) (o : Oldest)
    → s ≡ entry_empty
    → see_none c ctx s o ≡ ctx
unfolding see_none
see_none-keep c ctx s o h = rw h refl

module _ (c : KvCache) (mode now : ℕ) (key : List ℕ) (pool_id : ℕ) where
  -- At an empty slot the loop runs out and keeps its context.
  look_stuck :
      (n itr slot : ℕ) (ctx : CacheContext) (o : Oldest)
      → is_empty (at_slot c.hash_table slot) ≡ true
      → ctx.context_state ≡ entry_empty
      → look c mode now key pool_id n itr slot ctx o ≡ (false, ctx)
  unfolding look
  look_stuck zero itr slot ctx o free state = rw (see_none-keep c ctx ctx.context_state o state)
  look_stuck (suc n) itr slot ctx o free state =
      rw (free, see_empty-keep ctx ctx.context_state slot state)
        (look_stuck n (itr + 1) slot ctx o free state)

  -- How a get that returned `r` misses, where a put would end its search at `p`.
  pub data Misses (ctx : CacheContext) (r : Bool × CacheContext) (p : Place) : Type 0 where
    at_empty :
        (s : ℕ)
        → p ≡ free_at s
        → is_empty (at_slot c.hash_table s) ≡ true
        → r.1.context_state ≡ entry_empty
        → r.1.context_entry.index ≡ s
        → Misses ctx r p
    at_oldest :
        (o : Oldest) (s : ℕ)
        → p ≡ evict o s
        → r.1 ≡ see_none c ctx entry_not_found o
        → Misses ctx r p

  pub look-Misses :
      (n itr slot : ℕ) (ctx : CacheContext) (o : Oldest)
      → ctx.context_state ≡ entry_not_found
      → (look c mode now key pool_id n itr slot ctx o).0 ≡ false
      → Misses ctx (look c mode now key pool_id n itr slot ctx o) (place c key pool_id n itr slot o)
  unfolding look place
  look-Misses zero itr slot ctx o state miss = at_oldest o slot refl (rw state)
  look-Misses (suc n) itr slot ctx o state miss =
      let e = at_slot c.hash_table slot in
      elim (Bool-cases (is_empty e)) [
        | inl free ↦
            let seen = see_empty ctx entry_not_found slot in
            let stuck = look_stuck n (itr + 1) slot seen o free refl in
            rw (free, state, stuck) (at_empty slot refl free refl refl)
        | inr busy ↦ elim (Bool-cases (entry_compare e key pool_id)) [
          | inl same ↦ absurd (ground arith)
          | inr other ↦
              rw (busy, other)
                (look-Misses n (itr + 1) (next_slot c key pool_id itr) ctx
                  (eviction_insert o e.ts slot) state (rw (busy, other) at miss))
        ]
      ]
