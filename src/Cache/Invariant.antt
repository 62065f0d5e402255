-- ===== src/Cache/Invariant.antt =====
-- The caches that the operations of src/kv_cache.cpp can reach.
use mathlib.Core.Path.{subst}
use nvmkv.Prelude.{
  ℕ, ◌<◌, ◌≡◌, Bool, not, Option, none, some, List, [], ◌∷◌, arith, ◌==◌, length, Option-cases,
  Bool-cases, inl, inr, refl, ap, sym, ◌∙◌, ◌&&◌,
}
use nvmkv.Cache.{
  CacheEntry, CacheContext, EntryState, entry_not_found, entry_empty, entry_found, entry_delete,
  KvCache, PutArgs, at_slot, cleared, is_empty, entry_compare, entries_compare, entry_set,
  first_slot, write_slot, place, put_hashed, put_context, kv_cache_put,
}
use nvmkv.Cache.Delete.{
  sweep, sweep_table, find_slot, kv_cache_delete, kv_cache_delete_lbas, kv_cache_delete_pools,
  kv_cache_delete_all_pools, kv_cache_delete_all,
}
use nvmkv.Cache.Index.{IsWellFormed, first_slot-lt, place-PlaceIn}
use nvmkv.Cache.Found.{find_slot-lt}
use nvmkv.Cache.Sweep.{length-sweep, slot-sweep}
use nvmkv.Cache.Keeps.{
  replace_table, write_slot-IsWellFormed, store_at-IsWellFormed, entry_set-index,
}
use nvmkv.Cache.Put.{put_named}
use nvmkv.Cache.Context.{put_with, put_searched}
use nvmkv.Cache.Deletion.{delete_none, delete_some}

sweep_table-IsWellFormed :
    {c : KvCache} → IsWellFormed c → (drop : CacheEntry → Bool) → IsWellFormed (sweep_table c drop)
sweep_table-IsWellFormed {c} good drop =
    replace_table good (sweep drop 0 c.hash_table) (length-sweep drop 0 c.hash_table) (λ i lt.
      ap (λ (x : CacheEntry). x.index) (slot-sweep drop i c.hash_table lt)
      ∙ elim (Bool-cases
          (not (is_empty (at_slot c.hash_table i)) && drop (at_slot c.hash_table i))) [
            | inl gone ↦ rw gone refl
            | inr kept ↦ rw kept (good.knows_slot i lt)
          ])

delete_lbas-IsWellFormed :
    (lbas : List ℕ) {c : KvCache} → IsWellFormed c → IsWellFormed (kv_cache_delete_lbas c lbas)
unfolding kv_cache_delete_lbas
delete_lbas-IsWellFormed [] good = good
delete_lbas-IsWellFormed (l ∷ ls) good =
    delete_lbas-IsWellFormed ls (sweep_table-IsWellFormed good (λ e. e.lba == l))

put_hashed-IsWellFormed :
    {c : KvCache}
    → IsWellFormed c
    → (a : PutArgs) (b : ℕ) (bs : List ℕ) (now : ℕ) → a.key ≡ b ∷ bs
    → IsWellFormed (put_hashed c a now)
put_hashed-IsWellFormed {c} good a b bs now named =
    let start = first_slot c (b ∷ bs) a.pool_id in
    let p = place c (b ∷ bs) a.pool_id 8 0 start none in
    subst (λ (c' : KvCache). IsWellFormed c') (sym (put_named c a (b ∷ bs) now named))
      (store_at-IsWellFormed good a now p (
        place-PlaceIn good b bs a.pool_id 8 0 start none (omega arith)
          (first_slot-lt good b bs a.pool_id) tt))

-- A put that its context leads to a slot.
put_context-IsWellFormed :
    {c : KvCache}
    → IsWellFormed c
    → (a : PutArgs) (ctx : CacheContext) (now : ℕ) (st : EntryState)
    → ctx.context_entry.index < length c.hash_table
    → (c' : KvCache) → put_context st ctx c a now ≡ some c'
    → IsWellFormed c'
unfolding put_context
put_context-IsWellFormed good a ctx now entry_not_found inside c' h = cc
put_context-IsWellFormed {c} good a ctx now entry_found inside c' h =
    let s = ctx.context_entry.index in
    let e = at_slot c.hash_table s in
    elim (Bool-cases (entry_compare e a.key a.pool_id)) [
      | inl same ↦
          subst (λ (x : KvCache). IsWellFormed x)
            (let e' : write_slot c s (record e { value_len = a.value_len; ts = now }) ≡ c' =
                ground arith in
              e')
            (write_slot-IsWellFormed good s _ inside (good.knows_slot s inside))
      | inr other ↦ absurd (ground arith)
    ]
put_context-IsWellFormed {c} good a ctx now entry_empty inside c' h =
    let s = ctx.context_entry.index in
    let e = at_slot c.hash_table s in
    elim (Bool-cases (is_empty e)) [
      | inl free ↦
          subst (λ (x : KvCache). IsWellFormed x)
            (let e' : write_slot c s (entry_set e a now) ≡ c' = ground arith in e')
            (write_slot-IsWellFormed good s _ inside
              (entry_set-index e a now ∙ good.knows_slot s inside))
      | inr used ↦ absurd (ground arith)
    ]
put_context-IsWellFormed {c} good a ctx now entry_delete inside c' h =
    let s = ctx.context_entry.index in
    let e = at_slot c.hash_table s in
    elim (Bool-cases (entries_compare e ctx.context_entry)) [
      | inl same ↦
          subst (λ (x : KvCache). IsWellFormed x)
            (let e' : write_slot c s (entry_set e a now) ≡ c' = ground arith in e')
            (write_slot-IsWellFormed good s _ inside
              (entry_set-index e a now ∙ good.knows_slot s inside))
      | inr other ↦ absurd (ground arith)
    ]

put-IsWellFormed :
    {c : KvCache}
    → IsWellFormed c
    → (a : PutArgs) (b : ℕ) (bs : List ℕ) (ctx : CacheContext) (now : ℕ) → a.key ≡ b ∷ bs
    → ctx.context_entry.index < length c.hash_table
    → IsWellFormed (kv_cache_put c a (some ctx) now)
put-IsWellFormed {c} good a b bs ctx now named inside =
    elim (Option-cases (put_context ctx.context_state ctx c a now)) [
      | inl searched ↦
          subst (λ (x : KvCache). IsWellFormed x) (sym (put_searched c a ctx now searched))
            (put_hashed-IsWellFormed good a b bs now named)
      | inr (c', done) ↦
          subst (λ (x : KvCache). IsWellFormed x) (sym (put_with c c' a ctx now done))
            (put_context-IsWellFormed good a ctx now ctx.context_state inside c' done)
    ]

delete-IsWellFormed :
    {c : KvCache}
    → IsWellFormed c
    → (b : ℕ) (bs : List ℕ) (pool_id : ℕ) → IsWellFormed ((kv_cache_delete c (b ∷ bs) pool_id).1)
delete-IsWellFormed {c} good b bs pool_id =
    let start = first_slot c (b ∷ bs) pool_id in
    elim (Option-cases (find_slot c (b ∷ bs) pool_id 8 0 start)) [
      | inl lost ↦
          subst (λ (r : Option CacheEntry × KvCache). IsWellFormed (r.1))
            (sym (delete_none c (b ∷ bs) pool_id lost)) good
      | inr (s, found) ↦
          let inside =
            find_slot-lt good b bs pool_id 8 0 start s (omega arith)
              (first_slot-lt good b bs pool_id) found in
          subst (λ (r : Option CacheEntry × KvCache). IsWellFormed (r.1))
            (sym (delete_some c (b ∷ bs) pool_id s found))
            (write_slot-IsWellFormed good s (cleared (at_slot c.hash_table s).index) inside
              (good.knows_slot s inside))
    ]

-- One call that changes the cache. Keys are not empty, and a context names a slot of the table.
pub data CacheStep (c : KvCache) : KvCache → Type 0 where
  put_step :
      (a : PutArgs) (b : ℕ) (bs : List ℕ) (now : ℕ)
      → a.key ≡ b ∷ bs
      → CacheStep c (kv_cache_put c a none now)
  put_context_step :
      (a : PutArgs) (b : ℕ) (bs : List ℕ) (ctx : CacheContext) (now : ℕ)
      → a.key ≡ b ∷ bs
      → ctx.context_entry.index < length c.hash_table
      → CacheStep c (kv_cache_put c a (some ctx) now)
  delete_step :
      (b : ℕ) (bs : List ℕ) (pool_id : ℕ) → CacheStep c ((kv_cache_delete c (b ∷ bs) pool_id).1)
  delete_lbas_step : (lbas : List ℕ) → CacheStep c (kv_cache_delete_lbas c lbas)
  delete_pools_step : (pool_ids : List ℕ) → CacheStep c (kv_cache_delete_pools c pool_ids)
  delete_all_pools_step : CacheStep c (kv_cache_delete_all_pools c)
  delete_all_step : CacheStep c (kv_cache_delete_all c)

step-IsWellFormed : {c c' : KvCache} → IsWellFormed c → CacheStep c c' → IsWellFormed c'
unfolding kv_cache_put kv_cache_delete_pools kv_cache_delete_all_pools kv_cache_delete_all
step-IsWellFormed good (put_step a b bs now named) = put_hashed-IsWellFormed good a b bs now named
step-IsWellFormed good (put_context_step a b bs ctx now named inside) =
    put-IsWellFormed good a b bs ctx now named inside
step-IsWellFormed good (delete_step b bs pool_id) = delete-IsWellFormed good b bs pool_id
step-IsWellFormed good (delete_lbas_step lbas) = delete_lbas-IsWellFormed lbas good
step-IsWellFormed good (delete_pools_step pool_ids) = sweep_table-IsWellFormed good _
step-IsWellFormed good delete_all_pools_step = sweep_table-IsWellFormed good _
step-IsWellFormed good delete_all_step = sweep_table-IsWellFormed good _

pub data Reaches (c : KvCache) : KvCache → Type 0 where
  here : Reaches c c
  then_step : {c' c'' : KvCache} → Reaches c c' → CacheStep c' c'' → Reaches c c''

-- Every sequence of puts, with contexts that name a slot of the table or without, and of deletions
-- of all kinds, for keys that are not empty, keeps a cache well-formed.
pub Reaches-IsWellFormed : {c c' : KvCache} → IsWellFormed c → Reaches c c' → IsWellFormed c'
Reaches-IsWellFormed good here = good
Reaches-IsWellFormed good (then_step before step) =
    step-IsWellFormed (Reaches-IsWellFormed good before) step
