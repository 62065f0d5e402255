-- ===== src/Cache/Deletion.antt =====
-- `kv_cache_delete` of src/kv_cache.cpp: what it returns and what it leaves.
use nvmkv.Prelude.{
  ℕ, ◌<◌, ◌≡◌, Bool, true, Option, none, some, List, ◌∷◌, arith, ◌==◌, if◌then◌else◌, length,
  Option-cases, inl, inr, refl, ap, sym, ◌∙◌, get_or-set,
}
use nvmkv.Cache.{
  CacheEntry, CacheContext, KvCache, at_slot, cleared, entry_compare, first_slot, write_slot,
}
use nvmkv.Cache.Get.{found_context, kv_cache_get, zero_context}
use nvmkv.Cache.Delete.{find_slot, kv_cache_delete}
use nvmkv.Cache.Index.{IsWellFormed, first_slot-lt}
use nvmkv.Cache.Found.{look-Finds, find_slot-lt, find_slot-same}
use nvmkv.Cache.Put.{get_from}

-- The two ways in which `kv_cache_delete` returns.
module _ (c : KvCache) (key : List ℕ) (pool_id : ℕ) where
  pub delete_none :
      find_slot c key pool_id 8 0 (first_slot c key pool_id) ≡ none
      → kv_cache_delete c key pool_id ≡ (none, c)
  unfolding kv_cache_delete
  delete_none h = ground (arith, h)

  pub delete_some :
      (s : ℕ)
      → find_slot c key pool_id 8 0 (first_slot c key pool_id) ≡ some s
      → kv_cache_delete c key pool_id
        ≡ (some (at_slot c.hash_table s), write_slot c s (cleared (at_slot c.hash_table s).index))
  unfolding kv_cache_delete
  delete_some s h = ground (arith, h)

-- What a deletion that returned `r` did: it removed the entry that it returns, which held the key and
-- the pool, and touched no other slot; or it changed nothing.
pub data Deletes (c : KvCache) (key : List ℕ) (pool_id : ℕ) (r : Option CacheEntry × KvCache)
    : Type 0 where
  removed :
      (s : ℕ)
      → s < length c.hash_table
      → entry_compare (at_slot c.hash_table s) key pool_id ≡ true
      → r.0 ≡ some (at_slot c.hash_table s)
      → ((i : ℕ)
          → at_slot r.1.hash_table i ≡ (if s == i then cleared s else at_slot c.hash_table i))
      → Deletes c key pool_id r
  absent : r ≡ (none, c) → Deletes c key pool_id r

-- In a well-formed cache and for a key that is not empty, kv_cache_delete removes and returns an
-- entry that holds the key and the pool and leaves every other slot as it is, or reports that it
-- found none and changes nothing.
pub kv_cache_delete-Deletes :
    (c : KvCache) (b : ℕ) (bs : List ℕ) (pool_id : ℕ)
    → IsWellFormed c
    → Deletes c (b ∷ bs) pool_id (kv_cache_delete c (b ∷ bs) pool_id)
kv_cache_delete-Deletes c b bs pool_id good =
    let start = first_slot c (b ∷ bs) pool_id in
    elim (Option-cases (find_slot c (b ∷ bs) pool_id 8 0 start)) [
      | inl lost ↦ absent (delete_none c (b ∷ bs) pool_id lost)
      | inr (s, found) ↦
          let done = delete_some c (b ∷ bs) pool_id s found in
          let inside =
            find_slot-lt good b bs pool_id 8 0 start s (omega arith)
              (first_slot-lt good b bs pool_id) found in
          let same = find_slot-same c (b ∷ bs) pool_id 8 0 start s found in
          removed s inside same (ap (λ (r : Option CacheEntry × KvCache). r.0) done) (λ i.
            ap (λ (r : Option CacheEntry × KvCache). at_slot r.1.hash_table i) done
            ∙ get_or-set c.hash_table s i (cleared (at_slot c.hash_table s).index) (cleared 0)
                inside
            ∙ ap (λ (n : ℕ). if s == i then cleared n else at_slot c.hash_table i)
                (good.knows_slot s inside))
    ]

-- kv_cache_delete removes and returns the entry that kv_cache_get finds.
pub kv_cache_delete-get :
    (c : KvCache) (key : List ℕ) (pool_id mode now : ℕ)
    → (kv_cache_get c mode now key pool_id).0 ≡ true
    → (kv_cache_delete c key pool_id).0
      ≡ some ((kv_cache_get c mode now key pool_id).1.context_entry)
kv_cache_delete-get c key pool_id mode now hit =
    let searched = get_from c mode now key pool_id (first_slot c key pool_id) refl in
    let finds =
      look-Finds c mode now key pool_id 8 0 (first_slot c key pool_id) zero_context none
        (sym (ap (λ (r : Bool × CacheContext). r.0) searched) ∙ hit) in
    ap (λ (r : Option CacheEntry × KvCache). r.0)
      (delete_some c key pool_id (finds.slot) (finds.deleted))
    ∙ unfold found_context in
      ap (λ (r : Bool × CacheContext). some (r.1.context_entry)) (sym (searched ∙ finds.seen))
