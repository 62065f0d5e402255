-- ===== src/Cache/Keeps.antt =====
-- Writes to single slots of the cache of src/kv_cache.cpp.
use nvmkv.Prelude.{
  ℕ, ◌<◌, ◌≡◌, none, some, List, arith, ◌==◌, length, get_or-set, length-set, set, refl, ap, ◌∙◌,
  Bool-cases, inl, inr,
}
use nvmkv.Cache.{
  CacheEntry, KvCache, PutArgs, cleared, at_slot, entry_set, write_slot, store_at, Place, free_at,
  evict,
}
use nvmkv.Cache.Index.{IsWellFormed, PlaceIn}

pub replace_table :
    {c : KvCache}
    → IsWellFormed c
    → (t : List CacheEntry) → length t ≡ length c.hash_table
    → ((i : ℕ) → i < length c.hash_table → (at_slot t i).index ≡ i)
    → IsWellFormed (record c { hash_table = t })
replace_table good t same knows = record {
  size = same ∙ good.size;
  indexing = good.indexing;
  knows_slot = λ i lt. knows i (rw (← same) lt);
}

pub write_slot-IsWellFormed :
    {c : KvCache}
    → IsWellFormed c
    → (s : ℕ) (e : CacheEntry) → s < length c.hash_table
    → e.index ≡ s
    → IsWellFormed (write_slot c s e)
write_slot-IsWellFormed {c} good s e inside at =
    replace_table good (set c.hash_table s e) (length-set c.hash_table s e) (λ i lt.
      ap (λ (x : CacheEntry). x.index) (get_or-set c.hash_table s i e (cleared 0) inside)
      ∙ elim (Bool-cases (s == i)) [
        | inl same ↦ rw same (ground arith)
        | inr other ↦ rw other (good.knows_slot i lt)
      ])

pub entry_set-index : (e : CacheEntry) (a : PutArgs) (now : ℕ) → (entry_set e a now).index ≡ e.index
unfolding entry_set
entry_set-index e a now = refl

pub store_at-IsWellFormed :
    {c : KvCache}
    → IsWellFormed c
    → (a : PutArgs) (now : ℕ) (p : Place) → PlaceIn (length c.hash_table) p
    → IsWellFormed (store_at c a now p)
unfolding store_at
store_at-IsWellFormed {c} good a now (free_at s) inside =
    let e = at_slot c.hash_table s in
    write_slot-IsWellFormed good s (entry_set e a now) inside
      (entry_set-index e a now ∙ good.knows_slot s inside)
store_at-IsWellFormed {c} good a now (evict none s) inside =
    let e = at_slot c.hash_table s in
    write_slot-IsWellFormed good s (entry_set e a now) (inside.1)
      (entry_set-index e a now ∙ good.knows_slot s (inside.1))
store_at-IsWellFormed {c} good a now (evict (some (ts, t)) s) inside =
    let e = cleared (at_slot c.hash_table t).index in
    write_slot-IsWellFormed good t (entry_set e a now) (inside.0)
      (entry_set-index e a now ∙ good.knows_slot t (inside.0))
