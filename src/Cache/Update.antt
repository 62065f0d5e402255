-- ===== src/Cache/Update.antt =====
-- `kv_cache_put` of src/kv_cache.cpp with the context of a `kv_cache_get` that found the key.
use mathlib.Core.Path.{subst}
use nvmkv.Prelude.{ℕ, ◌≡◌, Bool, true, none, some, List, ◌∷◌, arith, refl, ap, sym, ◌∙◌}
use nvmkv.Cache.{
  CacheEntry, CacheContext, EntryState, entry_found, KvCache, PutArgs, at_slot, entry_compare,
  first_slot, write_slot, put_context, kv_cache_put,
}
use nvmkv.Cache.Get.{found_context, kv_cache_get, zero_context}
use nvmkv.Cache.Index.{IsWellFormed, first_slot-lt}
use nvmkv.Cache.Found.{look-Finds, find_slot-lt}
use nvmkv.Cache.Put.{get_from}
use nvmkv.Cache.Context.{put_with}

put_found :
    (c : KvCache) (a : PutArgs) (ctx : CacheContext) (now : ℕ) (st : EntryState)
    → st ≡ entry_found
    → entry_compare (at_slot c.hash_table ctx.context_entry.index) a.key a.pool_id ≡ true
    → put_context st ctx c a now
      ≡ some (
          write_slot c ctx.context_entry.index
            (record (at_slot c.hash_table ctx.context_entry.index) {
              value_len = a.value_len;
              ts = now;
            }))
unfolding put_context
put_found c a ctx now st state same = rw (state, same) refl

-- In a well-formed cache, a put with the context of a get that found the key, which is not empty,
-- stores the new value length and time in that entry and keeps its LBA, expiry and generation
-- count.
pub put-get_found :
    (c : KvCache) (a : PutArgs) (b : ℕ) (bs : List ℕ) (mode later now : ℕ)
    → IsWellFormed c
    → a.key ≡ b ∷ bs
    → (kv_cache_get c mode later (b ∷ bs) a.pool_id).0 ≡ true
    → let ctx = (kv_cache_get c mode later (b ∷ bs) a.pool_id).1 in
      kv_cache_put c a (some ctx) now
      ≡ write_slot c ctx.context_entry.index
          (record (ctx.context_entry) { value_len = a.value_len; ts = now })
put-get_found c a b bs mode later now good named hit =
    let start = first_slot c (b ∷ bs) a.pool_id in
    let searched = get_from c mode later (b ∷ bs) a.pool_id start refl in
    let finds =
      look-Finds c mode later (b ∷ bs) a.pool_id 8 0 start zero_context none
        (sym (ap (λ (r : Bool × CacheContext). r.0) searched) ∙ hit) in
    let s = finds.slot in
    let e = at_slot c.hash_table s in
    let inside =
      find_slot-lt good b bs a.pool_id 8 0 start s (omega arith) (first_slot-lt good b bs a.pool_id)
        (finds.deleted) in
    let ctx = found_context mode later e in
    let here : at_slot c.hash_table e.index ≡ e =
      ap (at_slot c.hash_table) (good.knows_slot s inside) in
    let same : entry_compare (at_slot c.hash_table e.index) a.key a.pool_id ≡ true =
      rw here (rw named (finds.same)) in
    let same_found : entry_compare (at_slot c.hash_table (ctx.context_entry).index) a.key a.pool_id
        ≡ true =
      unfold found_context in same in
    let put =
      put_with c _ a ctx now (put_found c a ctx now _ (unfold found_context in refl) same_found) in
    let got : kv_cache_get c mode later (b ∷ bs) a.pool_id ≡ (true, ctx) = searched ∙ finds.seen in
    let written : kv_cache_put c a (some ctx) now
        ≡ write_slot c (ctx.context_entry).index
            (record (ctx.context_entry) { value_len = a.value_len; ts = now }) =
      put
      ∙ unfold found_context in
        ap
          (λ (x : CacheEntry).
            write_slot c e.index (record x { value_len = a.value_len; ts = now }))
          here in
    subst
      (λ (r : Bool × CacheContext).
        kv_cache_put c a (some (r.1)) now
        ≡ write_slot c (r.1).context_entry.index
            (record ((r.1).context_entry) { value_len = a.value_len; ts = now }))
      (sym got) written
