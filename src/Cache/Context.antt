-- ===== src/Cache/Context.antt =====
-- `kv_cache_put` of src/kv_cache.cpp with the context of a `kv_cache_get`.
use nvmkv.Prelude.{
  ℕ, ◌<◌, ◌≡◌, Bool, true, false, none, some, List, ◌∷◌, arith, length, refl, sym, ap, ◌∙◌,
}
use nvmkv.Cache.{
  CacheEntry, CacheContext, EntryState, entry_empty, entry_delete, KvCache, PutArgs, at_slot,
  cleared, is_empty, entries_compare, entry_set, first_slot, Place, free_at, evict, place,
  write_slot, put_hashed, store_at, put_context, kv_cache_put,
}
use mathlib.Core.Path.{subst}
use nvmkv.Cache.Entry.{bytes_eq_refl}
use nvmkv.Cache.Get.{look, kv_cache_get, zero_context, see_none}
use nvmkv.Cache.Index.{IsWellFormed, PlaceIn, place-PlaceIn, first_slot-lt}
use nvmkv.Cache.RoundTrip.{never_empty}
use nvmkv.Cache.Miss.{Misses, at_empty, at_oldest, look-Misses}
use nvmkv.Cache.Put.{put_named, get_from}

put_empty :
    (c : KvCache) (a : PutArgs) (ctx : CacheContext) (now s : ℕ) (st : EntryState)
    → st ≡ entry_empty
    → ctx.context_entry.index ≡ s
    → is_empty (at_slot c.hash_table s) ≡ true
    → put_context st ctx c a now ≡ some (store_at c a now (free_at s))
unfolding put_context store_at
put_empty c a ctx now s st state at free = rw (state, at, free) refl

entries_compare_refl : (e : CacheEntry) → entries_compare e e ≡ true
unfolding entries_compare
entries_compare_refl e = ground (arith, bytes_eq_refl e.key)

entry_set-cleared :
    (e : CacheEntry) (a : PutArgs) (now : ℕ) → entry_set (cleared e.index) a now ≡ entry_set e a now
unfolding entry_set
entry_set-cleared e a now = refl

put_delete :
    (c : KvCache) (a : PutArgs) (ctx : CacheContext) (now t : ℕ) (st : EntryState)
    → st ≡ entry_delete
    → ctx.context_entry.index ≡ t
    → entries_compare (at_slot c.hash_table t) ctx.context_entry ≡ true
    → put_context st ctx c a now ≡ some (write_slot c t (entry_set (at_slot c.hash_table t) a now))
unfolding put_context entries_compare entry_set
put_delete c a ctx now t st state at same = rw (state, at, same) refl

put_oldest :
    (c : KvCache) (a : PutArgs) (ctx : CacheContext) (now ts t s : ℕ) (st : EntryState)
    → st ≡ entry_delete
    → ctx.context_entry ≡ at_slot c.hash_table t
    → (at_slot c.hash_table t).index ≡ t
    → put_context st ctx c a now ≡ some (store_at c a now (evict (some (ts, t)) s))
unfolding store_at
put_oldest c a ctx now ts t s st state old knows =
    let e = at_slot c.hash_table t in
    put_delete c a ctx now t st state (ap (λ (x : CacheEntry). x.index) old ∙ knows)
      (ap (entries_compare e) old ∙ entries_compare_refl e)
    ∙ ap (λ (x : CacheEntry). some (write_slot c t x)) (sym (entry_set-cleared e a now))

-- Where the context of a get leads, by where the search of a put ends.
follow_miss :
    (c : KvCache) (a : PutArgs) (mode later now : ℕ) (r : Bool × CacheContext) (p : Place)
    → PlaceIn (length c.hash_table) p
    → ((i : ℕ) → i < length c.hash_table → (at_slot c.hash_table i).index ≡ i)
    → ((s : ℕ) → p ≡ evict none s → ⊥)
    → Misses c mode later a.key a.pool_id zero_context r p
    → put_context (r.1).context_state (r.1) c a now ≡ some (store_at c a now p)
unfolding see_none
follow_miss c a mode later now r p inside knows some_seen (at_empty s e free state at) =
    put_empty c a (r.1) now s _ state at free
    ∙ ap (λ (q : Place). some (store_at c a now q)) (sym e)
follow_miss c a mode later now r p inside knows some_seen (at_oldest none s e ctx) =
    absurd (some_seen s e)
follow_miss c a mode later now r p inside knows some_seen (at_oldest (some (ts, t)) s e ctx) =
    let lt : t < length c.hash_table = (subst (PlaceIn (length c.hash_table)) e inside).0 in
    put_oldest c a (r.1) now ts t s _ (ap (λ (x : CacheContext). x.context_state) ctx)
      (ap (λ (x : CacheContext). x.context_entry) ctx) (knows t lt)
    ∙ ap (λ (q : Place). some (store_at c a now q)) (sym e)

pub put_with :
    (c c' : KvCache) (a : PutArgs) (ctx : CacheContext) (now : ℕ)
    → put_context ctx.context_state ctx c a now ≡ some c'
    → kv_cache_put c a (some ctx) now ≡ c'
unfolding kv_cache_put
put_with c c' a ctx now h = ground (arith, h)

pub put_searched :
    (c : KvCache) (a : PutArgs) (ctx : CacheContext) (now : ℕ)
    → put_context ctx.context_state ctx c a now ≡ none
    → kv_cache_put c a (some ctx) now ≡ put_hashed c a now
unfolding kv_cache_put
put_searched c a ctx now h = ground (arith, h)

-- In a well-formed cache, a put of a key that is not empty with the context of a get that did not
-- find it changes the cache exactly as the put without a context does.
pub put-get_miss :
    (c : KvCache) (a : PutArgs) (b : ℕ) (bs : List ℕ) (mode later now : ℕ)
    → IsWellFormed c
    → a.key ≡ b ∷ bs
    → (kv_cache_get c mode later a.key a.pool_id).0 ≡ false
    → kv_cache_put c a (some ((kv_cache_get c mode later a.key a.pool_id).1)) now
      ≡ kv_cache_put c a none now
unfolding kv_cache_put
put-get_miss c a b bs mode later now good named missed =
    let start = first_slot c a.key a.pool_id in
    let p = place c a.key a.pool_id 8 0 start none in
    let r = look c mode later a.key a.pool_id 8 0 start zero_context none in
    let searched = get_from c mode later a.key a.pool_id start refl in
    let inside : PlaceIn (length c.hash_table) p =
      subst
        (λ (k : List ℕ).
          PlaceIn (length c.hash_table) (place c k a.pool_id 8 0 (first_slot c k a.pool_id) none))
        (sym named)
        (place-PlaceIn good b bs a.pool_id 8 0 (first_slot c (b ∷ bs) a.pool_id) none (omega arith)
          (first_slot-lt good b bs a.pool_id) tt) in
    let some_seen : (s : ℕ) → p ≡ evict none s → ⊥ =
      λ s e. ground (arith, never_empty c a.key a.pool_id 8 0 start s none e) in
    let lost : r.0 ≡ false = sym (ap (λ (x : Bool × CacheContext). x.0) searched) ∙ missed in
    let follows =
      follow_miss c a mode later now r p inside (good.knows_slot) some_seen
        (look-Misses c mode later a.key a.pool_id 8 0 start zero_context none refl lost) in
    ap (λ (x : Bool × CacheContext). kv_cache_put c a (some (x.1)) now) searched
    ∙ put_with c (store_at c a now p) a (r.1) now follows
    ∙ sym (put_named c a a.key now refl)
