-- ===== src/Cache/Put.antt =====
-- `kv_cache_put` of src/kv_cache.cpp without a context, and `kv_cache_get` after it.
use nvmkv.Prelude.{ℕ, ◌≡◌, true, none, some, List, ◌∷◌, arith, refl, ap, ◌∙◌}
use nvmkv.Cache.{
  KvCache, PutArgs, cleared, entry_set, first_slot, Place, free_at, evict, place, put_hashed,
  store_at, kv_cache_put,
}
use nvmkv.Cache.Get.{look, found_context, kv_cache_get, zero_context}
use nvmkv.Cache.Index.{IsWellFormed, first_slot-lt, place-PlaceIn}
use nvmkv.Cache.RoundTrip.{store_at-look}

first_slot-store_at :
    (c : KvCache) (a : PutArgs) (now : ℕ) (p : Place) (key : List ℕ) (pool_id : ℕ)
    → first_slot (store_at c a now p) key pool_id ≡ first_slot c key pool_id
unfolding first_slot store_at
first_slot-store_at c a now (free_at t) key pool_id = refl
first_slot-store_at c a now (evict none t) key pool_id = refl
first_slot-store_at c a now (evict (some (ts, s)) t) key pool_id = refl

pub put_named :
    (c : KvCache) (a : PutArgs) (key : List ℕ) (now : ℕ)
    → a.key ≡ key
    → put_hashed c a now
      ≡ store_at c a now (place c key a.pool_id 8 0 (first_slot c key a.pool_id) none)
unfolding put_hashed
put_named c a key now named =
    ap (λ (k : List ℕ). store_at c a now (place c k a.pool_id 8 0 (first_slot c k a.pool_id) none))
      named

pub get_from :
    (c : KvCache) (mode now : ℕ) (key : List ℕ) (pool_id start : ℕ)
    → first_slot c key pool_id ≡ start
    → kv_cache_get c mode now key pool_id ≡ look c mode now key pool_id 8 0 start zero_context none
unfolding kv_cache_get
get_from c mode now key pool_id start h =
    ap (λ (s : ℕ). look c mode now key pool_id 8 0 s zero_context none) h

-- In a well-formed cache, a get of the key, which is not empty, and the pool of a put without a
-- context finds the entry that was put, with the length, expiry, generation count, LBA and time of
-- the put and the expiry flag that these give.
pub get-put :
    (c : KvCache) (a : PutArgs) (b : ℕ) (bs : List ℕ) (now mode later : ℕ)
    → IsWellFormed c
    → a.key ≡ b ∷ bs
    → (i : ℕ) × (kv_cache_get (kv_cache_put c a none now) mode later (b ∷ bs) a.pool_id
        ≡ (true, found_context mode later (entry_set (cleared i) a now)))
unfolding kv_cache_put
get-put c a b bs now mode later good named =
    let start = first_slot c (b ∷ bs) a.pool_id in
    let p = place c (b ∷ bs) a.pool_id 8 0 start none in
    let inside =
      place-PlaceIn good b bs a.pool_id 8 0 start none (omega arith)
        (first_slot-lt good b bs a.pool_id) tt in
    let (i, found) = store_at-look c a b bs named now p mode later refl inside in
    let searched =
      get_from (store_at c a now p) mode later (b ∷ bs) a.pool_id start
        (first_slot-store_at c a now p (b ∷ bs) a.pool_id) in
    (
      i,
      ap (λ (c' : KvCache). kv_cache_get c' mode later (b ∷ bs) a.pool_id)
            (put_named c a (b ∷ bs) now named)
          ∙ searched
          ∙ found,
    )
