-- ===== src/Cache/RoundTrip.antt =====
-- What `kv_cache_get` sees after `kv_cache_put`.
use nvmkv.Prelude.{
  ℕ, zero, suc, ◌+◌, ◌<◌, ◌≡◌, ◌⊎◌, Bool, true, false, none, some, List, ◌∷◌, arith, ◌==◌,
  if◌then◌else◌, length, get_or-set, Bool-cases, inl, inr, refl, sym, ◌∙◌,
}
use nvmkv.Cache.{
  CacheEntry, CacheContext, KvCache, PutArgs, at_slot, cleared, is_empty, entry_compare, entry_set,
  first_slot, next_slot, Oldest, eviction_insert, Place, free_at, evict, place, write_slot,
  store_at,
}
use nvmkv.Cache.Entry.{entry_compare_iff}
use nvmkv.Cache.Get.{look, found_context, zero_context}
use nvmkv.Cache.Index.{PlaceIn}

-- The cache after an entry `e` for the key was written to slot `t`.
module _ (c : KvCache) (key : List ℕ) (pool_id t : ℕ) (e : CacheEntry)
    (inside : t < length c.hash_table) (used : is_empty e ≡ false)
    (same : entry_compare e key pool_id ≡ true) (mode now : ℕ) where
  abbrev written : KvCache
  written = write_slot c t e

  read_written :
      (s : ℕ) → at_slot written.hash_table s ≡ (if t == s then e else at_slot c.hash_table s)
  read_written s = get_or-set c.hash_table t s e (cleared 0) inside

  next_slot-written : (n : ℕ) → next_slot written key pool_id n ≡ next_slot c key pool_id n
  unfolding next_slot
  next_slot-written n = refl

  -- A search that stands at the slot finds the entry.
  look_here :
      (n itr slot : ℕ) (ctx : CacheContext) (o : Oldest)
      → t ≡ slot
      → look written mode now key pool_id (suc n) itr slot ctx o ≡ (true, found_context mode now e)
  unfolding look
  look_here n itr slot ctx o h =
      let here : (t == slot) ≡ true = ground arith in rw (read_written slot, here, used, same)

  -- A search that passes another slot, which the old cache passes too, goes on to the next.
  look_past :
      (n itr slot : ℕ) (ctx : CacheContext) (o : Oldest)
      → (t == slot) ≡ false
      → is_empty (at_slot c.hash_table slot) ≡ false
      → entry_compare (at_slot c.hash_table slot) key pool_id ≡ false
      → look written mode now key pool_id (suc n) itr slot ctx o
        ≡ look written mode now key pool_id n
            (itr + 1)
            (next_slot c key pool_id itr)
            ctx
            (eviction_insert o (at_slot c.hash_table slot).ts slot)
  unfolding look
  look_past n itr slot ctx o away busy other =
      rw (read_written slot, away, busy, other, next_slot-written itr)

  -- Where the search of a put ends at the slot, the search of a get finds the entry there.
  free-look :
      (n itr slot : ℕ) (ctx : CacheContext) (o o' : Oldest)
      → place c key pool_id n itr slot o ≡ free_at t
      → look written mode now key pool_id n itr slot ctx o' ≡ (true, found_context mode now e)
  unfolding place
  free-look zero itr slot ctx o o' h = cc
  free-look (suc n) itr slot ctx o o' h = elim (Bool-cases (t == slot)) [
    | inl at ↦ look_here n itr slot ctx o' (ground arith)
    | inr away ↦
        let old = at_slot c.hash_table slot in
        let busy : is_empty old ≡ false = ground arith in
        let other : entry_compare old key pool_id ≡ false = ground arith in
        look_past n itr slot ctx o' away busy other
        ∙ free-look n (itr + 1) (next_slot c key pool_id itr) ctx (eviction_insert o old.ts slot)
            (eviction_insert o' old.ts slot) (ground arith)
  ]

  oldest_here :
      (o : Oldest) (ts' slot ts : ℕ)
      → eviction_insert o ts' slot ≡ some (ts, t)
      → (o ≡ some (ts, t)) ⊎ (t ≡ slot)
  unfolding eviction_insert
  oldest_here none ts' slot ts h = inr (ground arith)
  oldest_here (some (u, s)) ts' slot ts h = ground arith

  -- Where a put evicts the slot, the slot was seen before the search, or a get finds the entry there.
  evict-look :
      (n itr slot : ℕ) (ctx : CacheContext) (o o' : Oldest) (ts s' : ℕ)
      → place c key pool_id n itr slot o ≡ evict (some (ts, t)) s'
      → (o ≡ some (ts, t))
        ⊎ (look written mode now key pool_id n itr slot ctx o' ≡ (true, found_context mode now e))
  unfolding place
  evict-look zero itr slot ctx o o' ts s' h = inl (cc)
  evict-look (suc n) itr slot ctx o o' ts s' h = elim (Bool-cases (t == slot)) [
    | inl at ↦ inr (look_here n itr slot ctx o' (ground arith))
    | inr away ↦
        let old = at_slot c.hash_table slot in
        let busy : is_empty old ≡ false = ground arith in
        let other : entry_compare old key pool_id ≡ false = ground arith in
        elim (evict-look n (itr + 1) (next_slot c key pool_id itr) ctx
          (eviction_insert o old.ts slot) (eviction_insert o' old.ts slot) ts s' (ground arith)) [
            | inl seen ↦ elim (oldest_here o old.ts slot ts seen) [
              | inl before ↦ inl before
              | inr at ↦ absurd (ground arith)
            ]
            | inr found ↦ inr (look_past n itr slot ctx o' away busy other ∙ found)
          ]
  ]

insert-ne-none : (o : Oldest) (ts slot : ℕ) → eviction_insert o ts slot ≡ none → ⊥
unfolding eviction_insert
insert-ne-none none ts slot h = cc
insert-ne-none (some (u, s)) ts slot h = ground arith

-- A search of at least one round that ends in an eviction has something to evict.
pub never_empty :
    (c : KvCache) (key : List ℕ) (pool_id n itr slot s : ℕ) (o : Oldest)
    → place c key pool_id n itr slot o ≡ evict none s
    → (o ≡ none) × (n ≡ 0)
unfolding place
never_empty c key pool_id zero itr slot s o h = (cc, refl)
never_empty c key pool_id (suc n) itr slot s o h =
    let old = at_slot c.hash_table slot in
    let rest =
      never_empty c key pool_id n (itr + 1) (next_slot c key pool_id itr) s
        (eviction_insert o old.ts slot) (ground arith) in
    absurd (insert-ne-none o old.ts slot rest.0)

module _ (c : KvCache) (a : PutArgs) (b : ℕ) (bs : List ℕ) (named : a.key ≡ b ∷ bs) (now : ℕ) where
  set_used : (e : CacheEntry) → is_empty (entry_set e a now) ≡ false
  unfolding is_empty entry_set
  set_used e = rw named (ground arith)

  set_same : (e : CacheEntry) → entry_compare (entry_set e a now) (b ∷ bs) a.pool_id ≡ true
  unfolding entry_set
  set_same e = (entry_compare_iff _ (b ∷ bs) a.pool_id).1 (named, refl)

  -- What `kv_cache_get` returns for an entry that `entry_set` wrote to slot `i`.
  abbrev pub Returned : ℕ → ℕ → ℕ → Bool × CacheContext → Type 0
  Returned mode later i r = r ≡ (true, found_context mode later (entry_set (cleared i) a now))

  pub store_at-look :
      (p : Place) (mode later : ℕ)
      → p ≡ place c (b ∷ bs) a.pool_id 8 0 (first_slot c (b ∷ bs) a.pool_id) none
      → PlaceIn (length c.hash_table) p
      → (i : ℕ) × Returned mode later i (
          look
            (store_at c a now p)
            mode
            later
            (b ∷ bs)
            a.pool_id
            8
            0
            (first_slot c (b ∷ bs) a.pool_id)
            zero_context
            none)
  unfolding store_at
  store_at-look (free_at t) mode later e inside =
      let old = at_slot c.hash_table t in
      (
        old.index,
        free-look c (b ∷ bs) a.pool_id t (entry_set old a now) inside (set_used old) (set_same old)
              mode later 8 0 (first_slot c (b ∷ bs) a.pool_id) zero_context none none (sym e)
            ∙ unfold entry_set in refl,
      )
  store_at-look (evict none s) mode later e inside =
      absurd (ground (arith, never_empty c (b ∷ bs) a.pool_id 8 0 _ s none (sym e)))
  store_at-look (evict (some (ts, t)) s) mode later e inside =
      let old = cleared (at_slot c.hash_table t).index in
      (
        old.index,
        elim (evict-look c (b ∷ bs) a.pool_id t (entry_set old a now) inside.0 (set_used old)
            (set_same old) mode later 8 0 (first_slot c (b ∷ bs) a.pool_id) zero_context none none
            ts s (sym e)) [ inl none_seen ↦ absurd (cc none_seen) | inr found ↦ found ],
      )
