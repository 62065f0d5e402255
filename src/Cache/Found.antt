-- ===== src/Cache/Found.antt =====
-- A get of src/kv_cache.cpp that finds its key, and the deletion of what it found.
use nvmkv.Prelude.{
  ℕ, zero, suc, ◌+◌, ◌^◌, ◌<◌, ◌≡◌, Bool, true, false, Option, some, List, ◌∷◌, arith, length,
  Bool-cases, inl, inr, refl,
}
use nvmkv.Cache.{
  CacheContext, KvCache, at_slot, is_empty, entry_compare, next_slot, Oldest, eviction_insert,
}
use nvmkv.Cache.Get.{look, found_context, see_empty}
use nvmkv.Cache.Delete.{find_slot}
use nvmkv.Cache.Index.{IsWellFormed, next_slot-lt}

module _ (c : KvCache) (mode now : ℕ) (key : List ℕ) (pool_id : ℕ) where
  -- A search that stands at an empty slot finds nothing any more.
  look_empty :
      (n itr slot : ℕ) (ctx : CacheContext) (o : Oldest)
      → is_empty (at_slot c.hash_table slot) ≡ true
      → (look c mode now key pool_id n itr slot ctx o).0 ≡ false
  unfolding look
  look_empty zero itr slot ctx o free = refl
  look_empty (suc n) itr slot ctx o free =
      rw free (look_empty n (itr + 1) slot (see_empty ctx ctx.context_state slot) o free)

  -- What a search that found something found, and that a deletion goes to the same slot.
  pub record Finds (r : Bool × CacheContext) (found : Option ℕ) : Type 0 where
    pub slot : ℕ
    pub deleted : found ≡ some slot
    pub seen : r ≡ (true, found_context mode now (at_slot c.hash_table slot))
    pub same : entry_compare (at_slot c.hash_table slot) key pool_id ≡ true

  pub look-Finds :
      (n itr slot : ℕ) (ctx : CacheContext) (o : Oldest)
      → (look c mode now key pool_id n itr slot ctx o).0 ≡ true
      → Finds (look c mode now key pool_id n itr slot ctx o) (find_slot c key pool_id n itr slot)
  unfolding look find_slot
  look-Finds zero itr slot ctx o hit = cc
  look-Finds (suc n) itr slot ctx o hit =
      let e = at_slot c.hash_table slot in
      elim (Bool-cases (is_empty e)) [
        | inl free ↦ absurd (ground (arith, look_empty (suc n) itr slot ctx o free))
        | inr busy ↦ elim (Bool-cases (entry_compare e key pool_id)) [
          | inl same ↦
              rw (busy, same) (record { slot = slot; deleted = refl; seen = refl; same = same })
          | inr other ↦
              rw (busy, other)
                (look-Finds n (itr + 1) (next_slot c key pool_id itr) ctx
                  (eviction_insert o e.ts slot) (rw (busy, other) at hit))
        ]
      ]

pub find_slot-lt :
    {c : KvCache}
    → IsWellFormed c
    → (b : ℕ) (bs : List ℕ) (pool_id n itr slot s : ℕ) → itr + n < 2 ^ 32
    → slot < length c.hash_table
    → find_slot c (b ∷ bs) pool_id n itr slot ≡ some s
    → s < length c.hash_table
unfolding find_slot
find_slot-lt good b bs pool_id zero itr slot s few lt h = cc
find_slot-lt {c} good b bs pool_id (suc n) itr slot s few lt h =
    elim (Bool-cases (entry_compare (at_slot c.hash_table slot) (b ∷ bs) pool_id)) [
      | inl same ↦ ground arith
      | inr other ↦
          find_slot-lt good b bs pool_id n (itr + 1) (next_slot c (b ∷ bs) pool_id itr) s
            (omega arith) (next_slot-lt good b bs pool_id itr (omega arith)) (ground arith)
    ]

pub find_slot-same :
    (c : KvCache) (key : List ℕ) (pool_id n itr slot s : ℕ)
    → find_slot c key pool_id n itr slot ≡ some s
    → entry_compare (at_slot c.hash_table s) key pool_id ≡ true
unfolding find_slot
find_slot-same c key pool_id zero itr slot s h = cc
find_slot-same c key pool_id (suc n) itr slot s h =
    elim (Bool-cases (entry_compare (at_slot c.hash_table slot) key pool_id)) [
      | inl same ↦ ground arith
      | inr other ↦
          find_slot-same c key pool_id n (itr + 1) (next_slot c key pool_id itr) s (ground arith)
    ]
