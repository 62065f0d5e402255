-- ===== src/Cache/Index.antt =====
-- Well-formed caches of src/kv_cache.cpp: the table has `2 ^ cache_addr_bits` entries, each entry
-- knows its slot, and the hash function probes the index space of the table; and the slots of a
-- search.
use nvmkv.Prelude.{
  ℕ, zero, suc, ◌+◌, ◌^◌, ◌<◌, ◌≤◌, ◌≡◌, false, none, some, List, ◌∷◌, arith, ltb, length,
  Bool-cases, inl, inr,
}
use native.Mathlib.Nat.{pow-le-pow_right}
use nvmkv.Hash.Fold.{key_hash-lt}
use nvmkv.Hash.Probe.{IsIndexing, resolve_coll-lt}
use nvmkv.Hash.{key_hash}
use nvmkv.Cache.{
  KvCache, at_slot, is_empty, entry_compare, first_slot, next_slot, Oldest, eviction_insert, Place,
  free_at, evict, place,
}

pub record IsWellFormed (c : KvCache) : Type 0 where
  pub size : length c.hash_table ≡ 2 ^ c.cache_addr_bits
  pub indexing : IsIndexing c.hash_func c.cache_addr_bits
  pub knows_slot : (i : ℕ) → i < length c.hash_table → (at_slot c.hash_table i).index ≡ i

module _ {c : KvCache} (good : IsWellFormed c) (b : ℕ) (bs : List ℕ) (pool_id : ℕ) where
  pub first_slot-lt : first_slot c (b ∷ bs) pool_id < length c.hash_table
  unfolding first_slot
  first_slot-lt = rw (good.size) (
      key_hash-lt c.hash_func (b ∷ bs) pool_id c.cache_addr_bits
        (omega (arith, good.indexing.small)))

  pub next_slot-lt : (n : ℕ) → n < 2 ^ 32 → next_slot c (b ∷ bs) pool_id n < length c.hash_table
  unfolding next_slot
  next_slot-lt n small =
      let init = key_hash c.hash_func (b ∷ bs) pool_id c.cache_addr_bits false in
      let room : 2 ^ c.cache_addr_bits ≤ 2 ^ 63 =
        pow-le-pow_right (omega arith) {j = 63} (omega (arith, good.indexing.small)) in
      let start : init < 2 ^ c.cache_addr_bits =
        key_hash-lt c.hash_func (b ∷ bs) pool_id c.cache_addr_bits
          (omega (arith, good.indexing.small)) in
      rw (good.size) (resolve_coll-lt (good.indexing) b bs pool_id init n (omega arith))

-- What a search may return lies in the table.
abbrev pub OldestIn : ℕ → Oldest → Type 0
OldestIn len none = Unit
OldestIn len (some (ts, s)) = s < len

abbrev pub PlaceIn : ℕ → Place → Type 0
PlaceIn len (free_at s) = s < len
PlaceIn len (evict oldest s) = OldestIn len oldest × (s < len)

pub eviction_insert-OldestIn :
    (len : ℕ) (o : Oldest) (ts s : ℕ)
    → OldestIn len o
    → s < len
    → OldestIn len (eviction_insert o ts s)
unfolding eviction_insert
eviction_insert-OldestIn len none ts s h lt = lt
eviction_insert-OldestIn len (some (t, r)) ts s h lt = elim (Bool-cases (ltb ts t)) [
  | inl e ↦ rw e lt
  | inr e ↦ rw e h
]

pub place-PlaceIn :
    {c : KvCache}
    → IsWellFormed c
    → (b : ℕ) (bs : List ℕ) (pool_id n itr slot : ℕ) (o : Oldest) → itr + n < 2 ^ 32
    → slot < length c.hash_table
    → OldestIn (length c.hash_table) o
    → PlaceIn (length c.hash_table) (place c (b ∷ bs) pool_id n itr slot o)
unfolding place
place-PlaceIn good b bs pool_id zero itr slot o few lt h = (h, lt)
place-PlaceIn {c} good b bs pool_id (suc n) itr slot o few lt h =
    let e = at_slot c.hash_table slot in
    elim (Bool-cases (is_empty e)) [
      | inl free ↦ rw free lt
      | inr used ↦ elim (Bool-cases (entry_compare e (b ∷ bs) pool_id)) [
        | inl same ↦ rw (used, same) lt
        | inr other ↦
            rw (used, other)
              (place-PlaceIn good b bs pool_id n (itr + 1) (next_slot c (b ∷ bs) pool_id itr)
                (eviction_insert o e.ts slot) (omega arith)
                (next_slot-lt good b bs pool_id itr (omega arith))
                (eviction_insert-OldestIn (length c.hash_table) o e.ts slot h lt))
      ]
    ]
