-- ===== src/Cache.antt =====
-- src/kv_cache.cpp: the collision cache, an open-addressed table of `2 ^ cache_addr_bits` entries that
-- maps keys to LBAs. A pointer into the table is the slot it points at. Each operation holds the lock
-- of the table throughout, so it is one step; `time(NULL)` is the argument `now`.
pub mod Entry
pub mod Get
pub mod Miss
pub mod Put
pub mod Context
pub mod Delete
pub mod RoundTrip
pub mod Index
pub mod Sweep
pub mod Found
pub mod Keeps
pub mod Invariant
pub mod Init
pub mod Deletion
pub mod Update
use nvmkv.Prelude.{
  ℕ, zero, suc, ◌+◌, ◌^◌, ◌/◌, Bool, true, false, not, ◌&&◌, Option, none, some, List, [], ◌∷◌, ltb,
  ◌==◌, if◌then◌else◌, length, get_or, set,
}
use nvmkv.Hash.{HashFunc, key_hash, resolve_coll}

-- `key` holds the first `key_len` bytes of the array; `key_len` is its length.
pub record CacheEntry : Type 0 where
  pub key : List ℕ
  pub value_len : ℕ
  pub pool_id : ℕ
  pub expiry : ℕ
  pub gen_count : ℕ
  pub index : ℕ
  pub lba : ℕ
  pub ts : ℕ

-- `memset(entry, 0, sizeof(nvm_kv_cache_entry))` followed by `entry->index = index`.
abbrev pub cleared : ℕ → CacheEntry
cleared i = record {
  key = [];
  value_len = 0;
  pool_id = 0;
  expiry = 0;
  gen_count = 0;
  index = i;
  lba = 0;
  ts = 0;
}

pub data EntryState : Type 0 where
  entry_not_found entry_empty entry_found entry_delete : EntryState

pub record CacheContext : Type 0 where
  pub context_entry : CacheEntry
  pub context_state : EntryState
  pub expired : Bool

pub record KvCache : Type 0 where
  pub hash_table : List CacheEntry
  pub cache_addr_bits : ℕ
  pub hash_func : HashFunc

abbrev pub collision_limit : ℕ
collision_limit = 8

-- `memcmp` over keys of the same length.
abbrev pub bytes_eq : List ℕ → List ℕ → Bool
bytes_eq [] [] = true
bytes_eq [] (y ∷ ys) = false
bytes_eq (x ∷ xs) [] = false
bytes_eq (x ∷ xs) (y ∷ ys) = x == y && bytes_eq xs ys

-- kv_cache_entry_compare with a key and a pool; keys of different length differ in `bytes_eq`.
pub entry_compare : CacheEntry → List ℕ → ℕ → Bool
entry_compare e key pool_id = bytes_eq e.key key && e.pool_id == pool_id

-- kv_cache_entry_compare of two entries.
pub entries_compare : CacheEntry → CacheEntry → Bool
entries_compare one two = bytes_eq one.key two.key && one.pool_id == two.pool_id

pub is_empty : CacheEntry → Bool
is_empty e = length e.key == 0

-- What the caller of `kv_cache_put` passes beside the context.
pub record PutArgs : Type 0 where
  pub key : List ℕ
  pub pool_id : ℕ
  pub value_len : ℕ
  pub abs_expiry : ℕ
  pub gen_count : ℕ
  pub lba : ℕ

-- kv_cache_entry_set: everything but the index.
pub entry_set : CacheEntry → PutArgs → ℕ → CacheEntry
entry_set e a now = record {
  key = a.key;
  value_len = a.value_len;
  pool_id = a.pool_id;
  expiry = a.abs_expiry;
  gen_count = a.gen_count;
  index = e.index;
  lba = a.lba;
  ts = now;
}

abbrev pub at_slot : List CacheEntry → ℕ → CacheEntry
at_slot table slot = get_or table slot (cleared 0)

-- The eviction map is read only at its begin(): the least timestamp, and of equal ones the entry that
-- was inserted first. `insert` keeps that entry.
abbrev pub Oldest : Type 0
Oldest = Option (ℕ × ℕ)

pub eviction_insert : Oldest → ℕ → ℕ → Oldest
eviction_insert none ts slot = some (ts, slot)
eviction_insert (some (t, s)) ts slot = if ltb ts t then some (ts, slot) else some (t, s)

-- The slot that a search goes to after its round `hash_itr`, by `resolve_coll` from the first slot.
pub next_slot : KvCache → List ℕ → ℕ → ℕ → ℕ
next_slot c key pool_id hash_itr =
    let init = key_hash c.hash_func key pool_id c.cache_addr_bits false in
    resolve_coll c.hash_func key pool_id init hash_itr c.cache_addr_bits false

pub first_slot : KvCache → List ℕ → ℕ → ℕ
first_slot c key pool_id = key_hash c.hash_func key pool_id c.cache_addr_bits false

-- How the search of `kv_cache_put` ends: by `break` at a slot that is empty or holds the key, or after
-- `collision_limit` rounds, with the begin() of the eviction map and the slot that the loop stands at.
pub data Place : Type 0 where
  free_at : ℕ → Place
  evict : Oldest → ℕ → Place

pub place : KvCache → List ℕ → ℕ → ℕ → ℕ → ℕ → Oldest → Place
place c key pool_id zero hash_itr slot oldest = evict oldest slot
place c key pool_id (suc n) hash_itr slot oldest =
    let e = at_slot c.hash_table slot in
    let rest =
      place c key pool_id n (hash_itr + 1) (next_slot c key pool_id hash_itr)
        (eviction_insert oldest e.ts slot) in
    if is_empty e then free_at slot else if entry_compare e key pool_id then free_at slot else rest

abbrev pub write_slot : KvCache → ℕ → CacheEntry → KvCache
write_slot c slot e = record c { hash_table = set c.hash_table slot e }

pub store_at : KvCache → PutArgs → ℕ → Place → KvCache
store_at c a now (free_at slot) = write_slot c slot (entry_set (at_slot c.hash_table slot) a now)
store_at c a now (evict none slot) = write_slot c slot (entry_set (at_slot c.hash_table slot) a now)
store_at c a now (evict (some (ts, s)) slot) =
    write_slot c s (entry_set (cleared (at_slot c.hash_table s).index) a now)

-- The part of `kv_cache_put` behind the context: hash, search, store.
pub put_hashed : KvCache → PutArgs → ℕ → KvCache
put_hashed c a now =
    store_at c a now (place c a.key a.pool_id collision_limit 0 (first_slot c a.key a.pool_id) none)

-- What a context in a given state asks of the slot that it names; `none` where the entry there has
-- changed since the context was made, and a slot has to be searched.
pub put_context : EntryState → CacheContext → KvCache → PutArgs → ℕ → Option KvCache
put_context entry_not_found ctx c a now = none
put_context entry_found ctx c a now =
    let slot = ctx.context_entry.index in
    let e = at_slot c.hash_table slot in
    if entry_compare e a.key a.pool_id
    then some (write_slot c slot (record e { value_len = a.value_len; ts = now }))
    else none
put_context entry_empty ctx c a now =
    let slot = ctx.context_entry.index in
    let e = at_slot c.hash_table slot in
    if is_empty e then some (write_slot c slot (entry_set e a now)) else none
put_context entry_delete ctx c a now =
    let slot = ctx.context_entry.index in
    let e = at_slot c.hash_table slot in
    if entries_compare e ctx.context_entry
    then some (write_slot c slot (entry_set e a now))
    else none

-- `kv_cache_put` always returns NVM_SUCCESS. `none` is the NULL context.
pub kv_cache_put : KvCache → PutArgs → Option CacheContext → ℕ → KvCache
kv_cache_put c a none now = put_hashed c a now
kv_cache_put c a (some ctx) now = elim (put_context ctx.context_state ctx c a now) [
  | some c' ↦ c'
  | none ↦ put_hashed c a now
]

-- What a test of this module unfolds.
unfoldable pub cache_program : Unit {0}
unfolding entry_compare entries_compare is_empty entry_set eviction_insert next_slot first_slot
    place store_at put_hashed put_context kv_cache_put
cache_program = tt
