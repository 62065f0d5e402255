-- ===== src/Cache/Sweep.antt =====
-- What the deletions over the whole table leave in it.
use nvmkv.Prelude.{
  ℕ, zero, suc, ◌+◌, ◌<◌, ◌≡◌, Bool, not, ◌&&◌, ◌||◌, List, [], ◌∷◌, arith, ◌==◌, if◌then◌else◌,
  length, refl, ap, ◌∙◌, Bool-cases, inl, inr,
}
use nvmkv.Cache.{CacheEntry, KvCache, cleared, at_slot, is_empty}
use nvmkv.Cache.Delete.{sweep, sweep_table, contains, kv_cache_delete_lbas, kv_cache_delete_pools}

-- What a sweep makes of the entry at a slot.
abbrev pub swept : (CacheEntry → Bool) → ℕ → CacheEntry → CacheEntry
swept drop i e = if not (is_empty e) && drop e then cleared i else e

pub length-sweep :
    (drop : CacheEntry → Bool) (i : ℕ) (es : List CacheEntry) → length (sweep drop i es) ≡ length es
unfolding sweep
length-sweep drop i [] = refl
length-sweep drop i (e ∷ es) = ap suc (length-sweep drop (i + 1) es)

at_slot-sweep :
    (drop : CacheEntry → Bool) (base i : ℕ) (es : List CacheEntry)
    → i < length es
    → at_slot (sweep drop base es) i ≡ swept drop (base + i) (at_slot es i)
unfolding sweep
at_slot-sweep drop base i [] h = absurd (omega arith)
at_slot-sweep drop base zero (e ∷ es) h =
    ap (λ (n : ℕ). swept drop n e) (let here : base ≡ base + 0 = omega arith in here)
at_slot-sweep drop base (suc i) (e ∷ es) h =
    let shift : base + 1 + i ≡ base + suc i = omega arith in
    rw (← shift) (at_slot-sweep drop (base + 1) i es (omega arith))

pub slot-sweep :
    (drop : CacheEntry → Bool) (i : ℕ) (es : List CacheEntry)
    → i < length es
    → at_slot (sweep drop 0 es) i ≡ swept drop i (at_slot es i)
slot-sweep drop i es h =
    at_slot-sweep drop 0 i es h
    ∙ ap (λ (n : ℕ). swept drop n (at_slot es i)) (let here : 0 + i ≡ i = omega arith in here)

-- kv_cache_delete_pools clears exactly the slots of the table that hold an entry of one of the
-- pools.
pub slot-kv_cache_delete_pools :
    (c : KvCache) (pool_ids : List ℕ) (i : ℕ)
    → i < length c.hash_table
    → let e = at_slot c.hash_table i in
      at_slot (kv_cache_delete_pools c pool_ids).hash_table i
      ≡ (if not (is_empty e) && contains pool_ids e.pool_id then cleared i else e)
unfolding kv_cache_delete_pools
slot-kv_cache_delete_pools c pool_ids i h =
    slot-sweep (λ (x : CacheEntry). contains pool_ids x.pool_id) i c.hash_table h

swept_twice :
    (first second : CacheEntry → Bool) (i : ℕ) (e : CacheEntry)
    → swept second i (swept first i e) ≡ swept (λ x. first x || second x) i e
unfolding is_empty
swept_twice first second i e = elim (Bool-cases (is_empty e)) [
  | inl free ↦ rw (free, free) refl
  | inr used ↦ elim (Bool-cases (first e)) [
    | inl hit ↦ rw (used, hit) refl
    | inr miss ↦ rw (used, miss, used) refl
  ]
]

length-kv_cache_delete_lbas :
    (lbas : List ℕ) (c : KvCache)
    → length (kv_cache_delete_lbas c lbas).hash_table ≡ length c.hash_table
unfolding kv_cache_delete_lbas
length-kv_cache_delete_lbas [] c = refl
length-kv_cache_delete_lbas (l ∷ ls) c =
    length-kv_cache_delete_lbas ls (sweep_table c (λ e. e.lba == l))
    ∙ length-sweep (λ e. e.lba == l) 0 c.hash_table

slot_delete_lbas :
    (lbas : List ℕ) (c : KvCache) (i : ℕ)
    → i < length c.hash_table
    → at_slot (kv_cache_delete_lbas c lbas).hash_table i
      ≡ swept (λ e. contains lbas e.lba) i (at_slot c.hash_table i)
unfolding kv_cache_delete_lbas
slot_delete_lbas [] c i h = ground arith
slot_delete_lbas (l ∷ ls) c i h =
    let lt : i < length (sweep (λ e. e.lba == l) 0 c.hash_table) =
      rw (length-sweep (λ (e : CacheEntry). e.lba == l) 0 c.hash_table) h in
    slot_delete_lbas ls (sweep_table c (λ e. e.lba == l)) i lt
    ∙ ap (swept (λ e. contains ls e.lba) i)
        (slot-sweep (λ (e : CacheEntry). e.lba == l) i c.hash_table h)
    ∙ swept_twice (λ e. e.lba == l) (λ e. contains ls e.lba) i (at_slot c.hash_table i)

-- kv_cache_delete of a set of LBAs clears exactly the slots of the table that hold an entry at one
-- of them.
pub slot-kv_cache_delete_lbas :
    (c : KvCache) (lbas : List ℕ) (i : ℕ)
    → i < length c.hash_table
    → let e = at_slot c.hash_table i in
      at_slot (kv_cache_delete_lbas c lbas).hash_table i
      ≡ (if not (is_empty e) && contains lbas e.lba then cleared i else e)
slot-kv_cache_delete_lbas c lbas i h = slot_delete_lbas lbas c i h
