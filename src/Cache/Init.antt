-- ===== src/Cache/Init.antt =====
-- src/kv_cache.cpp: NVM_KV_Cache::initialize, where every allocation succeeds, and that a cache is
-- well-formed from there on.
use nvmkv.Prelude.{
  ℕ, zero, suc, ◌+◌, ◌*◌, ◌/◌, ◌^◌, ◌<◌, ◌≤◌, ◌≡◌, List, [], ◌∷◌, length, refl, arith, false,
  Bool-cases, inl, inr, ◌==◌, ap, ◌∙◌,
}
use native.Mathlib.Nat.{pow-suc, mul_comm}
use nvmkv.Hash.{fnv1a_hash, sequential_probe_type, initialize}
use nvmkv.Cache.{CacheEntry, KvCache, cleared, at_slot}
use nvmkv.Cache.Index.{IsWellFormed}
use nvmkv.Cache.Invariant.{Reaches, Reaches-IsWellFormed}
use nvmkv.Layout.{shifts}

-- `sizeof(nvm_kv_cache_entry *) + sizeof(nvm_kv_cache_entry)`
abbrev pub entry_bytes : ℕ
entry_bytes = 184

-- The loop over the table: `n` entries of zeros with the indices from `i` on.
unfoldable pub new_entries : ℕ → ℕ → List CacheEntry
new_entries zero i = []
new_entries (suc n) i = cleared i ∷ new_entries n (i + 1)

-- For a size of less than 2^64 bytes.
unfoldable pub new_cache : ℕ → KvCache
unfolding new_entries
new_cache cache_size =
    let bits = shifts 64 (cache_size / entry_bytes) in
    record {
      hash_table = new_entries (2 ^ bits) 0;
      cache_addr_bits = bits;
      hash_func = initialize fnv1a_hash sequential_probe_type bits 0;
    }

-- `m_cache_size`
unfoldable pub kv_cache_get_size : KvCache → ℕ
kv_cache_get_size c = entry_bytes * length c.hash_table

length-new_entries : (n i : ℕ) → length (new_entries n i) ≡ n
unfolding new_entries
length-new_entries zero i = refl
length-new_entries (suc n) i = ap suc (length-new_entries n (i + 1))

index-new_entries : (n i k : ℕ) → k < n → (at_slot (new_entries n i) k).index ≡ i + k
unfolding new_entries
index-new_entries zero i k h = absurd (omega arith)
index-new_entries (suc n) i zero h = omega arith
index-new_entries (suc n) i (suc k) h = omega (arith, index-new_entries n (i + 1) k)

shifts-lt : (n x : ℕ) → 0 < n → x < 2 ^ n → shifts n x < n
unfolding shifts
shifts-lt zero x pos h = absurd (omega arith)
shifts-lt (suc zero) x pos h = let none_left : x / 2 ≡ 0 = omega arith in rw none_left (omega arith)
shifts-lt (suc (suc n)) x pos h =
    let bound : x < 2 * 2 ^ suc n = rw (← mul_comm (2 ^ suc n) 2, ← pow-suc 2 (suc n)) h in
    let rest = shifts-lt (suc n) (x / 2) (omega arith) (omega (arith, bound)) in
    elim (Bool-cases (x / 2 == 0)) [
      | inl last ↦ rw last (omega arith)
      | inr more ↦ rw more (omega (arith, rest))
    ]

shifts-pos : (n x : ℕ) → 2 ≤ x → 0 < shifts (suc n) x
unfolding shifts
shifts-pos n x h = let more : x / 2 == 0 ≡ false = ground arith in rw more (omega arith)

new_cache-IsWellFormed :
    (cache_size : ℕ)
    → 2 * entry_bytes ≤ cache_size
    → cache_size < 2 ^ 64
    → IsWellFormed (new_cache cache_size)
unfolding new_cache
new_cache-IsWellFormed cache_size low high =
    let bits = shifts 64 (cache_size / entry_bytes) in
    let len : length (new_cache cache_size).hash_table ≡ 2 ^ bits =
      length-new_entries (2 ^ bits) 0 in
    record {
      size = len;
      indexing = record {
        sequential = refl;
        width = refl;
        pos = shifts-pos 63 (cache_size / entry_bytes) (omega arith);
        small = shifts-lt 64 (cache_size / entry_bytes) (omega arith) (omega arith);
      };
      knows_slot = λ i h. index-new_entries (2 ^ bits) 0 i (omega (arith, h, len)) ∙ (omega arith);
    }

-- A cache of less than 2^64 bytes that has room for two entries is well-formed in every state that
-- sequences of puts, with contexts that name a slot of the table or without, and of deletions of all
-- kinds reach from the one that initialize makes, for keys that are not empty.
pub new_cache-Reaches-IsWellFormed :
    {cache_size : ℕ} {c : KvCache}
    → 2 * entry_bytes ≤ cache_size
    → cache_size < 2 ^ 64
    → Reaches (new_cache cache_size) c
    → IsWellFormed c
new_cache-Reaches-IsWellFormed {cache_size} low high =
    Reaches-IsWellFormed (new_cache-IsWellFormed cache_size low high)
