-- ===== src/Cache/Entry.antt =====
-- Comparison of the entries of src/kv_cache.cpp.
use nvmkv.Prelude.{ℕ, ◌≡◌, ◌↔◌, true, false, List, [], ◌∷◌, arith, length, refl}
use nvmkv.Cache.{CacheEntry, bytes_eq, entry_compare, is_empty}

pub bytes_eq→eq : (xs ys : List ℕ) → bytes_eq xs ys ≡ true → xs ≡ ys
bytes_eq→eq [] [] h = refl
bytes_eq→eq [] (y ∷ ys) h = cc
bytes_eq→eq (x ∷ xs) [] h = cc
bytes_eq→eq (x ∷ xs) (y ∷ ys) h = ground (arith, bytes_eq→eq xs ys)

pub bytes_eq_refl : (xs : List ℕ) → bytes_eq xs xs ≡ true
bytes_eq_refl [] = refl
bytes_eq_refl (x ∷ xs) = ground (arith, bytes_eq_refl xs)

-- An entry matches a key and a pool exactly if it holds them.
pub entry_compare_iff :
    (e : CacheEntry) (key : List ℕ) (pool_id : ℕ)
    → (entry_compare e key pool_id ≡ true) ↔ ((e.key ≡ key) × (e.pool_id ≡ pool_id))
unfolding entry_compare
entry_compare_iff e key pool_id =
    (λ h. ground (arith, bytes_eq→eq e.key key), λ h. ground (arith, bytes_eq_refl key))

empty_key : (xs : List ℕ) → length xs ≡ 0 → xs ≡ []
empty_key [] h = refl
empty_key (x ∷ xs) h = absurd (omega arith)

-- An empty entry matches no key, since keys are not empty.
pub compare-empty :
    (e : CacheEntry) (b : ℕ) (bs : List ℕ) (pool_id : ℕ)
    → is_empty e ≡ true
    → entry_compare e (b ∷ bs) pool_id ≡ false
unfolding entry_compare is_empty
compare-empty e b bs pool_id h = let none : e.key ≡ [] = empty_key e.key (ground arith) in rw none
