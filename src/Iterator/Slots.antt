-- ===== src/Iterator/Slots.antt =====
-- src/kv_iterator.cpp: which slot of the table alloc_iter gives to a regular iterator.
use nvmkv.Prelude.{
  ℕ, zero, suc, ◌+◌, ◌<◌, ◌≤◌, ◌≡◌, ◌≢◌, Option, none, some, true, false, Option-cases, Bool-cases,
  ◌==◌, ==_iff, inl, inr, set, refl, arith,
}
use nvmkv.Error.{invalid_input, failure, max_limit_reached, success, ok, err}
use nvmkv.Pool.{PoolMgr, PoolId}
use nvmkv.Media.{Store}
use nvmkv.Iterator.{
  BatchIter, IterTable, kv_regular_iter, at, slot, first_free, started_at, validate_iter,
  free_iterator, init_iter, set_range, pool_iterable, alloc_regular, alloc_typed, alloc_iter,
}

-- The first empty slot from `i` on, or none below `i + n`.
pub data FirstFree (n i : ℕ) (t : IterTable) (o : Option ℕ) : Type 0 where
  free_at : (k : ℕ) → o ≡ some k → i ≤ k → k < i + n → slot t k ≡ none → FirstFree n i t o
  all_taken : o ≡ none → ((k : ℕ) → i ≤ k → k < i + n → slot t k ≢ none) → FirstFree n i t o

later_free :
    (n i : ℕ) (t : IterTable) (o : Option ℕ) (b : BatchIter)
    → slot t i ≡ some b
    → FirstFree n (i + 1) t o
    → FirstFree (suc n) i t o
later_free n i t o b taken (free_at k e from below empty) =
    free_at k e (omega arith) (omega arith) empty
later_free n i t o b taken (all_taken e taken_too) = all_taken e (λ k from below empty.
    elim (Bool-cases (i == k)) [
      | inl same ↦ let here : i ≡ k = (==_iff i k).0 same in cc
      | inr other ↦ taken_too k (ground (arith, other)) (omega arith) empty
    ])

pub first_free-FirstFree : (n i : ℕ) (t : IterTable) → FirstFree n i t (first_free n i t)
unfolding first_free
first_free-FirstFree zero i t = all_taken refl (λ k from below. absurd (omega arith))
first_free-FirstFree (suc n) i t = elim (Option-cases (slot t i)) [
  | inl empty ↦ rw (empty, first_free) (free_at i refl (omega arith) (omega arith) empty)
  | inr (b, taken) ↦
      rw (taken, first_free) (later_free n i t _ b taken (first_free-FirstFree n (i + 1) t))
]

pub alloc_iter-regular :
    (id : PoolId) (hash : ℕ) (b : BatchIter) (t : IterTable)
    → alloc_iter kv_regular_iter id hash (some b) t ≡ alloc_regular (started_at b id hash) t
unfolding alloc_iter alloc_typed
alloc_iter-regular id hash b t = refl

pub validate_iter_ok :
    (mgr : PoolMgr) (i : ℕ) (t : IterTable) (b : BatchIter)
    → i < 128
    → slot t i ≡ some b
    → pool_iterable mgr b ≡ true
    → validate_iter mgr t (at i) kv_regular_iter ≡ ok (i, b)
unfolding validate_iter
validate_iter_ok mgr i t b below stands iterable = ground (arith, below, stands, iterable)

pub free_iterator_ok :
    (mgr : PoolMgr) (i : ℕ) (t : IterTable) (b : BatchIter)
    → i < 128
    → slot t i ≡ some b
    → pool_iterable mgr b ≡ true
    → free_iterator mgr (at i) kv_regular_iter t ≡ (success, set t i none)
unfolding free_iterator
free_iterator_ok mgr i t b below stands iterable =
    rw (validate_iter_ok mgr i t b below stands iterable, free_iterator) refl

pub init_iter_ok :
    (mgr : PoolMgr) (st : Store) (max_ranges i base len : ℕ) (t : IterTable) (b : BatchIter)
    → i < 128
    → slot t i ≡ some b
    → pool_iterable mgr b ≡ true
    → init_iter mgr st max_ranges (at i) base len kv_regular_iter t
      ≡ (success, set t i (some (set_range st max_ranges base len b)))
unfolding init_iter
init_iter_ok mgr st max_ranges i base len t b below stands iterable =
    rw (validate_iter_ok mgr i t b below stands iterable, init_iter) refl

pub alloc_regular-some :
    (b : BatchIter) (t : IterTable) (k : ℕ)
    → first_free 128 0 t ≡ some k
    → alloc_regular b t ≡ (ok k, set t k (some b))
unfolding alloc_regular
alloc_regular-some b t k e = rw (e, alloc_regular) refl

pub alloc_regular-none :
    (b : BatchIter) (t : IterTable)
    → first_free 128 0 t ≡ none
    → alloc_regular b t ≡ (err max_limit_reached, t)
unfolding alloc_regular
alloc_regular-none b t e = rw (e, alloc_regular) refl

pub free_iterator_refused :
    (mgr : PoolMgr) (i : ℕ) (t : IterTable) (b : BatchIter)
    → slot t i ≡ some b
    → pool_iterable mgr b ≡ false
    → free_iterator mgr (at i) kv_regular_iter t ≡ (failure invalid_input, t)
unfolding free_iterator validate_iter
free_iterator_refused mgr i t b stands refused = ground (arith, stands, refused)
