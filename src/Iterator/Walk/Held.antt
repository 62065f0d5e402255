-- ===== src/Iterator/Walk/Held.antt =====
-- src/kv_iterator.cpp: a walk changes no slot of the table but its own, and keeps that one.
use nvmkv.Prelude.{
  ℕ, zero, suc, ◌+◌, ◌<◌, ◌≡◌, false, Option, none, some, length, ltb, ◌==◌, set, refl, sym, ap,
  ◌∙◌, arith, inl, inr, Bool-cases, get_or-set, length-set,
}
use nvmkv.Error.{Status, success, failure, Result, ok, err}
use nvmkv.Pool.{PoolMgr, PoolId}
use nvmkv.Media.{Media, Store}
use nvmkv.Ranges.{Listing, Lister}
use nvmkv.Iterator.{BatchIter, IterTable, at, kv_regular_iter, slot, validate_iter}
use nvmkv.Iterator.Walk.{
  IterState, with_expiry, on_listing, refill, step_iter, on_valid, iterate, at_pool, after_step,
  walk_on, walk, iter_over_pool,
}

-- What became of a table `t`: slot `i` holds an iterator of the pool, and no other slot changed.
pub record Held (i : ℕ) (id : PoolId) (t t' : IterTable) : Type 0 where
  pub inside : i < length t'
  pub holder : BatchIter
  pub stands : slot t' i ≡ some holder
  pub owner : holder.pool_id ≡ id
  pub others : (j : ℕ) → (i == j) ≡ false → slot t' j ≡ slot t j

pub set-Held :
    (i : ℕ) (id : PoolId) (t t' : IterTable) (b : BatchIter)
    → i < length t'
    → ((j : ℕ) → (i == j) ≡ false → slot t' j ≡ slot t j)
    → b.pool_id ≡ id
    → Held i id t (set t' i (some b))
set-Held i id t t' b inside others e = record {
  inside = rw (length-set t' i (some b)) inside;
  holder = b;
  stands = get_or-set t' i i (some b) none inside ∙ ground arith;
  owner = e;
  others = λ j other. get_or-set t' i j (some b) none inside ∙ rw other (others j other);
}

-- The iterator that validation finds in a slot.
pub validate_iter_found :
    (mgr : PoolMgr) (i : ℕ) (t : IterTable) (found : ℕ × BatchIter)
    → validate_iter mgr t (at i) kv_regular_iter ≡ ok found
    → (found.0 ≡ i) × (slot t i ≡ some (found.1))
unfolding validate_iter
validate_iter_found mgr i t found h = ground (arith, h)

module _ (m : Media) (lister : Lister m) (mgr : PoolMgr) (st : Store) (i : ℕ) (id : PoolId)
    (t : IterTable) where
  on_listing-Held :
      (b : BatchIter) (r : Result Listing × m.World) (t' : IterTable)
      → Held i id t t'
      → b.pool_id ≡ id
      → Held i id t ((on_listing m lister mgr st i b r t').1.table)
  unfolding on_listing
  on_listing-Held b (err c, w) t' h e = set-Held i id t t' b (h.inside) (h.others) e
  on_listing-Held b (ok l, w) t' h e = elim (Bool-cases (length l.found == 0)) [
    | inl empty ↦ rw empty (set-Held i id t t' _ (h.inside) (h.others) e)
    | inr full ↦ rw full (set-Held i id t t' _ (h.inside) (h.others) e)
  ]

  step_iter-Held :
      (b : BatchIter) (s : IterState m.World)
      → Held i id t (s.table)
      → b.pool_id ≡ id
      → Held i id t ((step_iter m lister mgr st kv_regular_iter i b s).1.table)
  unfolding step_iter refill
  step_iter-Held b s h e = elim (Bool-cases (ltb (b.pos + 1) b.num_ranges_found)) [
    | inl more ↦ rw more (set-Held i id t s.table _ (h.inside) (h.others) e)
    | inr used ↦
        rw used
          (on_listing-Held (with_expiry b 0) (lister (with_expiry b 0).it s.world) s.table h e)
  ]

  checked-Held :
      (s : IterState m.World) (r : Result (ℕ × BatchIter))
      → Held i id t (s.table)
      → validate_iter mgr s.table (at i) kv_regular_iter ≡ r
      → Held i id t ((on_valid m lister mgr st kv_regular_iter s r).1.table)
  checked-Held s (err c) h e = h
  checked-Held s (ok (k, b)) h e =
      let (same, found) = validate_iter_found mgr i s.table (k, b) e in
      let owner : b.pool_id ≡ id =
        ap (λ (o : Option BatchIter). elim o [ none ↦ id | some x ↦ x.pool_id ])
          (sym found ∙ h.stands)
        ∙ h.owner in
      rw same (step_iter-Held b s h owner)

  iterate-Held :
      (s : IterState m.World)
      → Held i id t (s.table)
      → Held i id t ((iterate m lister mgr st (at i) kv_regular_iter s).1.table)
  unfolding iterate
  iterate-Held s h = checked-Held s (validate_iter mgr s.table (at i) kv_regular_iter) h refl

  at_pool-table :
      (pool : PoolId) (hash key_loc : ℕ) (s : IterState m.World)
      → (at_pool m lister mgr st pool hash key_loc s).1.table ≡ s.table
  unfolding at_pool
  at_pool-table pool hash key_loc s = ground arith

  after_step-Held :
      (pool : PoolId) (hash : ℕ) (r : Status × IterState m.World)
      → Held i id t (r.1.table)
      → Held i id t ((after_step m lister mgr st pool hash i r).1.table)
  after_step-Held pool hash (failure c, s) h = h
  after_step-Held pool hash (success, s) h = rw (at_pool-table pool hash _ s) h

  -- So much holds of how a walk ends, where it does.
  abbrev pub Leaves : Option (Status × IterState m.World) → Type 0
  Leaves none = Unit {0}
  Leaves (some (status, s)) = Held i id t (s.table)

  walk_on-Leaves :
      (next : IterState m.World → Option (Status × IterState m.World))
      (r : Option Status × IterState m.World)
      → Held i id t (r.1.table)
      → ((s : IterState m.World) → Held i id t (s.table) → Leaves (next s))
      → Leaves (walk_on m lister mgr st next r)
  walk_on-Leaves next (some status, s) h later = h
  walk_on-Leaves next (none, s) h later = later s h

  walk-Leaves :
      (n : ℕ) (pool : PoolId) (hash : ℕ) (s : IterState m.World)
      → Held i id t (s.table)
      → Leaves (walk m lister mgr st n (at i) kv_regular_iter pool hash i s)
  unfolding walk
  walk-Leaves zero pool hash s h = tt
  walk-Leaves (suc n) pool hash s h =
      walk_on-Leaves _ _
        (after_step-Held pool hash (iterate m lister mgr st (at i) kv_regular_iter s)
          (iterate-Held s h))
        (λ s' h'. walk-Leaves n pool hash s' h')

  entered-Leaves :
      (fuel : ℕ) (s : IterState m.World) (r : Result (ℕ × BatchIter))
      → Held i id t (s.table)
      → validate_iter mgr s.table (at i) kv_regular_iter ≡ r
      → Leaves (elim r [
        | err c ↦ some (failure c, s)
        | ok (k, b) ↦ walk m lister mgr st fuel (at i) kv_regular_iter b.pool_id b.pool_hash k s
      ])
  entered-Leaves fuel s (err c) h e = h
  entered-Leaves fuel s (ok (k, b)) h e =
      rw (validate_iter_found mgr i s.table (k, b) e).0 (walk-Leaves fuel b.pool_id b.pool_hash s h)

  pub iter_over_pool-Leaves :
      (fuel : ℕ) (s : IterState m.World)
      → Held i id t (s.table)
      → Leaves (iter_over_pool m lister mgr st fuel (at i) kv_regular_iter s)
  unfolding iter_over_pool
  iter_over_pool-Leaves fuel s h =
      entered-Leaves fuel s (validate_iter mgr s.table (at i) kv_regular_iter) h refl
