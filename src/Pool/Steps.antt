-- ===== src/Pool/Steps.antt =====
-- The states of the pool manager that the operations of src/kv_pool_manager.cpp can reach.
use mathlib.Core.Path.{subst}
use nvmkv.Prelude.{
  ℕ, ◌<◌, ◌≤◌, ◌≡◌, true, false, Option, arith, ◌==◌, Bool-cases, inl, inr, sym, ◌∙◌, ap,
}
use nvmkv.Error.{Status, Result}
use nvmkv.Bitmap.{KvBitmap}
use nvmkv.Bitmap.Access.{member, member-bitmap_set, capacity-bitmap_set, capacity}
use nvmkv.Pool.{
  PoolMgr, PoolTag, all_pools, one_pool, nvm_kv_max_pools, create_pool, delete_pool,
  clear_pool_bitmaps,
}
use nvmkv.Pool.Valid.{PoolsValid, Kept, Holds-capacity, Holds-same}
use nvmkv.Pool.Create.{Creates, known, fresh, refused, create_pool-Creates}
use nvmkv.Pool.Delete.{DeletesAll, all_marked, none_marked, delete_pool-DeletesAll}
use nvmkv.Pool.DeleteOne.{
  DeletesOne, unused, in_deletion, one_marked, taken_back, delete_pool-DeletesOne,
}
use nvmkv.Pool.Cleared.{Clears, clear_pool_bitmaps-Clears}

Creates-PoolsValid :
    (m : PoolMgr) (tag : Option PoolTag) (r : Result ℕ × PoolMgr)
    → PoolsValid m
    → Creates m tag r
    → PoolsValid (r.1)
Creates-PoolsValid m tag r good (known id found e) =
    subst (λ (x : Result ℕ × PoolMgr). PoolsValid (x.1)) (sym e) good
Creates-PoolsValid m tag r good (fresh id small new e used del total max) =
    let room = Holds-capacity m.in_use m.max_pools id (good.used_fit) small in
    let bits =
      λ (j : ℕ). ap (λ (b : KvBitmap). member b j) used ∙ member-bitmap_set m.in_use id j room in
    record {
      used_fit = rw max (
          Holds-same m.in_use (r.1).in_use m.max_pools
            (ap (λ (b : KvBitmap). capacity b) used ∙ capacity-bitmap_set m.in_use id)
            (good.used_fit));
      deleted_fit = rw (max, del) (good.deleted_fit);
      counted = omega (arith, total);
      some_pool = rw max (good.some_pool);
      default_used = ground (arith, bits 0, good.default_used);
      default_kept = rw del (good.default_kept);
      deleted_used =
          λ i lt h. ground (arith, bits i, good.deleted_used i (rw max at lt) (rw del at h));
    }
Creates-PoolsValid m tag r good (refused c e same fit del total max) = record {
  used_fit = rw max fit;
  deleted_fit = rw (max, del) (good.deleted_fit);
  counted = omega (arith, total, good.counted);
  some_pool = rw max (good.some_pool);
  default_used = same 0 ∙ good.default_used;
  default_kept = rw del (good.default_kept);
  deleted_used = λ i lt h. same i ∙ good.deleted_used i (rw max at lt) (rw del at h);
}

-- Only the deletion bits changed.
Kept-PoolsValid :
    (m r : PoolMgr)
    → PoolsValid m
    → Kept m r
    → member r.deleted 0 ≡ false
    → ((i : ℕ) → i < m.max_pools → member r.deleted i ≡ true → member m.in_use i ≡ true)
    → PoolsValid r
Kept-PoolsValid m r good kept first less = record {
  used_fit = rw (kept.same_max, kept.same_used) (good.used_fit);
  deleted_fit =
      rw (kept.same_max)
        (Holds-same m.deleted r.deleted m.max_pools (kept.same_capacity) (good.deleted_fit));
  counted = omega (arith, kept.same_total, good.counted);
  some_pool = rw (kept.same_max) (good.some_pool);
  default_used = rw (kept.same_used) (good.default_used);
  default_kept = first;
  deleted_used = λ i lt h. rw (kept.same_used) (less i (rw (kept.same_max) at lt) h);
}

DeletesAll-PoolsValid :
    {persist : PoolMgr → Status} (m : PoolMgr) (r : Status × PoolMgr)
    → PoolsValid m
    → DeletesAll m persist r
    → PoolsValid (r.1)
DeletesAll-PoolsValid m r good (all_marked stored e kept bits) =
    Kept-PoolsValid m (r.1) good kept (bits 0 (good.some_pool))
      (λ i lt h. ground (arith, h, bits i lt))
DeletesAll-PoolsValid m r good (none_marked c tried tried_kept tried_bits failed e kept bits) =
    Kept-PoolsValid m (r.1) good kept (bits 0 (good.some_pool))
      (λ i lt h. absurd (ground (arith, h, bits i lt)))

pub DeletesOne-PoolsValid :
    {persist : PoolMgr → Status} (m : PoolMgr) (id : ℕ) (r : Status × PoolMgr)
    → 0 < id
    → PoolsValid m
    → DeletesOne m id persist r
    → PoolsValid (r.1)
DeletesOne-PoolsValid m id r pos good (unused free e) =
    subst (λ (x : Status × PoolMgr). PoolsValid (x.1)) (sym e) good
DeletesOne-PoolsValid m id r pos good (in_deletion gone e) =
    subst (λ (x : Status × PoolMgr). PoolsValid (x.1)) (sym e) good
DeletesOne-PoolsValid m id r pos good (one_marked used still stored e kept bits) =
    Kept-PoolsValid m (r.1) good kept (ground (arith, bits 0, good.default_kept)) (λ i lt h.
      elim (Bool-cases (id == i)) [
        | inl same ↦ let e' : id ≡ i = ground arith in rw e' at used
        | inr other ↦ good.deleted_used i lt (ground (arith, bits i))
      ])
DeletesOne-PoolsValid m id r pos good
      (taken_back c tried used still tried_kept tried_bits failed e kept bits) =
    Kept-PoolsValid m (r.1) good kept (bits 0 ∙ good.default_kept)
      (λ i lt h. good.deleted_used i lt (sym (bits i) ∙ h))

Clears-PoolsValid :
    (cleared : KvBitmap) (m r : PoolMgr) → PoolsValid m → Clears cleared m r → PoolsValid r
Clears-PoolsValid cleared m r good w = record {
  used_fit =
      rw (w.same_max) (Holds-same m.in_use r.in_use m.max_pools (w.same_used) (good.used_fit));
  deleted_fit =
      rw (w.same_max)
        (Holds-same m.deleted r.deleted m.max_pools (w.same_deleted) (good.deleted_fit));
  counted = w.few;
  some_pool = rw (w.same_max) (good.some_pool);
  default_used = ground (arith, w.used_bits 0, good.default_used);
  default_kept = ground (arith, w.deleted_bits 0 (good.some_pool), good.default_kept);
  deleted_used = λ i lt h.
      let lt' : i < m.max_pools = rw (w.same_max) at lt in
      let was : member m.deleted i ≡ true = ground (arith, h, w.deleted_bits i lt') in
      ground (arith, h, w.deleted_bits i lt', w.used_bits i, good.deleted_used i lt' was);
}

-- One call that changes the pools. A caller deletes neither the default pool nor an id out of range.
pub data PoolStep (m : PoolMgr) : PoolMgr → Type 0 where
  create_step :
      (tag : Option PoolTag) (persist : PoolMgr → Status)
      → PoolStep m ((create_pool m tag persist).1)
  delete_all_step :
      (persist : PoolMgr → Status)
      → 1 < m.max_pools
      → PoolStep m ((delete_pool m all_pools persist).1)
  delete_one_step :
      (id : ℕ) (persist : PoolMgr → Status)
      → 0 < id
      → id < m.max_pools
      → m.max_pools ≤ nvm_kv_max_pools
      → PoolStep m ((delete_pool m (one_pool id) persist).1)
  clear_step :
      (cleared : KvBitmap) (persist : PoolMgr → Status)
      → PoolStep m ((clear_pool_bitmaps m cleared persist).1)

step-PoolsValid : {m m' : PoolMgr} → PoolsValid m → PoolStep m m' → PoolsValid m'
step-PoolsValid {m} good (create_step tag persist) =
    Creates-PoolsValid m tag (create_pool m tag persist) good
      (create_pool-Creates m tag persist good)
step-PoolsValid {m} good (delete_all_step persist more) =
    DeletesAll-PoolsValid m (delete_pool m all_pools persist) good
      (delete_pool-DeletesAll m persist good more)
step-PoolsValid {m} good (delete_one_step id persist pos lt most) =
    DeletesOne-PoolsValid m id (delete_pool m (one_pool id) persist) pos good
      (delete_pool-DeletesOne m id persist good most lt)
step-PoolsValid {m} good (clear_step cleared persist) =
    Clears-PoolsValid cleared m ((clear_pool_bitmaps m cleared persist).1) good
      ((clear_pool_bitmaps-Clears m cleared persist good).1)

pub data PoolsReach (m : PoolMgr) : PoolMgr → Type 0 where
  here : PoolsReach m m
  then_step : {m' m'' : PoolMgr} → PoolsReach m m' → PoolStep m' m'' → PoolsReach m m''

-- Every sequence of creations, deletions and clearings of pools, persisted or not, where an id to
-- delete is neither 0 nor out of range, the maximum is at most NVM_KV_MAX_POOLS, and all pools are
-- deleted only where there is more than one, keeps the pool manager well-formed: the default pool
-- is in use and not in deletion, and every pool in deletion is in use.
pub reach-PoolsValid : {m m' : PoolMgr} → PoolsValid m → PoolsReach m m' → PoolsValid m'
reach-PoolsValid good here = good
reach-PoolsValid good (then_step before step) = step-PoolsValid (reach-PoolsValid good before) step
