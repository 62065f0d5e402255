-- ===== src/Cursor/Stuck.antt =====
-- src/kv_store_mgr.cpp: kv_iteration_end for an iterator of a pool that is deleted by then.
use nvmkv.Prelude.{ℕ, ◌<◌, ◌≤◌, ◌≡◌, true, false, some, arith, refl, ap, ◌∙◌}
use nvmkv.Error.{invalid_input, Status, success, failure, ok}
use nvmkv.Bitmap.Access.{member}
use nvmkv.Pool.{
  PoolMgr, one_pool, pool_deletion_in_progress, nvm_kv_max_pools, check_pool_status, delete_pool,
}
use nvmkv.Pool.Valid.{PoolsValid}
use nvmkv.Pool.Delete.{check_pool_status-member}
use nvmkv.Pool.DeleteOne.{
  DeletesOne, unused, in_deletion, one_marked, taken_back, delete_pool-DeletesOne,
}
use nvmkv.Pool.Steps.{DeletesOne-PoolsValid}
use nvmkv.Validate.{kviterend, KvMap, OpenStore, kv_internal_validation}
use nvmkv.Media.{Media, Store}
use nvmkv.Ranges.{Lister}
use nvmkv.Iterator.{BatchIter, IterTable, at, slot, pool_iterable}
use nvmkv.Iterator.Slots.{free_iterator_refused}
use nvmkv.Cursor.{IterConfig, id_flags, bare_call, kv_iteration_end}

-- The deletion bit of a pool whose deletion succeeded.
deleted_bit :
    {persist : PoolMgr → Status} (m : PoolMgr) (p : ℕ) (r : Status × PoolMgr)
    → DeletesOne m p persist r
    → r.0 ≡ success
    → member r.1.deleted p ≡ true
deleted_bit m p r (unused free e) done = cc
deleted_bit m p r (in_deletion gone e) done =
    ap (λ (x : Status × PoolMgr). member (x.1.deleted) p) e ∙ gone
deleted_bit m p r (one_marked used still stored e kept bits) done = ground (arith, bits p)
deleted_bit m p r (taken_back c tried used still tried_kept tried_bits failed e kept bits) done = cc

deleted_max :
    {persist : PoolMgr → Status} (m : PoolMgr) (p : ℕ) (r : Status × PoolMgr)
    → DeletesOne m p persist r
    → r.1.max_pools ≡ m.max_pools
deleted_max m p r (unused free e) = ap (λ (x : Status × PoolMgr). x.1.max_pools) e
deleted_max m p r (in_deletion gone e) = ap (λ (x : Status × PoolMgr). x.1.max_pools) e
deleted_max m p r (one_marked used still stored e kept bits) = kept.same_max
deleted_max m p r (taken_back c tried used still tried_kept tried_bits failed e kept bits) =
    kept.same_max

-- A pool whose deletion succeeded is in deletion.
delete_pool-check_pool_status :
    (m : PoolMgr) (p : ℕ) (persist : PoolMgr → Status)
    → PoolsValid m
    → m.max_pools ≤ nvm_kv_max_pools
    → 0 < p
    → p < m.max_pools
    → (delete_pool m (one_pool p) persist).0 ≡ success
    → check_pool_status ((delete_pool m (one_pool p) persist).1) (one_pool p)
      ≡ pool_deletion_in_progress
delete_pool-check_pool_status m p persist good most pos lt done =
    let r = delete_pool m (one_pool p) persist in
    let deletes = delete_pool-DeletesOne m p persist good most lt in
    let same = deleted_max m p r deletes in
    check_pool_status-member (r.1) p (DeletesOne-PoolsValid m p r pos good deletes)
      (omega (arith, most, same)) (omega (arith, lt, same))
    ∙ rw (deleted_bit m p r deletes done) refl

-- In a well-formed state of the pools with at most NVM_KV_MAX_POOLS pools: once the deletion of a pool
-- other than the default one has succeeded, kv_iteration_end for an iterator of that pool, with an id
-- that is open, fails with NVM_ERR_INVALID_INPUT and leaves the iterator in its slot.
pub kv_iteration_end_deleted :
    (m : Media) (lister : Lister m) (stores : KvMap) (given open_store : OpenStore) (st : Store)
    (conf : IterConfig) (id p i : ℕ) (mgr : PoolMgr) (persist : PoolMgr → Status) (t : IterTable)
    (b : BatchIter)
    → PoolsValid mgr
    → mgr.max_pools ≤ nvm_kv_max_pools
    → 0 < p
    → p < mgr.max_pools
    → (delete_pool mgr (one_pool p) persist).0 ≡ success
    → kv_internal_validation (id_flags false) stores given (bare_call id (one_pool 0) kviterend)
      ≡ ok open_store
    → open_store.pool_mgr ≡ (delete_pool mgr (one_pool p) persist).1
    → slot t i ≡ some b
    → b.pool_id ≡ one_pool p
    → kv_iteration_end m lister stores given st conf id (at i) t ≡ (failure invalid_input, t)
unfolding kv_iteration_end
kv_iteration_end_deleted m lister stores given open_store st conf id p i mgr persist t b good most
      pos lt done valid now stands owner =
    let gone = delete_pool-check_pool_status mgr p persist good most pos lt done in
    let refused : pool_iterable open_store.pool_mgr b ≡ false = rw (now, owner, gone) refl in
    rw (valid, kv_iteration_end) (free_iterator_refused open_store.pool_mgr i t b stands refused)
