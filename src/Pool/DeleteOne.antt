-- ===== src/Pool/DeleteOne.antt =====
-- `delete_pool` of src/kv_pool_manager.cpp for one pool.
use mathlib.Core.Path.{subst}
use nvmkv.Prelude.{
  ℕ, ◌<◌, ◌≤◌, ◌≡◌, true, false, ◌||◌, arith, ◌==◌, Bool-cases, inl, inr, refl, sym,
}
use nvmkv.Error.{ErrorCode, invalid_input, Status, success, failure, Status-cases}
use nvmkv.Bitmap.Access.{member}
use nvmkv.Pool.{
  PoolMgr, one_pool, pool_not_in_use, pool_in_use, pool_deletion_in_progress, nvm_kv_max_pools,
  check_pool_status, mark_pool, unmark_pool, over_pools, mark_pools, delete_pool,
}
use nvmkv.Pool.Valid.{
  PoolsValid, Kept, Kept-trans, Holds-capacity, Writes, mark_pool-Writes, unmark_pool-Writes,
}
use nvmkv.Pool.Delete.{check_pool_status-member, mark_pools_ok, mark_pools_err}

-- What a deletion of one pool that returned `r` did.
pub data DeletesOne (m : PoolMgr) (id : ℕ) (persist : PoolMgr → Status) (r : Status × PoolMgr)
    : Type 0 where
  unused : member m.in_use id ≡ false → r ≡ (failure invalid_input, m) → DeletesOne m id persist r
  in_deletion : member m.deleted id ≡ true → r ≡ (success, m) → DeletesOne m id persist r
  one_marked :
      member m.in_use id ≡ true
      → member m.deleted id ≡ false
      → persist (r.1) ≡ success
      → r.0 ≡ success
      → Kept m (r.1)
      → ((j : ℕ) → member r.1.deleted j ≡ (id == j || member m.deleted j))
      → DeletesOne m id persist r
  taken_back :
      (c : ErrorCode) (tried : PoolMgr)
      → member m.in_use id ≡ true
      → member m.deleted id ≡ false
      → Kept m tried
      → ((j : ℕ) → member tried.deleted j ≡ (id == j || member m.deleted j))
      → persist tried ≡ failure c
      → r.0 ≡ failure c
      → Kept m (r.1)
      → ((j : ℕ) → member r.1.deleted j ≡ member m.deleted j)
      → DeletesOne m id persist r

-- The equations of `delete_pool` for one id.
module _ (m : PoolMgr) (id : ℕ) (persist : PoolMgr → Status) where
  delete_in_use :
      check_pool_status m (one_pool id) ≡ pool_in_use
      → delete_pool m (one_pool id) persist ≡ mark_pools m (one_pool id) persist
  unfolding delete_pool
  delete_in_use h = ground (arith, h)

  delete_in_deletion :
      check_pool_status m (one_pool id) ≡ pool_deletion_in_progress
      → delete_pool m (one_pool id) persist ≡ (success, m)
  unfolding delete_pool
  delete_in_deletion h = ground (arith, h)

  delete_unused :
      check_pool_status m (one_pool id) ≡ pool_not_in_use
      → delete_pool m (one_pool id) persist ≡ (failure invalid_input, m)
  unfolding delete_pool
  delete_unused h = ground (arith, h)

module _ (m : PoolMgr) (good : PoolsValid m) (id : ℕ) (lt : id < m.max_pools)
    (used : member m.in_use id ≡ true) (kept : member m.deleted id ≡ false) where
  marked_one : Writes true m id (over_pools mark_pool (one_pool id) m)
  unfolding over_pools
  marked_one = mark_pool-Writes m id (Holds-capacity m.deleted m.max_pools id (good.deleted_fit) lt)

  marked_bits :
      (j : ℕ)
      → member (over_pools mark_pool (one_pool id) m).deleted j ≡ (id == j || member m.deleted j)
  marked_bits j = ground (arith, marked_one.bits j)

  unmarked_one :
      Writes false
        (over_pools mark_pool (one_pool id) m)
        id
        (over_pools unmark_pool (one_pool id) (over_pools mark_pool (one_pool id) m))
  unfolding over_pools
  unmarked_one = unmark_pool-Writes (mark_pool m id) id (
      rw (marked_one.kept.same_capacity)
        (Holds-capacity m.deleted m.max_pools id (good.deleted_fit) lt))

  restored_bits :
      (j : ℕ)
      → member
          (over_pools unmark_pool (one_pool id) (over_pools mark_pool (one_pool id) m)).deleted
          j
        ≡ member m.deleted j
  restored_bits j =
      let still : member (over_pools mark_pool (one_pool id) m).in_use id ≡ true =
        rw (marked_one.kept.same_used) used in
      elim (Bool-cases (id == j)) [
        | inl same ↦
            let e : id ≡ j = ground arith in
            let before : member m.deleted j ≡ false = rw e at kept in
            ground (arith, still, unmarked_one.bits j, before)
        | inr other ↦ ground (arith, still, unmarked_one.bits j, marked_bits j)
      ]

  deletes_used :
      (persist : PoolMgr → Status) → DeletesOne m id persist (mark_pools m (one_pool id) persist)
  deletes_used persist = elim (Status-cases (persist (over_pools mark_pool (one_pool id) m))) [
    | inl done ↦
        subst (λ (r : Status × PoolMgr). DeletesOne m id persist r)
          (sym (mark_pools_ok m (one_pool id) persist done))
          (one_marked used kept done refl (marked_one.kept) marked_bits)
    | inr (c, failed) ↦
        subst (λ (r : Status × PoolMgr). DeletesOne m id persist r)
          (sym (mark_pools_err m (one_pool id) persist c failed))
          (taken_back c _ used kept (marked_one.kept) marked_bits failed refl
            (Kept-trans (marked_one.kept) (unmarked_one.kept)) restored_bits)
  ]

-- In a well-formed state with at most NVM_KV_MAX_POOLS pools, a deletion of one pool below the
-- maximum fails for an id that is not in use, does nothing for a pool in deletion, and otherwise
-- persists the state with the deletion bit of that pool set: where that succeeds this is the state
-- afterwards, and where it fails the error is returned and every deletion bit is as it was.
pub delete_pool-DeletesOne :
    (m : PoolMgr) (id : ℕ) (persist : PoolMgr → Status)
    → PoolsValid m
    → m.max_pools ≤ nvm_kv_max_pools
    → id < m.max_pools
    → DeletesOne m id persist (delete_pool m (one_pool id) persist)
delete_pool-DeletesOne m id persist good most lt =
    let status = check_pool_status-member m id good most lt in
    elim (Bool-cases (member m.deleted id)) [
      | inl gone ↦ in_deletion gone (delete_in_deletion m id persist (ground (arith, status)))
      | inr kept ↦ elim (Bool-cases (member m.in_use id)) [
        | inr free ↦ unused free (delete_unused m id persist (ground (arith, status)))
        | inl used ↦
            subst (λ (r : Status × PoolMgr). DeletesOne m id persist r)
              (sym (delete_in_use m id persist (ground (arith, status))))
              (deletes_used m good id lt used kept persist)
      ]
    ]
