-- ===== src/Pool/Delete.antt =====
-- `delete_pool` of src/kv_pool_manager.cpp and the states of a pool.
use mathlib.Core.Path.{subst}
use nvmkv.Prelude.{
  ℕ, suc, ◌-◌, ◌<◌, ◌≤◌, ◌≡◌, true, false, not, ◌&&◌, arith, ltb, ◌==◌, if◌then◌else◌, Bool-cases,
  inl, inr, refl, sym, ap,
}
use nvmkv.Error.{ErrorCode, Status, success, failure, Status-cases}
use nvmkv.Bitmap.{KvBitmap}
use nvmkv.Bitmap.Access.{member, capacity, bitmap_test-member}
use nvmkv.Pool.{
  PoolMgr, PoolId, all_pools, one_pool, pool_not_in_use, pool_in_use, pool_deletion_in_progress,
  nvm_kv_max_pools, valid_poolid, pool_in_del, status_of, check_pool_status, mark_pool, unmark_pool,
  over_pools, mark_pools, delete_pool,
}
use nvmkv.Pool.Valid.{
  PoolsValid, Kept, Kept-trans, Holds-capacity, WritesFrom, mark_pool-Writes, unmark_pool-Writes,
  do_pools-WritesFrom,
}

-- In a well-formed state with at most NVM_KV_MAX_POOLS pools, the status of an id below the maximum
-- is in deletion, in use or not in use as its bits in the two bit maps say.
pub check_pool_status-member :
    (m : PoolMgr) (id : ℕ)
    → PoolsValid m
    → m.max_pools ≤ nvm_kv_max_pools
    → id < m.max_pools
    → check_pool_status m (one_pool id) ≡ (
        if member m.deleted id
        then pool_deletion_in_progress
        else (if member m.in_use id then pool_in_use else pool_not_in_use))
unfolding check_pool_status valid_poolid pool_in_del status_of
check_pool_status-member m id good most lt =
    let used = bitmap_test-member m.in_use id in
    let gone = bitmap_test-member m.deleted id in
    let default : id ≡ 0 → member m.in_use id ≡ true = λ e. rw e (good.default_used) in
    elim (Bool-cases (member m.deleted id)) [
      | inl deleted ↦ ground (arith, used, gone, good.deleted_used id lt deleted)
      | inr kept ↦ elim (Bool-cases (member m.in_use id)) [
        | inl is_used ↦ ground (arith, used, gone)
        | inr free ↦ elim (Bool-cases (id == 0)) [
          | inl zero_id ↦ absurd (ground (arith, default (ground arith)))
          | inr other ↦ ground (arith, used, gone)
        ]
      ]
    ]

-- The two ends of the locked part.
module _ (m : PoolMgr) (id : PoolId) (persist : PoolMgr → Status) where
  pub mark_pools_ok :
      persist (over_pools mark_pool id m) ≡ success
      → mark_pools m id persist ≡ (success, over_pools mark_pool id m)
  unfolding mark_pools
  mark_pools_ok h = ground (arith, h)

  pub mark_pools_err :
      (c : ErrorCode)
      → persist (over_pools mark_pool id m) ≡ failure c
      → mark_pools m id persist ≡ (failure c, over_pools unmark_pool id (over_pools mark_pool id m))
  unfolding mark_pools
  mark_pools_err c h = ground (arith, h)

module _ (m : PoolMgr) (good : PoolsValid m) (more : 1 < m.max_pools) where
  deleted_room : m.max_pools ≤ capacity m.deleted
  deleted_room =
      let last =
        Holds-capacity m.deleted m.max_pools (m.max_pools - 1) (good.deleted_fit) (omega arith) in
      omega (arith, last)

  marked_all : WritesFrom true m 1 (over_pools mark_pool all_pools m)
  unfolding over_pools
  marked_all =
      do_pools-WritesFrom true mark_pool mark_pool-Writes (suc m.max_pools) m 1 more (omega arith)
        deleted_room

  unmarked_all :
      WritesFrom false
        (over_pools mark_pool all_pools m)
        1
        (over_pools unmark_pool all_pools (over_pools mark_pool all_pools m))
  unfolding over_pools
  unmarked_all =
      let w = marked_all in
      let m' = over_pools mark_pool all_pools m in
      let room : m'.max_pools ≤ capacity m'.deleted =
        omega (arith, w.kept.same_max, w.kept.same_capacity, deleted_room) in
      do_pools-WritesFrom false unmark_pool unmark_pool-Writes (suc m'.max_pools) m' 1
        (omega (arith, w.kept.same_max)) (omega arith) room

  deleted_bits :
      (i : ℕ)
      → i < m.max_pools
      → member (over_pools mark_pool all_pools m).deleted i ≡ (not (i == 0) && member m.in_use i)
  deleted_bits i lt = elim (Bool-cases (member m.deleted i)) [
    | inl gone ↦ elim (Bool-cases (i == 0)) [
      | inl zero_id ↦
          let e : i ≡ 0 = ground arith in
          let kept : member m.deleted i ≡ false = rw e (good.default_kept) in
          absurd (ground (arith, kept, gone))
      | inr other ↦ ground (arith, marked_all.bits i, good.deleted_used i lt gone)
    ]
    | inr kept ↦ ground (arith, marked_all.bits i)
  ]

  unmarked_bits :
      (i : ℕ)
      → i < m.max_pools
      → member (over_pools unmark_pool all_pools (over_pools mark_pool all_pools m)).deleted i
        ≡ false
  unmarked_bits i lt =
      let m' = over_pools mark_pool all_pools m in
      let still : member m'.in_use i ≡ member m.in_use i =
        ap (λ (b : KvBitmap). member b i) (marked_all.kept.same_used) in
      let below : ltb i m'.max_pools ≡ true = rw (marked_all.kept.same_max) (ground arith) in
      ground (arith, still, below, unmarked_all.bits i, deleted_bits i lt)

-- What a deletion of all pools that returned `r` did.
pub data DeletesAll (m : PoolMgr) (persist : PoolMgr → Status) (r : Status × PoolMgr) : Type 0 where
  all_marked :
      persist (r.1) ≡ success
      → r.0 ≡ success
      → Kept m (r.1)
      → ((i : ℕ) → i < m.max_pools → member r.1.deleted i ≡ (not (i == 0) && member m.in_use i))
      → DeletesAll m persist r
  none_marked :
      (c : ErrorCode) (tried : PoolMgr)
      → Kept m tried
      → ((i : ℕ) → i < m.max_pools → member tried.deleted i ≡ (not (i == 0) && member m.in_use i))
      → persist tried ≡ failure c
      → r.0 ≡ failure c
      → Kept m (r.1)
      → ((i : ℕ) → i < m.max_pools → member r.1.deleted i ≡ false)
      → DeletesAll m persist r

-- In a well-formed state with more than one pool, a deletion of all pools persists the state in which
-- exactly the pools in use but the default one are in deletion. Where that succeeds this is the state
-- afterwards; where it fails the error is returned and no pool is in deletion afterwards, not even one
-- that was before.
pub delete_pool-DeletesAll :
    (m : PoolMgr) (persist : PoolMgr → Status)
    → PoolsValid m
    → 1 < m.max_pools
    → DeletesAll m persist (delete_pool m all_pools persist)
unfolding delete_pool
delete_pool-DeletesAll m persist good more =
    let marked = over_pools mark_pool all_pools m in
    elim (Status-cases (persist marked)) [
      | inl done ↦
          subst (λ (r : Status × PoolMgr). DeletesAll m persist r)
            (sym (mark_pools_ok m all_pools persist done))
            (all_marked done refl ((marked_all m good more).kept) (deleted_bits m good more))
      | inr (c, failed) ↦
          subst (λ (r : Status × PoolMgr). DeletesAll m persist r)
            (sym (mark_pools_err m all_pools persist c failed))
            (none_marked c marked ((marked_all m good more).kept) (deleted_bits m good more) failed
              refl (Kept-trans ((marked_all m good more).kept) ((unmarked_all m good more).kept))
              (unmarked_bits m good more))
    ]
