-- ===== src/Tests/Pools.antt =====
-- Instances of the theorems on src/kv_pool_manager.cpp, on a store of at most four pools.
use nvmkv.Prelude.{ℕ, zero, suc, ◌<◌, ◌≡◌, true, false, not, ◌&&◌, none, some, [], ◌∷◌, arith, refl}
use nvmkv.Error.{io, Status, success, failure, ok}
use nvmkv.Util.{round32, bits_per_uint32}
use nvmkv.Bitmap.{bitmap_ffa}
use nvmkv.Bitmap.Access.{member}
use nvmkv.Pool.{
  PoolMgr, PoolTag, zero_tag, all_pools, one_pool, create_pool, delete_pool, has_pools_to_delete,
  get_pool_deletion_bitmap, clear_pool_bitmaps, known_tag, pool_program,
}
use nvmkv.Pool.Valid.{PoolsValid}
use nvmkv.Pool.Create.{Creates, create_pool-Creates}
use nvmkv.Pool.Delete.{DeletesAll, delete_pool-DeletesAll}
use nvmkv.Pool.DeleteOne.{DeletesOne, delete_pool-DeletesOne}
use nvmkv.Pool.Drained.{clear-get_pool_deletion_bitmap}
use nvmkv.Pool.StaleTag.{create_pool_again}
use nvmkv.Pool.Steps.{here, then_step, create_step, delete_one_step, reach-PoolsValid}

-- Pools 0, 1 and 2 are in use, and pool 2 is in deletion.
abbrev pub three_pools : PoolMgr
three_pools = record {
  in_use = 7 ∷ [];
  deleted = 4 ∷ [];
  pool_tags = zero_tag ∷ (120 ∷ 0 ∷ []) ∷ zero_tag ∷ zero_tag ∷ [];
  tags_map = (120 ∷ [], 1) ∷ [];
  total_no_pools = 2;
  max_pools = 4;
}

abbrev pub saved : PoolMgr → Status
saved m = success

abbrev y_tag : PoolTag
y_tag = 121 ∷ 0 ∷ []

pub three_pools-PoolsValid : PoolsValid three_pools
unfolding round32 bits_per_uint32 member
three_pools-PoolsValid = record {
  used_fit = (omega arith, omega arith);
  deleted_fit = (omega arith, omega arith);
  counted = omega arith;
  some_pool = omega arith;
  default_used = refl;
  default_kept = refl;
  deleted_used = deleted_used;
}
  where
    deleted_used :
        (i : ℕ) → i < 4 → member three_pools.deleted i ≡ true → member three_pools.in_use i ≡ true
    deleted_used zero lt h = refl
    deleted_used (suc zero) lt h = refl
    deleted_used (suc (suc zero)) lt h = refl
    deleted_used (suc (suc (suc zero))) lt h = absurd (cc h)
    deleted_used (suc (suc (suc (suc i)))) lt h = absurd (omega arith)

create_run : (create_pool three_pools (some y_tag) saved).0 ≡ ok 3
unfolding pool_program bitmap_ffa
create_run = refl

create_pool-Creates_example :
    Creates three_pools (some y_tag) (create_pool three_pools (some y_tag) saved)
create_pool-Creates_example =
    create_pool-Creates three_pools (some y_tag) saved three_pools-PoolsValid

delete_pool-DeletesAll_example :
    DeletesAll three_pools saved (delete_pool three_pools all_pools saved)
delete_pool-DeletesAll_example =
    delete_pool-DeletesAll three_pools saved three_pools-PoolsValid (omega arith)

delete_pool-DeletesOne_example :
    DeletesOne three_pools 1 saved (delete_pool three_pools (one_pool 1) saved)
delete_pool-DeletesOne_example =
    delete_pool-DeletesOne three_pools 1 saved three_pools-PoolsValid (omega arith) (omega arith)

clear-get_pool_deletion_bitmap_example :
    (has_pools_to_delete
        (clear_pool_bitmaps three_pools ((get_pool_deletion_bitmap three_pools).0) saved).1
      ≡ false)
    × (member
          (clear_pool_bitmaps three_pools ((get_pool_deletion_bitmap three_pools).0) saved).1.in_use
          2
        ≡ (not (member (4 ∷ []) 2) && member (7 ∷ []) 2))
clear-get_pool_deletion_bitmap_example =
    clear-get_pool_deletion_bitmap three_pools saved 2 three_pools-PoolsValid (omega arith)

y_unknown : known_tag three_pools (121 ∷ []) ≡ none
unfolding pool_program
y_unknown = refl

three_free : bitmap_ffa three_pools.in_use 4 ≡ (some 3, 15 ∷ [])
unfolding bitmap_ffa
three_free = refl

create_pool_again_example :
    ((create_pool (create_pool three_pools (some y_tag) (λ m. failure io)).1 (some y_tag) saved).0
      ≡ ok 3)
    × (member (create_pool three_pools (some y_tag) (λ m. failure io)).1.in_use 3 ≡ false)
create_pool_again_example =
    create_pool_again three_pools y_tag 121 [] 3 (15 ∷ []) io saved three_pools-PoolsValid refl
      y_unknown refl three_free

reach-PoolsValid_example :
    PoolsValid
      (delete_pool (create_pool three_pools (some y_tag) saved).1 (one_pool 1) (λ m. failure io)).1
unfolding pool_program bitmap_ffa
reach-PoolsValid_example = reach-PoolsValid three_pools-PoolsValid (
    then_step (then_step here (create_step (some y_tag) saved))
      (delete_one_step 1 (λ m. failure io) (omega arith) (omega arith) (omega arith)))
