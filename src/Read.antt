-- ===== src/Read.antt =====
-- src/kv_store_mgr.cpp: kv_read_media, which looks for a key along its probe sequence.
pub mod Search
use nvmkv.Prelude.{
  ℕ, zero, suc, ◌+◌, ◌-◌, ◌*◌, ◌%◌, ◌^◌, Bool, true, false, not, ◌&&◌, ◌||◌, Option, none, some,
  List, [], ◌∷◌, ltb, ◌==◌, if◌then◌else◌, length,
}
use nvmkv.Error.{
  ErrorCode, internal_failure, invalid_input, out_of_memory, object_not_found, Status, success,
  failure, Result, ok, err,
}
use nvmkv.Util.{round_upto_blk}
use nvmkv.Write.{KvHeader}
use nvmkv.Media.{
  ReadIov, Reading, Media, Store, max_collision, probe_lba, holds_key, is_not_found, kv_expire,
}

-- The arguments of `kv_read_media`: addresses of the two buffers, and the rest.
pub record ReadArgs : Type 0 where
  pub key : List ℕ
  pub pool_id : ℕ
  pub value : ℕ
  pub value_len : ℕ
  pub buf : ℕ
  pub read_exact : Bool

-- `num_iovs` and the length of the second IOV, which stay from one round to the next. `iov_count` equals
-- `num_iovs` throughout, so that the IOVs of the code are always those at 0 and 1.
pub record ReadPlan : Type 0 where
  pub num_iovs : ℕ
  pub value_iov_len : ℕ

-- What one round comes to: the function returns an error, the key is there, or the search goes on.
pub data Seen : Type 0 where
  stopped : ErrorCode → Seen
  matched : Reading → Seen
  passed : Seen

-- `*key_hash`, and what the buffers hold.
pub record Found : Type 0 where
  pub lba : ℕ
  pub reading : Reading

pub first_plan : Store → ReadArgs → ReadPlan
first_plan st a =
    if a.value_len == 0
    then record { num_iovs = 1; value_iov_len = 0 }
    else record { num_iovs = 2; value_iov_len = round_upto_blk a.value_len st.sector_size }

-- What is read of a pair whose range has `found` sectors.
pub exact_plan : Store → ReadArgs → ReadPlan → ℕ → ReadPlan
exact_plan st a plan found =
    let temp_val_len = (found * st.sector_size + 2 ^ 32 - st.sector_size) % 2 ^ 32 in
    if temp_val_len == 0
    then record plan { num_iovs = 1 }
    else if ltb temp_val_len (round_upto_blk a.value_len st.sector_size)
    then record plan { value_iov_len = temp_val_len }
    else plan

pub read_iovs : Store → ReadArgs → ReadPlan → ℕ → List ReadIov
read_iovs st a plan lba =
    record { iov_base = a.buf; iov_len = st.sector_size; iov_lba = lba }
    ∷ (if plan.num_iovs == 1
        then []
        else record {
          iov_base = a.value;
          iov_len = plan.value_iov_len;
          iov_lba = (lba + 1) % 2 ^ 64;
        }
          ∷ [])

module _ (m : Media) (st : Store) where
  open m use {World, kv_range_exists, nvm_readv, get_buf}

  -- The match on the sector that was read.
  pub see_reading : ReadArgs → Result Reading → Seen
  see_reading a (err c) = stopped c
  see_reading a (ok r) =
      if not (r.read_len == 0) && holds_key r a.key a.pool_id then matched r else passed

  pub read_at : ReadArgs → ReadPlan → ℕ → World → (Seen × ReadPlan) × World
  unfolding see_reading read_iovs
  read_at a plan lba w =
      let got = nvm_readv (read_iovs st a plan lba) w in ((see_reading a (got.0), plan), got.1)

  -- What follows `kv_range_exists`.
  pub read_range : ReadArgs → ReadPlan → ℕ → Result ℕ × World → (Seen × ReadPlan) × World
  unfolding read_at exact_plan
  read_range a plan lba (ok found, w) = read_at a (exact_plan st a plan found) lba w
  read_range a plan lba (err c, w) =
      if is_not_found c then ((passed, plan), w) else ((stopped c, plan), w)

  pub read_round : ReadArgs → ReadPlan → ℕ → World → (Seen × ReadPlan) × World
  unfolding read_range read_at
  read_round a plan lba w =
      if a.read_exact && not (a.value_len == 0)
      then read_range a plan lba (kv_range_exists lba st.max_search_range w)
      else read_at a plan lba w

  -- The loop, with `n` rounds left after `itr`.
  pub read_loop : ReadArgs → ℕ → ℕ → ReadPlan → World → Result Found × World
  unfolding read_round
  read_loop a zero itr plan w = (err object_not_found, w)
  read_loop a (suc n) itr plan w =
      let lba = probe_lba st a.key a.pool_id itr in
      let round = read_round a plan lba w in
      elim (round.0.0) [
        | stopped c ↦ (err c, round.1)
        | matched r ↦ (ok (record { lba = lba; reading = r }), round.1)
        | passed ↦ read_loop a n (itr + 1) (round.0.1) (round.1)
      ]

  pub kv_read_media : ReadArgs → World → Result Found × World
  unfolding read_loop first_plan
  kv_read_media a w = read_loop a max_collision 0 (first_plan st a) w
