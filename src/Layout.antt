-- ===== src/Layout.antt =====
-- src/kv_layout.cpp: how the sectors of a store are divided, and the part of NVM_KV_Store::initialize of
-- src/kv_store.cpp that reserves the records for the metadata and the tags of the pools.
pub mod Division
use nvmkv.Prelude.{ℕ, zero, suc, ◌+◌, ◌-◌, ◌*◌, ◌/◌, ◌%◌, ◌^◌, ◌==◌, if◌then◌else◌}
use nvmkv.Util.{round_upto_blk}
use nvmkv.Persist.{metadata_size}

-- M_KV_MAX_VALUE_RANGE, in bytes.
abbrev pub max_value_range : ℕ
max_value_range = 2097152

-- `NVM_KV_Layout`
pub record KvLayout : Type 0 where
  pub in_use_bm_lba : ℕ
  pub del_bm_lba : ℕ
  pub pool_tags_lba : ℕ
  pub user_data_start_lba : ℕ
  pub sector_size : ℕ
  pub sect_bits : ℕ
  pub value_bits : ℕ
  pub key_bits : ℕ
  pub max_value_size : ℕ
  pub pool_bits : ℕ
  pub kv_len : ℕ
  pub md_recs : ℕ

-- The loops `while ((x = x >> 1)) bits++`: 64 rounds bring a word of 64 bits to 0.
unfoldable pub shifts : ℕ → ℕ → ℕ
shifts zero x = 0
shifts (suc n) x = let rest = shifts n (x / 2) in if x / 2 == 0 then 0 else suc rest

-- `a - b` on `uint32_t`.
abbrev pub minus32 : ℕ → ℕ → ℕ
minus32 a b = (a + 2 ^ 32 - b) % 2 ^ 32

-- The constructor. What it does not set is 0 here: the records of the metadata and the bit map of the
-- pools in deletion, which are set behind it.
pub new_layout : ℕ → ℕ → KvLayout
unfolding shifts
new_layout sector_size sparse_addr_bits =
    let in_sector = max_value_range / sector_size in
    record {
      in_use_bm_lba = round_upto_blk metadata_size sector_size / sector_size;
      del_bm_lba = 0;
      pool_tags_lba = in_sector;
      user_data_start_lba = 0;
      sector_size = sector_size;
      sect_bits = shifts 64 sector_size;
      value_bits = shifts 64 in_sector;
      key_bits = minus32 sparse_addr_bits (shifts 64 in_sector);
      max_value_size = max_value_range / 2 - sector_size;
      pool_bits = minus32 (shifts 64 in_sector) 1;
      kv_len = 2 ^ sparse_addr_bits % 2 ^ 64;
      md_recs = 0;
    }

pub set_md_rec : ℕ → KvLayout → KvLayout
set_md_rec md_recs l = record l {
  md_recs = md_recs;
  user_data_start_lba = md_recs * max_value_range % 2 ^ 64 / l.sector_size;
}

unfoldable pub set_del_bm_lba : ℕ → KvLayout → KvLayout
set_del_bm_lba lba l = record l { del_bm_lba = lba }

pub get_max_search_range : KvLayout → ℕ
get_max_search_range l = max_value_range / l.sector_size

-- `sizeof(nvm_kv_pool_tag_t)`
abbrev pub pool_tag_bytes : ℕ
pool_tag_bytes = 16

-- `slice_addr`: the records that the tags fill, and one for the metadata and the bit maps. The size of
-- the tags is on 32 bits.
pub slice_addr : ℕ → ℕ → ℕ
slice_addr sector_size max_pools =
    let tags = pool_tag_bytes * max_pools % 2 ^ 32 in
    let in_sectors = round_upto_blk tags sector_size % 2 ^ 32 in
    round_upto_blk in_sectors max_value_range % 2 ^ 32 / max_value_range + 1

-- The layout that `initialize` makes for a store.
pub store_layout : ℕ → ℕ → ℕ → KvLayout
unfolding new_layout set_md_rec slice_addr
store_layout sector_size sparse_addr_bits max_pools =
    set_md_rec (slice_addr sector_size max_pools) (new_layout sector_size sparse_addr_bits)
