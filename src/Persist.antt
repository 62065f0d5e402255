-- ===== src/Persist.antt =====
-- src/kv_pool_manager.cpp: the IOVs by which `persist_store_info` writes the metadata of the store, the
-- bit maps and the tags of the pools in one batch write. All tags at once, which take writes of their
-- own (`persist_pool_tags`), are not modelled.
pub mod Sectors
use nvmkv.Prelude.{
  ℕ, ◌+◌, ◌*◌, ◌/◌, ◌^◌, Bool, true, false, Option, none, some, List, [], ◌∷◌, ◌++◌, if◌then◌else◌,
}
use nvmkv.Util.{round_upto_blk, round32, bits_per_uint8}
use nvmkv.Bitmap.{bit_index_sector}
use nvmkv.Write.{Iov, nvm_iov_write}

-- What of the pool manager, its layout and its device `persist_store_info` reads: addresses in memory,
-- LBAs on the media, and the size of a sector.
pub record StoreMap : Type 0 where
  pub sector_size : ℕ
  pub sector_bits : ℕ
  pub max_pools : ℕ
  pub pool_tags : ℕ
  pub metadata : ℕ
  pub in_use : ℕ
  pub deleted : ℕ
  pub pool_tags_lba : ℕ
  pub metadata_lba : ℕ
  pub inuse_bm_lba : ℕ
  pub del_bm_lba : ℕ

-- The bits M_KVSTORE_METADATA, M_KV_BM_INUSE, M_KV_BM_DELETED and M_KV_POOL_TAGS of `type`.
pub record StoreInfo : Type 0 where
  pub has_metadata : Bool
  pub has_in_use : Bool
  pub has_deleted : Bool
  pub has_tags : Bool

abbrev pub pool_tag_size : ℕ
pool_tag_size = 16

-- `sizeof(nvm_kv_store_metadata_t)`
abbrev pub metadata_size : ℕ
metadata_size = 64

unfoldable pub get_pool_tag_sect : ℕ → ℕ → ℕ
get_pool_tag_sect sect_bits pool_id = pool_id * pool_tag_size / 2 ^ sect_bits

-- One bit map: all of it for the index -1 (`none`), or the sector of a pool.
unfoldable pub bitmap_iov : StoreMap → ℕ → ℕ → Option ℕ → Iov
unfolding bit_index_sector round_upto_blk round32 bits_per_uint8
bitmap_iov s base lba none = record {
  iov_base = base;
  iov_len = round_upto_blk (bits_per_uint8 (round32 s.max_pools)) s.sector_size;
  iov_lba = lba;
  iov_opcode = nvm_iov_write;
}
bitmap_iov s base lba (some pool_index) = record {
  iov_base = base + bit_index_sector pool_index s.sector_bits * s.sector_size;
  iov_len = s.sector_size;
  iov_lba = lba + bit_index_sector pool_index s.sector_bits;
  iov_opcode = nvm_iov_write;
}

-- The sector of the tag of one pool.
unfoldable pub tag_iovs : StoreMap → Option ℕ → List Iov
unfolding get_pool_tag_sect
tag_iovs s none = []
tag_iovs s (some pool_index) =
    record {
      iov_base = s.pool_tags + get_pool_tag_sect s.sector_bits pool_index * s.sector_size;
      iov_len = s.sector_size;
      iov_lba = s.pool_tags_lba + get_pool_tag_sect s.sector_bits pool_index;
      iov_opcode = nvm_iov_write;
    }
    ∷ []

unfoldable pub metadata_iov : StoreMap → Iov
unfolding round_upto_blk
metadata_iov s = record {
  iov_base = s.metadata;
  iov_len = round_upto_blk metadata_size s.sector_size;
  iov_lba = s.metadata_lba;
  iov_opcode = nvm_iov_write;
}

unfoldable pub persist_iovs : StoreMap → StoreInfo → Option ℕ → List Iov
unfolding bitmap_iov tag_iovs metadata_iov
persist_iovs s info pool_index =
    (if info.has_tags then tag_iovs s pool_index else [])
    ++ ((if info.has_metadata then metadata_iov s ∷ [] else [])
        ++ ((if info.has_in_use then bitmap_iov s s.in_use s.inuse_bm_lba pool_index ∷ [] else [])
            ++ (if info.has_deleted
                then bitmap_iov s s.deleted s.del_bm_lba pool_index ∷ []
                else [])))
