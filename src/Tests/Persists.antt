-- ===== src/Tests/Persists.antt =====
-- Instances of the theorems on the batch writes of src/kv_pool_manager.cpp.
use nvmkv.Prelude.{◌≡◌, true, false, some, [], ◌∷◌, refl}
use nvmkv.Write.{nvm_iov_write}
use nvmkv.Persist.{StoreMap, StoreInfo, persist_iovs}

abbrev many_pools : StoreMap
many_pools = record {
  sector_size = 512;
  sector_bits = 9;
  max_pools = 10000;
  pool_tags = 65536;
  metadata = 4096;
  in_use = 8192;
  deleted = 16384;
  pool_tags_lba = 2048;
  metadata_lba = 0;
  inuse_bm_lba = 1;
  del_bm_lba = 4;
}

abbrev both_bitmaps : StoreInfo
both_bitmaps = record {
  has_metadata = false;
  has_in_use = true;
  has_deleted = true;
  has_tags = false;
}

persist_run :
    persist_iovs many_pools both_bitmaps (some 5000)
    ≡ record { iov_base = 8704; iov_len = 512; iov_lba = 2; iov_opcode = nvm_iov_write }
      ∷ record { iov_base = 16896; iov_len = 512; iov_lba = 5; iov_opcode = nvm_iov_write }
      ∷ []
unfolding persist_iovs
persist_run = refl
