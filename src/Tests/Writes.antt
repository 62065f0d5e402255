-- ===== src/Tests/Writes.antt =====
-- Instances of the theorems on the layout of writes in src/kv_store_mgr.cpp, with sectors of 512 bytes.
use nvmkv.Prelude.{◌+◌, ◌^◌, ◌≡◌, true, some, List, [], ◌∷◌, arith, replicate, refl}
use nvmkv.Error.{ok}
use nvmkv.Util.{round_upto_blk}
use nvmkv.Util.Round.{RoundsUp}
use nvmkv.Write.{
  Capabilities, Iov, nvm_iov_write, nvm_iov_trim, WriteArgs, kv_process_for_write,
  kv_process_for_trim, write_program,
}
use nvmkv.Write.Tiling.{Tiles}
use nvmkv.Write.Cover.{header_iov, kv_process_for_write_user}

abbrev pub small_device : Capabilities
small_device = record {
  nvm_max_num_iovs = 64;
  nvm_atomic_write_multiplicity = 512;
  nvm_max_write_size_per_iov = 2;
  nvm_max_trim_size_per_iov = 16;
  nvm_sector_size = 512;
}

abbrev user_write : WriteArgs
user_write = record {
  pool_id = 1;
  key = 97 ∷ [];
  value = replicate 40 5;
  value_address = 8192;
  buf = 4096;
  user_buffer_usage = true;
  expiry = 0;
  gen_count = 0;
  key_hash_val = 2048;
  value_offset = 512;
}

iovec_run :
    (kv_process_for_write small_device user_write 0).iovec
    ≡ record { iov_base = 4096; iov_len = 512; iov_lba = 2048; iov_opcode = nvm_iov_write }
      ∷ record { iov_base = 8192; iov_len = 512; iov_lba = 2049; iov_opcode = nvm_iov_write }
      ∷ []
unfolding write_program round_upto_blk
iovec_run = refl

kv_process_for_write_user_example :
    (vs : List Iov) × ((kv_process_for_write small_device user_write 0).iovec
      ≡ header_iov small_device user_write ∷ vs)
    × RoundsUp 40 (2 ^ 9) (round_upto_blk 40 512)
    × Tiles 512 1024 8192 (2048 + 1) vs (round_upto_blk 40 512)
kv_process_for_write_user_example =
    kv_process_for_write_user small_device user_write 0 9 (omega arith) refl refl refl (omega arith)
      (omega arith) (omega arith) (omega arith)

trim_run :
    kv_process_for_trim small_device 600 1600 2048
    ≡ ok (some (record { iov_base = 0; iov_len = 1024; iov_lba = 2050; iov_opcode = nvm_iov_trim }))
unfolding write_program round_upto_blk
trim_run = refl
