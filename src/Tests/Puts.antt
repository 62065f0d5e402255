-- ===== src/Tests/Puts.antt =====
-- Runs and instances for kv_put of src/kv_store_mgr.cpp.
use nvmkv.Prelude.{◌≡◌, ◌^◌, ◌+◌, ◌%◌, true, false, none, [], ◌∷◌, refl, arith}
use nvmkv.Hash.{program}
use nvmkv.Util.{round_upto_blk}
use nvmkv.Write.{write_program}
use nvmkv.Media.{get_poolid_hash, probe_lba}
use nvmkv.Media.Quiet.{first_round}
use nvmkv.Read.{ReadArgs}
use nvmkv.Put.{PutInput, kv_put}
use nvmkv.Put.Release.{Releases, kv_put-Releases}
use nvmkv.Put.Stored.{Fits}
use nvmkv.Write.{Iov, nvm_iov_trim, Prepared}
use nvmkv.Put.Lost.{put_result, kv_put_trims_only}
use nvmkv.Tests.Flash.{Pairs, pair_at, blank, flash, flash-IsQuiet, flash-Writes, small_store}
use nvmkv.Tests.Reads.{collided}
use nvmkv.Tests.Writes.{small_device}

abbrev small_put : PutInput
small_put = record {
  pool_id = 2;
  key = 97 ∷ [];
  value = 1 ∷ 2 ∷ 3 ∷ 4 ∷ 5 ∷ 6 ∷ 7 ∷ 8 ∷ [];
  value_address = 8192;
  expiry = 0;
  replace = true;
  gen_count = 6;
}

abbrev plain_read : ReadArgs
plain_read = record {
  key = 97 ∷ [];
  pool_id = 2;
  value = 8192;
  value_len = 1024;
  buf = 4096;
  read_exact = false;
}

small_put-Fits : Fits flash small_store small_device small_put
unfolding write_program round_upto_blk
small_put-Fits = record { few = refl; some_iovs = refl; sector = omega arith }

kv_put-Releases_example :
    Releases flash small_store small_device small_put
      (7 ∷ [])
      none
      collided
      (kv_put flash small_store small_device small_put none (7 ∷ []) collided)
kv_put-Releases_example =
    kv_put-Releases flash small_store small_device small_put none (7 ∷ []) collided

-- The key with a value of 700 bytes, which the put replaces by 8 bytes.
abbrev longer : Pairs
longer =
    (
      probe_lba small_store (97 ∷ []) 2 0,
      record {
        sectors = 3;
        header = record blank { key_len = 1; pool_id = 2; value_len = 700 };
        body = 97 ∷ [];
      },
    )
    ∷ []

abbrev the_trim : Iov
the_trim = record {
  iov_base = 0;
  iov_len = 512;
  iov_lba = (probe_lba small_store (97 ∷ []) 2 0 + 1) % 2 ^ 64;
  iov_opcode = nvm_iov_trim;
}

kv_put_trims_only_example :
    let r = kv_put flash small_store small_device small_put none [] longer in
    (x : Prepared) × (w' : Pairs) × (pair_at w' ≡ pair_at longer)
    × (r.0 ≡ put_result small_put ((flash.nvm_writev x small_put.value (the_trim ∷ []) w').0))
    × (pair_at (r.1.world) ≡ pair_at ((flash.nvm_writev x small_put.value (the_trim ∷ []) w').1))
unfolding first_round probe_lba get_poolid_hash program write_program round_upto_blk
kv_put_trims_only_example =
    kv_put_trims_only flash small_store small_device small_put flash-IsQuiet flash-Writes [] longer
      0 700 the_trim small_put-Fits refl refl refl refl
