-- ===== src/Tests/Reads.antt =====
-- Runs and instances for the searches of src/kv_store_mgr.cpp.
use nvmkv.Prelude.{◌≡◌, true, some, [], ◌∷◌, refl}
use nvmkv.Hash.{program}
use nvmkv.Media.{get_poolid_hash, probe_lba}
use nvmkv.Media.Quiet.{Pair, first_match, first_round}
use nvmkv.Read.{ReadArgs, kv_read_media}
use nvmkv.Read.Search.{Returns, kv_read_media-first_match}
use nvmkv.Tests.Flash.{Pairs, pair_at, blank, flash, flash-IsQuiet, small_store}

abbrev pub other_pair : Pair
other_pair = record {
  sectors = 3;
  header = record blank { key_len = 1; pool_id = 2; value_len = 700 };
  body = 98 ∷ [];
}

abbrev pub key_pair : Pair
key_pair = record {
  sectors = 1;
  header = record blank { key_len = 1; pool_id = 2; value_len = 8; gen_count = 5 };
  body = 97 ∷ 1 ∷ [];
}

-- Another key stands at the first probe of the key "a" of pool 2, and "a" at the second.
abbrev pub collided : Pairs
collided =
    (probe_lba small_store (97 ∷ []) 2 0, other_pair)
    ∷ (probe_lba small_store (97 ∷ []) 2 1, key_pair)
    ∷ []

abbrev exact_read : ReadArgs
exact_read = record {
  key = 97 ∷ [];
  pool_id = 2;
  value = 8192;
  value_len = 1024;
  buf = 4096;
  read_exact = true;
}

second_run : first_match (pair_at collided) small_store (97 ∷ []) 2 ≡ some 1
unfolding first_match first_round probe_lba get_poolid_hash program
second_run = refl

kv_read_media-first_match_example :
    Returns flash small_store flash-IsQuiet
      (pair_at collided)
      exact_read
      (first_match (pair_at collided) small_store (97 ∷ []) 2)
      ((kv_read_media flash small_store exact_read collided).0)
    × (pair_at ((kv_read_media flash small_store exact_read collided).1) ≡ pair_at collided)
kv_read_media-first_match_example =
    kv_read_media-first_match flash small_store flash-IsQuiet exact_read collided (refl, refl)
