-- ===== src/Tests/Gens.antt =====
-- Runs and instances for kv_gen_lba of src/kv_store_mgr.cpp.
use nvmkv.Prelude.{◌≡◌, true, false, none, some, [], ◌∷◌, refl}
use nvmkv.Hash.{program}
use nvmkv.Media.{get_poolid_hash, probe_lba}
use nvmkv.Media.Quiet.{first_round}
use nvmkv.Gen.{GenArgs, LbaList, lba_find, Gen, Generated, kv_gen_lba}
use nvmkv.Error.{success}
use nvmkv.Gen.Ends.{Ends, kv_gen_lba-Ends}
use nvmkv.Gen.Batch.{kv_gen_lba_untaken}
use nvmkv.Gen.Choice.{first_usable}
use nvmkv.Tests.Flash.{Pairs, pair_at, flash, flash-IsQuiet, small_store}
use nvmkv.Tests.Reads.{key_pair, collided}

abbrev replacing : GenArgs
replacing = record { key = 97 ∷ []; pool_id = 2; value_len = 4; buf = 4096; replace = true }

usable_run : first_usable (pair_at collided) small_store (97 ∷ []) 2 ≡ some 1
unfolding first_round probe_lba get_poolid_hash program
usable_run = refl

kv_gen_lba-Ends_example :
    (r : Generated Pairs) × (kv_gen_lba flash small_store replacing none false (7 ∷ []) collided
      ≡ some r)
    × Ends (7 ∷ []) r
kv_gen_lba-Ends_example = kv_gen_lba-Ends flash small_store replacing (7 ∷ []) collided

abbrev alone : Pairs
alone = (probe_lba small_store (97 ∷ []) 2 0, key_pair) ∷ []

-- The first pair of a batch, with the key "b".
abbrev batch_lbas : LbaList
batch_lbas = (probe_lba small_store (98 ∷ []) 2 0, 98 ∷ []) ∷ []

alone_run : pair_at alone (probe_lba small_store (97 ∷ []) 2 0) ≡ some key_pair
unfolding probe_lba get_poolid_hash program
alone_run = refl

batch_run : lba_find batch_lbas (probe_lba small_store (97 ∷ []) 2 0) ≡ none
unfolding probe_lba get_poolid_hash program
batch_run = refl

kv_gen_lba_untaken_example :
    (g : Gen Pairs) × (kv_gen_lba flash small_store replacing (some batch_lbas) true (7 ∷ []) alone
      ≡ some (success, probe_lba small_store (97 ∷ []) 2 0, g))
    × (g.held ≡ 7 ∷ [])
kv_gen_lba_untaken_example =
    kv_gen_lba_untaken flash small_store replacing flash-IsQuiet batch_lbas (7 ∷ []) alone key_pair
      refl batch_run alone_run refl refl refl
