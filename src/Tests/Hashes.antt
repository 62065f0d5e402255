-- ===== src/Tests/Hashes.antt =====
-- Instances of the theorems on util/kv_hash_func.cpp.
use nvmkv.Prelude.{◌≡◌, false, [], ◌∷◌, refl}
use nvmkv.Hash.{
  HashFunc, fnv1a_hash, sequential_probe_type, initialize, key_hash, resolve_coll, program,
}

abbrev index_hash : HashFunc
index_hash = initialize fnv1a_hash sequential_probe_type 4 0

-- The FNV-1a hash of "a".
fnv_run : key_hash index_hash (97 ∷ []) 0 64 false ≡ 0xaf63dc4c8601ec8c
unfolding program
fnv_run = refl

probe_run : resolve_coll index_hash (97 ∷ []) 0 14 3 4 false ≡ 1
unfolding program
probe_run = refl
