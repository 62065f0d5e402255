-- ===== src/Tests/Caches.antt =====
-- Instances of the theorems on src/kv_cache.cpp, on a cache of four slots.
use nvmkv.Prelude.{ℕ, zero, suc, ◌<◌, ◌≡◌, true, false, none, some, [], ◌∷◌, arith, refl}
use nvmkv.Hash.{program, fnv1a_hash, sequential_probe_type, initialize}
use nvmkv.Cache.{KvCache, PutArgs, cleared, at_slot, entry_set, kv_cache_put, cache_program}
use nvmkv.Cache.Get.{is_expired, found_context, see_empty, see_none, look, kv_cache_get}
use nvmkv.Cache.Delete.{kv_cache_delete}
use nvmkv.Cache.Index.{IsWellFormed}
use nvmkv.Cache.Put.{get-put}
use nvmkv.Cache.Context.{put-get_miss}
use nvmkv.Cache.Deletion.{Deletes, kv_cache_delete-Deletes}
use nvmkv.Layout.{shifts}
use nvmkv.Cache.Init.{new_entries, new_cache, kv_cache_get_size, new_cache-Reaches-IsWellFormed}
use nvmkv.Cache.Invariant.{here, then_step, put_step, delete_step}

abbrev four_slots : KvCache
four_slots = record {
  hash_table = cleared 0 ∷ cleared 1 ∷ cleared 2 ∷ cleared 3 ∷ [];
  cache_addr_bits = 2;
  hash_func = initialize fnv1a_hash sequential_probe_type 2 0;
}

four_slots-IsWellFormed : IsWellFormed four_slots
four_slots-IsWellFormed = record {
  size = refl;
  indexing = record { sequential = refl; width = refl; pos = omega arith; small = omega arith };
  knows_slot = knows;
}
  where
    knows : (i : ℕ) → i < 4 → (at_slot four_slots.hash_table i).index ≡ i
    knows zero lt = refl
    knows (suc zero) lt = refl
    knows (suc (suc zero)) lt = refl
    knows (suc (suc (suc zero))) lt = refl
    knows (suc (suc (suc (suc i)))) lt = absurd (omega arith)

abbrev a_put : PutArgs
a_put = record {
  key = 97 ∷ 98 ∷ [];
  pool_id = 3;
  value_len = 512;
  abs_expiry = 90;
  gen_count = 4;
  lba = 7168;
}

get-put_example :
    (i : ℕ) × (kv_cache_get (kv_cache_put four_slots a_put none 10) 1 20 (97 ∷ 98 ∷ []) 3
      ≡ (true, found_context 1 20 (entry_set (cleared i) a_put 10)))
get-put_example = get-put four_slots a_put 97 (98 ∷ []) 10 1 20 four_slots-IsWellFormed refl

-- The cache with one entry.
abbrev one_entry : KvCache
one_entry = record four_slots {
  hash_table =
      cleared 0
      ∷ cleared 1
      ∷ cleared 2
      ∷ record {
        key = 97 ∷ 98 ∷ [];
        value_len = 512;
        pool_id = 3;
        expiry = 90;
        gen_count = 4;
        index = 3;
        lba = 7168;
        ts = 10;
      }
      ∷ [];
}

one_entry_run : kv_cache_put four_slots a_put none 10 ≡ one_entry
unfolding program cache_program
one_entry_run = refl

one_entry-IsWellFormed : IsWellFormed one_entry
one_entry-IsWellFormed = record {
  size = refl;
  indexing = record { sequential = refl; width = refl; pos = omega arith; small = omega arith };
  knows_slot = knows;
}
  where
    knows : (i : ℕ) → i < 4 → (at_slot one_entry.hash_table i).index ≡ i
    knows zero lt = refl
    knows (suc zero) lt = refl
    knows (suc (suc zero)) lt = refl
    knows (suc (suc (suc zero))) lt = refl
    knows (suc (suc (suc (suc i)))) lt = absurd (omega arith)

four_slots_miss : (kv_cache_get four_slots 1 20 (97 ∷ 98 ∷ []) 3).0 ≡ false
unfolding program cache_program is_expired found_context see_empty see_none look kv_cache_get
four_slots_miss = refl

put-get_miss_example :
    kv_cache_put four_slots a_put (some ((kv_cache_get four_slots 1 20 (97 ∷ 98 ∷ []) 3).1)) 10
    ≡ kv_cache_put four_slots a_put none 10
put-get_miss_example =
    put-get_miss four_slots a_put 97 (98 ∷ []) 1 20 10 four_slots-IsWellFormed refl four_slots_miss

kv_cache_delete-Deletes_example :
    Deletes one_entry (97 ∷ 98 ∷ []) 3 (kv_cache_delete one_entry (97 ∷ 98 ∷ []) 3)
kv_cache_delete-Deletes_example =
    kv_cache_delete-Deletes one_entry 97 (98 ∷ []) 3 one_entry-IsWellFormed

-- A cache of 1000 bytes has room for five entries, and gets four.
new_cache_1000 : (kv_cache_get_size (new_cache 1000) ≡ 736) × ((new_cache 1000).cache_addr_bits ≡ 2)
unfolding new_entries shifts new_cache kv_cache_get_size
new_cache_1000 = (refl, refl)

new_cache-Reaches-IsWellFormed_example :
    IsWellFormed
      ((kv_cache_delete (kv_cache_put (new_cache 1000) a_put none 10) (97 ∷ 98 ∷ []) 3).1)
new_cache-Reaches-IsWellFormed_example =
    new_cache-Reaches-IsWellFormed {cache_size = 1000} (omega arith) (omega arith) (
      then_step (then_step here (put_step a_put 97 (98 ∷ []) 10 refl)) (delete_step 97 (98 ∷ []) 3))
