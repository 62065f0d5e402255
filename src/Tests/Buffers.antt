-- ===== src/Tests/Buffers.antt =====
-- Instances for util/kv_buffer_pool.cpp and src/kv_layout.cpp.
use nvmkv.Prelude.{◌+◌, ◌*◌, ◌^◌, ◌≤◌, ◌≡◌, true, false, none, some, [], ◌∷◌, refl, arith}
use nvmkv.Error.{out_of_memory, failure}
use nvmkv.Cache.Delete.{contains}
use nvmkv.BufferPool.{Buffer, BufferPool, got, get_buf, initialize_pool}
use nvmkv.BufferPool.Exclusive.{
  Lent, LendReach, here, then_step, take_step, IsLent, LendReach-IsLent, then_fails,
  initialize_pool_dangling,
}
use nvmkv.Layout.{set_del_bm_lba, store_layout}
use nvmkv.Layout.Division.{Divides, store_layout-Divides, store_layout_tags}

abbrev empty_pool : BufferPool
empty_pool = record {
  buffers = [];
  buffer_limit = 0;
  buffer_alignment = 0;
  initialized = false;
  freed = [];
}

abbrev one_buffer : BufferPool
one_buffer = record {
  buffers = (4096, 512) ∷ [];
  buffer_limit = 512;
  buffer_alignment = 512;
  initialized = true;
  freed = [];
}

abbrev at_start : Lent
at_start = record { pool = one_buffer; held = [] }

-- The buffer is replaced by a larger one.
abbrev replaced_pool : BufferPool
replaced_pool = record one_buffer { buffers = []; freed = 4096 ∷ [] }

abbrev lent_out : Lent
lent_out = record { pool = replaced_pool; held = (8192, 1024) ∷ [] }

takes_large : get_buf 1024 (some 8192) one_buffer ≡ got (8192, 1024) replaced_pool
unfolding get_buf
takes_large = refl

lends : LendReach at_start lent_out
lends = then_step here (
    take_step at_start 1024 (some 8192) (8192, 1024) replaced_pool takes_large
      (λ a e. ground (arith, e)))

start_lent : IsLent 1 at_start
start_lent = record { once = λ x. ground arith; whole = refl }

LendReach-IsLent_example : IsLent 1 lent_out
LendReach-IsLent_example = LendReach-IsLent 1 lends start_lent

initialize_pool_dangling_example :
    ((initialize_pool (then_fails (4096 ∷ []) []) 512 512 empty_pool).0 ≡ failure out_of_memory)
    × ((b : Buffer) × (q : BufferPool) × (get_buf 512 none
            ((initialize_pool (then_fails (4096 ∷ []) []) 512 512 empty_pool).1)
          ≡ got b q)
        × (contains q.freed b.0 ≡ true))
initialize_pool_dangling_example =
    initialize_pool_dangling 512 512 4096 512 [] [] none empty_pool refl (omega arith) (omega arith)

store_layout-Divides_example : Divides 9 12 48 (store_layout (2 ^ 9) 48 16)
store_layout-Divides_example =
    store_layout-Divides 9 12 48 16 refl (omega arith) (omega arith) (omega arith)

store_layout_tags_example :
    (store_layout (2 ^ 9) 48 1048576).pool_tags_lba * 2 ^ 9 + 16 * 1048576
    ≤ (store_layout (2 ^ 9) 48 1048576).user_data_start_lba * 2 ^ 9
store_layout_tags_example = store_layout_tags 9 12 48 1048576 refl (omega arith)

sets_del_bm : (set_del_bm_lba 5 (store_layout (2 ^ 9) 48 16)).del_bm_lba ≡ 5
unfolding set_del_bm_lba
sets_del_bm = refl
