-- ===== src/Lib.antt =====
-- NVMKV: a key-value store on a flash device with a sparse address space. A key is hashed to an
-- LBA (util/kv_hash_func.cpp), pairs are written there by batch writes, and collisions go on to further
-- LBAs. A collision cache (src/kv_cache.cpp) remembers where keys lie. Keys belong to pools, whose ids
-- and tags the pool manager (src/kv_pool_manager.cpp) keeps in two bit maps (util/kv_bitmap.cpp).
--
-- Numbers are natural numbers, with the wrap-around of 32-bit and 64-bit words written out where the
-- code can overflow. A pointer into a table is an index, a lock held throughout an operation makes it
-- one step, and what the media returns is an argument.
--
-- - Prelude: names from the libraries, Boolean tests, lists, binary digits.
-- - Error: the codes of include/nvm_error.h.
-- - Util: util/kv_util.h, rounding and masks.
-- - Bitmap: util/kv_bitmap.cpp. `bitmap_helper` is `scan` over the words and `scan_word` over the bits
--   of one; `scan` has one round for each word, as the code's loop, and `scan_word` has 32.
-- - Hash: util/kv_hash_func.cpp. `key_hash` guards `folded` (`fnv1a`, then `fold`), `resolve_coll`
--   chooses between the probes.
-- - Cache: src/kv_cache.cpp. Cache.Init makes the table (`new_cache`). `kv_cache_put` is `put_context`, or
--   else `place`, the search, and `store_at`; `kv_cache_get` is `look`; `kv_cache_delete` is `find_slot`.
--   Each search has M_COLLISION_LIMIT (8) rounds, as in the code. A cache calls Hash for its slots.
-- - Pool: src/kv_pool_manager.cpp. `create_pool` goes on to `claim_id` and `store_pool`,
--   `delete_pool` to `mark_pools`. `do_pools` has fuel for max_pools + 1 rounds, and stops before.
-- - Write: src/kv_store_mgr.cpp, kv_alloc_for_write (`plan_write` is its arithmetic),
--   kv_process_for_write and kv_process_for_trim. `write_iovs` has as much fuel as there are bytes to
--   write, and each round writes at least one. Sectors are rounded by Util.
-- - SyncList: util/kv_sync_list.cpp, by which operations on one LBA exclude each other.
-- - Persist: src/kv_pool_manager.cpp, persist_store_info: which sectors of the bit maps and tags a
--   change of a pool writes. What it returns is the argument `persist` of the operations of Pool.
-- - Media: what the operations of src/kv_store_mgr.cpp meet: the calls of the device library and of the
--   list of busy LBAs as a record of operations on a state of the world, which other threads may change
--   at each call; the checks of nvm_readv in src/kv_wrappers.cpp; the probe sequence of a key and
--   kv_expire. Media.Quiet states what the device library documents for these calls while no other thread
--   acts: a read succeeds where it passes the checks of nvm_readv. Tests.Flash is a media that meets it.
--   Media.Expiry is kv_expire for what has expired, by what the expiry queue returns.
-- - Read: src/kv_store_mgr.cpp, kv_read_media. `read_loop` has M_MAX_COLLISION (8) rounds, as the code.
-- - Gen: src/kv_store_mgr.cpp, kv_gen_lba. `gen_loop` is the loop over the probes and `gen_reads` the one
--   that reads again after a wait, which has fuel for 2 rounds: the second finds the LBA taken.
-- - Put: src/kv_store_mgr.cpp, kv_put behind its validation: the cache (Cache), the buffer and the IOVs
--   (Write), the LBA (Gen), the write and the exit.
-- - AsyncExpiry: src/kv_async_expiry.cpp, the queue of expired keys, to which kv_expire hands them.
-- - Exists: src/kv_store_mgr.cpp, kv_range_exist_wrapper for its two uses and kv_exists. The bytes that
--   the buffer holds before a read are the argument `stale`.
-- - Get: src/kv_store_mgr.cpp, kv_get behind its validation.
-- - Remove: src/kv_store.cpp, delete_range and batch_delete, and src/kv_store_mgr.cpp, kv_delete_sync.
--   `discard` has fuel for one round more than there are bytes to discard: each round but the last
--   discards one at least. `batch_delete_sync`, which takes and releases the LBAs of a batch, is in Sweep.
-- - Validate: src/kv_store_mgr.cpp, kv_internal_validation and get_store, with which every operation of
--   the store manager starts.
-- - Ranges: the device library's nvm_logical_range_iterator, as a parameter of its users, and what it
--   documents while nothing else changes the media.
-- - Iterator: src/kv_iterator.cpp, the table of iterators. Iterator.Walk is the walk of one over the keys
--   of a pool: `walk` is the loop of iter_over_pool, which needs one round of fuel more than there are
--   ranges to come, and `count_from` the one of count_ranges. An iterator asks Pool for the status of
--   its pool.
-- - Cursor: src/kv_store_mgr.cpp, kv_begin, kv_next and kv_iteration_end, which call Validate and Iterator,
--   and kv_get_current (Cursor.Current): `current_loop` is its loop over the keys that it passes over, with
--   one round of fuel more than there are ranges to come.
-- - Sweep: src/kv_store.cpp, batch_delete_sync, delete_all_keys and delete_all. `sweep_all` is the loop
--   over the listings, which needs one round of fuel more than there are ranges, and `sweep_ranges` the
--   one over the ranges of a listing. It takes as arguments which ranges it skips and how it sends a
--   batch, since the loop of the pool deletion manager is the same one with other arguments.
-- - PoolDel: src/kv_pool_del_manager.cpp, the deletion of the keys of pools and of their bits by Pool, and
--   src/kv_scanner.cpp, is_valid_for_del.
-- - Layout: src/kv_layout.cpp and, of src/kv_store.cpp, the part of initialize that makes the layout. The
--   loops over the bits of a word have 64 rounds.
-- - BufferPool: util/kv_buffer_pool.cpp, the addresses of malloc as arguments.
-- - Tests: runs at concrete inputs and instances of the theorems.
--
-- Not modelled: thread creation, condition variables and the device library, which only do I/O or
-- wait; memory allocation that fails, but for iterators and the buffer pool; the expiry manager, the
-- opening of a store beyond its layout, restoring the pools from the media, and the store manager beyond
-- the parts named above.
pub mod Prelude
pub mod Error
pub mod Util
pub mod Bitmap
pub mod Hash
pub mod Cache
pub mod Pool
pub mod Persist
pub mod Media
pub mod Read
pub mod Exists
pub mod Gen
pub mod Get
pub mod Put
pub mod Remove
pub mod AsyncExpiry
pub mod Write
pub mod SyncList
pub mod Validate
pub mod Ranges
pub mod Iterator
pub mod Cursor
pub mod Sweep
pub mod PoolDel
pub mod Layout
pub mod BufferPool
pub mod Tests
