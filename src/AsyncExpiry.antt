-- ===== src/AsyncExpiry.antt =====
-- src/kv_async_expiry.cpp: the queue of expired keys that wait for their deletion. A block is the list
-- of its first `iov_count` IOVs, and the queue is the list of its blocks, the front first. Each
-- operation holds the mutex, so it is one step; a failing allocation is not modelled.
pub mod Blocks
pub mod Steps
use nvmkv.Prelude.{
  ℕ, ◌+◌, ◌%◌, ◌^◌, Bool, true, false, ◌||◌, Option, none, some, List, [], ◌∷◌, ◌++◌, ltb, leb,
  ◌==◌, if◌then◌else◌, length,
}
use nvmkv.Util.{round_upto_blk}
use nvmkv.Write.{Iov, nvm_iov_trim, KvHeader}

abbrev pub Block : Type 0
Block = List Iov

abbrev pub Queue : Type 0
Queue = List Block

-- `iovec_present`
pub iovec_present : Block → ℕ → Bool
iovec_present [] key_loc = false
iovec_present (iov ∷ block) key_loc = iov.iov_lba == key_loc || iovec_present block key_loc

-- The IOV that trims the pair, its first sector at least.
pub expired_iov : ℕ → ℕ → KvHeader → Iov
expired_iov sector_size key_loc hdr =
    let trim_len = (hdr.value_offset + hdr.value_len) % 2 ^ 32 in
    record {
      iov_base = 0;
      iov_len =
          if leb trim_len sector_size then sector_size else round_upto_blk trim_len sector_size;
      iov_lba = key_loc;
      iov_opcode = nvm_iov_trim;
    }

-- What is done to the last block, which has room.
pub add_iov : ℕ → ℕ → KvHeader → Block → Block
unfolding iovec_present expired_iov
add_iov sector_size key_loc hdr block =
    if iovec_present block key_loc then block else block ++ expired_iov sector_size key_loc hdr ∷ []

-- Where its allocations succeed, the result of the function is 0.
pub update_expiry_queue : ℕ → ℕ → ℕ → KvHeader → Queue → Queue
unfolding add_iov
update_expiry_queue max_iovecs sector_size key_loc hdr [] = add_iov sector_size key_loc hdr [] ∷ []
update_expiry_queue max_iovecs sector_size key_loc hdr (block ∷ []) =
    if length block == max_iovecs
    then block ∷ add_iov sector_size key_loc hdr [] ∷ []
    else add_iov sector_size key_loc hdr block ∷ []
update_expiry_queue max_iovecs sector_size key_loc hdr (block ∷ next ∷ blocks) =
    block ∷ update_expiry_queue max_iovecs sector_size key_loc hdr (next ∷ blocks)

-- What `start_thread` takes to delete: the front block where it is full; otherwise the thread waits.
pub pop_block : ℕ → Queue → Option (Block × Queue)
pop_block max_iovecs [] = none
pop_block max_iovecs (block ∷ blocks) =
    if ltb (length block) max_iovecs then none else some (block, blocks)
