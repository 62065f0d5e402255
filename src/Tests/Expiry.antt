-- ===== src/Tests/Expiry.antt =====
-- Instances for the queue of src/kv_async_expiry.cpp, on a device that takes two IOVs.
use nvmkv.Prelude.{ℕ, ◌≡◌, ◌||◌, [], ◌∷◌, ◌++◌, ◌==◌, if◌then◌else◌, arith}
use nvmkv.AsyncExpiry.{Queue, iovec_present, expired_iov, update_expiry_queue}
use nvmkv.AsyncExpiry.Blocks.{IsQueue, joined, open_block, waits}
use nvmkv.AsyncExpiry.Steps.{
  QueueReach, empty_queue, then_queue, update_step, QueueReach-IsQueue, waits-update_expiry_queue,
}
use nvmkv.Tests.Flash.{blank}

abbrev three_keys : Queue
three_keys =
    update_expiry_queue 2 512 30 blank
      (update_expiry_queue 2 512 20 blank (update_expiry_queue 2 512 10 blank []))

three_keys-QueueReach : QueueReach 2 512 three_keys
three_keys-QueueReach =
    then_queue (then_queue (then_queue empty_queue (update_step 10 blank)) (update_step 20 blank))
      (update_step 30 blank)

QueueReach-IsQueue_example : IsQueue 2 three_keys
QueueReach-IsQueue_example = QueueReach-IsQueue (omega arith) three_keys-QueueReach

abbrev four_keys : Queue
four_keys = update_expiry_queue 2 512 20 blank three_keys

waits-update_expiry_queue_example :
    (joined four_keys ≡ (
      if iovec_present (open_block 2 three_keys) 20
      then joined three_keys
      else joined three_keys ++ expired_iov 512 20 blank ∷ []))
    × ((lba : ℕ) → waits four_keys lba ≡ (waits three_keys lba || 20 == lba))
waits-update_expiry_queue_example =
    waits-update_expiry_queue (omega arith) three_keys-QueueReach 20 blank
