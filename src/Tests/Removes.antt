-- ===== src/Tests/Removes.antt =====
-- Runs and instances for the deletes of src/kv_store.cpp and src/kv_store_mgr.cpp.
use nvmkv.Prelude.{arith}
use nvmkv.Remove.{delete_range}
use nvmkv.Remove.Ends.{EndsDelete, delete_range-EndsDelete}
use nvmkv.Tests.Flash.{flash}
use nvmkv.Tests.Reads.{collided}
use nvmkv.Tests.Writes.{small_device}

delete_range-EndsDelete_example : EndsDelete (delete_range flash small_device 4096 40 collided)
delete_range-EndsDelete_example =
    delete_range-EndsDelete flash small_device 4096 40 collided (omega arith)
