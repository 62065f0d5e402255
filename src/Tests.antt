-- ===== src/Tests.antt =====
-- Runs of the models at concrete inputs, and instances of the theorems.
pub mod Flash
pub mod Bitmaps
pub mod Hashes
pub mod Caches
pub mod Currents
pub mod Pools
pub mod Writes
pub mod Reads
pub mod Gens
pub mod Puts
pub mod Exist
pub mod Gets
pub mod Removes
pub mod Expiry
pub mod SyncLists
pub mod Validates
pub mod Persists
pub mod Iterators
pub mod Sweeps
pub mod Buffers
