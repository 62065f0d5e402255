-- ===== src/Remove/Release.antt =====
-- Which LBAs kv_delete_sync of src/kv_store_mgr.cpp leaves taken when it returns.
use nvmkv.Prelude.{ℕ, ◌≡◌, ◌⊎◌, true, false, Option, none, List, ◌∷◌}
use nvmkv.Error.{Status}
use nvmkv.SyncList.{erase}
use nvmkv.Cache.{KvCache}
use nvmkv.Write.{Capabilities}
use nvmkv.Media.{Media, Store}
use nvmkv.Remove.{Removing}

module _ (m : Media) (st : Store) (caps : Capabilities) (key : List ℕ) (pool_id : ℕ)
    (del_sec_count : ℕ) (held : List ℕ) where
  open m use {World}

  -- Whether the function went on with the LBA that its search found, and waited when it took that LBA.
  abbrev pub Waited : Option Status × Removing World → Type 0
  Waited found = (found.0 ≡ none) × ((m.acquire found.1.key_hash found.1.world).0 ≡ true)

  -- The state that the function starts in.
  abbrev pub starting : Option KvCache → World → Removing World
  starting cache w = record {
    cache = cache;
    buf = none;
    insert_lba = false;
    key_hash = 0;
    held = held;
    world = w;
  }

  abbrev Untaken : Removing World → Type 0
  Untaken s = (s.insert_lba ≡ false) × (s.held ≡ held)

  -- The LBA that was found is taken, and it is that of the key unless the thread waited for it.
  abbrev Taken : Option Status × Removing World → Removing World → Type 0
  Taken found s =
      (s.insert_lba ≡ true)
      × (s.held ≡ found.1.key_hash ∷ held)
      × ((s.key_hash ≡ found.1.key_hash) ⊎ Waited found)

  -- What `kv_delete_sync` leaves behind a search that ends in `found`.
  abbrev pub ReleasesKey : Option Status × Removing World → Removing World → Type 0
  ReleasesKey found s =
      (s.held ≡ held) ⊎ (Waited found × (s.held ≡ erase (found.1.key_hash ∷ held) s.key_hash))

  abbrev SameLocks : Removing World → Option Status × Removing World → Type 0
  SameLocks s r = (r.1.insert_lba ≡ s.insert_lba) × (r.1.held ≡ s.held)

  abbrev Owned : Option Status × Removing World → Removing World → Type 0
  Owned found s = Untaken s ⊎ Taken found s
