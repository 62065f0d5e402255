-- ===== src/Ranges.antt =====
-- The device library's nvm_logical_range_iterator, by which src/kv_iterator.cpp, src/kv_store.cpp and
-- src/kv_pool_del_manager.cpp walk over the ranges of contiguous data on the media.
use nvmkv.Prelude.{ℕ, ◌≡◌, ◌<◌, List, [], ◌++◌, length}
use nvmkv.Error.{Result, ok}
use nvmkv.Media.{Media}

-- `nvm_block_range_t`
pub record BlockRange : Type 0 where
  pub start_lba : ℕ
  pub sectors : ℕ

-- `nvm_logical_range_iter_t`: `range_to_iterate`, `max_ranges`, `ranges` and `filters`.
pub record RangeIter : Type 0 where
  pub range_start : ℕ
  pub range_length : ℕ
  pub max_ranges : ℕ
  pub ranges : List BlockRange
  pub filter_pattern : ℕ
  pub filter_mask : ℕ
  pub filter_expiry : ℕ

-- What a call fills in: the ranges found, which it counts, and what is left to iterate over.
pub record Listing : Type 0 where
  pub found : List BlockRange
  pub left_start : ℕ
  pub left_length : ℕ

abbrev pub moved : RangeIter → Listing → RangeIter
moved it l = record it {
  range_start = l.left_start;
  range_length = l.left_length;
  ranges = l.found;
}

-- `err` stands for the -1 of the library.
abbrev pub Lister : Media → Type 0
Lister m = RangeIter → m.World → Result Listing × m.World

-- A call that lists the next ranges of the ones to come.
pub record Listed (m : Media) (upcoming : RangeIter → m.World → List BlockRange) (it : RangeIter)
    (w : m.World) (r : Result Listing × m.World) : Type 0 where
  pub listing : Listing
  pub returned : r.0 ≡ ok listing
  pub next : upcoming it w ≡ listing.found ++ upcoming (moved it listing) (r.1)
  pub ended : length (listing.found) < it.max_ranges → upcoming (moved it listing) (r.1) ≡ []
  pub started : listing.found ≡ [] → upcoming it w ≡ []

-- What the library documents while nothing else changes the media: the ranges of an iterator that are
-- still to come are listed in order, at least one where there is one, and all that are left where the
-- array of the iterator is not filled.
pub record IsLister (m : Media) (lister : Lister m) : Type 0 where
  pub upcoming : RangeIter → m.World → List BlockRange
  pub lists : (it : RangeIter) (w : m.World) → Listed m upcoming it w (lister it w)
