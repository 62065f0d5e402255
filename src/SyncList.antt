-- ===== src/SyncList.antt =====
-- util/kv_sync_list.cpp: the list of LBAs that operations work on. `m_list` is the list of its
-- entries. A wait on the condition variable is a test that finds the entry and changes nothing.
pub mod Exclusion
use nvmkv.Prelude.{
  ℕ, Bool, true, false, not, ◌||◌, Option, none, some, List, [], ◌∷◌, ◌==◌, if◌then◌else◌,
}

abbrev pub SyncList : Type 0
SyncList = List ℕ

pub has_entry : SyncList → ℕ → Bool
has_entry [] entry = false
has_entry (e ∷ es) entry = e == entry || has_entry es entry

pub erase : SyncList → ℕ → SyncList
erase [] entry = []
erase (e ∷ es) entry = if e == entry then es else e ∷ erase es entry

-- One test of the loop of `insert_entry`: the entry is inserted, or the caller waits (`none`) and tests
-- again when a deletion wakes it.
pub insert_entry : SyncList → ℕ → Option SyncList
insert_entry m_list entry = if has_entry m_list entry then none else some (entry ∷ m_list)

-- The flag is false where there is no such entry.
pub delete_entry : SyncList → ℕ → Bool × SyncList
delete_entry m_list entry =
    if has_entry m_list entry then (true, erase m_list entry) else (false, m_list)

-- What a test of this module unfolds.
unfoldable pub list_program : Unit {0}
unfolding has_entry erase insert_entry delete_entry
list_program = tt
