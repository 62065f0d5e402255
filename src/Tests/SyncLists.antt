-- ===== src/Tests/SyncLists.antt =====
-- Instances of the theorems on util/kv_sync_list.cpp: two threads, two LBAs.
use nvmkv.Prelude.{◌≡◌, none, [], ◌∷◌, refl}
use nvmkv.SyncList.{insert_entry, list_program}
use nvmkv.SyncList.Exclusion.{
  Locks, lbas, Distinct, LocksReach, no_locks, then_lock, take_step, LocksReach-Distinct,
}

busy_run : insert_entry (7 ∷ 3 ∷ []) 3 ≡ none
unfolding list_program
busy_run = refl

abbrev two_held : Locks
two_held = record { m_list = 7 ∷ 3 ∷ []; held = (2, 7) ∷ (1, 3) ∷ [] }

two_held-LocksReach : LocksReach two_held
unfolding list_program
two_held-LocksReach =
    then_lock (then_lock no_locks (take_step 1 3 (3 ∷ []) refl)) (take_step 2 7 (7 ∷ 3 ∷ []) refl)

LocksReach-Distinct_example : (two_held.m_list ≡ lbas two_held.held) × Distinct (lbas two_held.held)
LocksReach-Distinct_example = LocksReach-Distinct two_held-LocksReach
