-- ===== src/SyncList/Exclusion.antt =====
-- util/kv_sync_list.cpp as threads use it: an LBA is taken by `insert_entry` and left by
-- `delete_entry`.
use mathlib.Core.Path.{subst}
use nvmkv.Prelude.{
  ℕ, ◌≡◌, Bool, true, false, Option, none, some, List, [], ◌∷◌, arith, ◌==◌, if◌then◌else◌,
  Bool-cases, inl, inr, refl, sym, ◌∙◌, ap,
}
use nvmkv.SyncList.{SyncList, has_entry, erase, insert_entry, delete_entry}

-- The list with what it does not record: which thread took which LBA.
pub record Locks : Type 0 where
  pub m_list : SyncList
  pub held : List (ℕ × ℕ)

abbrev pub lbas : List (ℕ × ℕ) → List ℕ
lbas [] = []
lbas ((t, e) ∷ rest) = e ∷ lbas rest

abbrev pub holder : List (ℕ × ℕ) → ℕ → Option ℕ
holder [] entry = none
holder ((t, e) ∷ rest) entry = if e == entry then some t else holder rest entry

abbrev pub leave : List (ℕ × ℕ) → ℕ → List (ℕ × ℕ)
leave [] entry = []
leave ((t, e) ∷ rest) entry = if e == entry then rest else (t, e) ∷ leave rest entry

-- A thread takes an LBA when its test finds no entry, and only the thread that took it leaves it. A
-- thread that finds an entry waits, which changes nothing.
pub data LockStep (s : Locks) : Locks → Type 0 where
  take_step :
      (thread entry : ℕ) (l : SyncList)
      → insert_entry s.m_list entry ≡ some l
      → LockStep s (record { m_list = l; held = (thread, entry) ∷ s.held })
  leave_step :
      (thread entry : ℕ)
      → holder s.held entry ≡ some thread
      → LockStep s (record { m_list = (delete_entry s.m_list entry).1; held = leave s.held entry })

pub data LocksReach : Locks → Type 0 where
  no_locks : LocksReach (record { m_list = []; held = [] })
  then_lock : {s s' : Locks} → LocksReach s → LockStep s s' → LocksReach s'

abbrev pub Distinct : List ℕ → Type 0
Distinct [] = Unit
Distinct (e ∷ es) = (has_entry es e ≡ false) × Distinct es

insert_absent :
    (l l' : SyncList) (entry : ℕ)
    → insert_entry l entry ≡ some l'
    → (has_entry l entry ≡ false) × (entry ∷ l ≡ l')
unfolding insert_entry
insert_absent l l' entry h = elim (Bool-cases (has_entry l entry)) [
  | inl taken ↦ absurd (ground (arith, h))
  | inr free ↦ (free, ground (arith, h))
]

lbas-leave : (held : List (ℕ × ℕ)) (entry : ℕ) → lbas (leave held entry) ≡ erase (lbas held) entry
unfolding erase
lbas-leave [] entry = refl
lbas-leave ((t, e) ∷ rest) entry = elim (Bool-cases (e == entry)) [
  | inl same ↦ rw same refl
  | inr other ↦ rw other (ap (λ (es : List ℕ). e ∷ es) (lbas-leave rest entry))
]

pub erase-cons_self : (x : ℕ) (es : List ℕ) → erase (x ∷ es) x ≡ es
unfolding erase
erase-cons_self x es = ground arith

erase_other :
    (es : List ℕ) (x entry : ℕ) → has_entry es x ≡ false → has_entry (erase es entry) x ≡ false
unfolding has_entry erase
erase_other [] x entry h = refl
erase_other (e ∷ es) x entry h = elim (Bool-cases (e == entry)) [
  | inl same ↦ rw same (ground (arith, h))
  | inr other ↦ rw other (ground (arith, h, erase_other es x entry (ground (arith, h))))
]

erase-Distinct : (es : List ℕ) (entry : ℕ) → Distinct es → Distinct (erase es entry)
unfolding erase
erase-Distinct [] entry d = tt
erase-Distinct (e ∷ es) entry d = elim (Bool-cases (e == entry)) [
  | inl same ↦ rw same (d.1)
  | inr other ↦ rw other (erase_other es e entry (d.0), erase-Distinct es entry (d.1))
]

held_entry :
    (held : List (ℕ × ℕ)) (entry t : ℕ)
    → holder held entry ≡ some t
    → has_entry (lbas held) entry ≡ true
unfolding has_entry
held_entry [] entry t h = cc
held_entry ((u, e) ∷ rest) entry t h = elim (Bool-cases (e == entry)) [
  | inl same ↦ rw same refl
  | inr other ↦ rw other (held_entry rest entry t (ground (arith, h)))
]

delete_present :
    (l : SyncList) (entry : ℕ)
    → has_entry l entry ≡ true
    → delete_entry l entry ≡ (true, erase l entry)
unfolding delete_entry
delete_present l entry h = rw h refl

-- However threads take LBAs that insert_entry gives them and leave those that they hold, the list
-- holds exactly the LBAs that are held, and no LBA is held twice.
pub LocksReach-Distinct :
    {s : Locks} → LocksReach s → (s.m_list ≡ lbas s.held) × Distinct (lbas s.held)
LocksReach-Distinct no_locks = (refl, tt)
LocksReach-Distinct (then_lock {s} before (take_step t entry l took)) =
    let (same, distinct) = LocksReach-Distinct before in
    let (free, grown) = insert_absent s.m_list l entry took in
    (sym grown ∙ ap (λ (es : List ℕ). entry ∷ es) same, (rw same at free, distinct))
LocksReach-Distinct (then_lock {s} before (leave_step t entry owns)) =
    let (same, distinct) = LocksReach-Distinct before in
    let there : has_entry s.m_list entry ≡ true = rw same (held_entry s.held entry t owns) in
    (
      ap (λ (r : Bool × SyncList). r.1) (delete_present s.m_list entry there)
          ∙ ap (λ (es : List ℕ). erase es entry) same
          ∙ sym (lbas-leave s.held entry),
      subst Distinct (sym (lbas-leave s.held entry)) (erase-Distinct (lbas s.held) entry distinct),
    )

-- In every reachable state, delete_entry succeeds for an LBA that a thread holds and removes its
-- entry.
pub delete_entry-held :
    {s : Locks}
    → LocksReach s
    → (entry t : ℕ) → holder s.held entry ≡ some t
    → delete_entry s.m_list entry ≡ (true, erase s.m_list entry)
delete_entry-held {s} reach entry t owns =
    let same = (LocksReach-Distinct reach).0 in
    delete_present s.m_list entry (rw same (held_entry s.held entry t owns))
