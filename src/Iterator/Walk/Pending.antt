-- ===== src/Iterator/Walk/Pending.antt =====
-- src/kv_iterator.cpp: the ranges that an iterator has still to come to, and one step of it.
use nvmkv.Prelude.{
  ℕ, zero, suc, ◌+◌, ◌<◌, ◌≤◌, ◌≡◌, true, none, some, List, [], ◌∷◌, ◌++◌, length, ltb, ◌==◌,
  if◌then◌else◌, get_or, set, refl, sym, ap, ◌∙◌, arith, inl, inr, Bool-cases, ltb→lt, get_or-set,
  length-set,
}
use nvmkv.Error.{object_not_found, Status, success, failure, Result, ok}
use nvmkv.Pool.{PoolMgr, PoolId}
use nvmkv.Media.{Media, Store}
use nvmkv.Ranges.{BlockRange, Listing, Lister, moved, Listed, IsLister}
use nvmkv.Iterator.{
  BatchIter, at, IterTable, kv_regular_iter, current, slot, pool_iterable, validate_iter,
}
use nvmkv.Iterator.Slots.{validate_iter_ok}
use nvmkv.Iterator.Walk.{IterState, with_expiry, on_listing, refill, step_iter, iterate}

-- What stands behind position `k`.
abbrev pub drop {ℓ} : {A : Type ℓ} → ℕ → List A → List A
drop zero xs = xs
drop (suc k) [] = []
drop (suc k) (x ∷ xs) = drop k xs

shift : (k : ℕ) → suc (k + 1) ≡ suc k + 1
shift k = omega arith

pub drop-get_or {ℓ} :
    {A : Type ℓ} (k : ℕ) (xs : List A) (d : A)
    → k < length xs
    → drop k xs ≡ get_or xs k d ∷ drop (k + 1) xs
drop-get_or k [] d h = absurd (omega arith)
drop-get_or zero (x ∷ xs) d h = refl
drop-get_or (suc k) (x ∷ xs) d h =
    drop-get_or k xs d (omega arith) ∙ ap (λ (j : ℕ). get_or xs k d ∷ drop j (x ∷ xs)) (shift k)

drop-beyond {ℓ} : {A : Type ℓ} (k : ℕ) (xs : List A) → length xs ≤ k → drop k xs ≡ []
drop-beyond zero [] h = refl
drop-beyond zero (x ∷ xs) h = absurd (omega arith)
drop-beyond (suc k) [] h = refl
drop-beyond (suc k) (x ∷ xs) h = drop-beyond k xs (omega arith)

-- A test for the end of the list gives what dropping gives.
drop_guarded {ℓ} :
    {A : Type ℓ} (k n : ℕ) (xs : List A)
    → n ≡ length xs
    → (if ltb k n then drop k xs else []) ≡ drop k xs
drop_guarded k n xs e = elim (Bool-cases (ltb k n)) [
  | inl more ↦ rw more refl
  | inr last ↦ rw last (sym (drop-beyond k xs (ground (arith, last, e))))
]

no_elements {ℓ} : {A : Type ℓ} (xs : List A) → (length xs == 0) ≡ true → xs ≡ []
no_elements [] h = refl
no_elements (x ∷ xs) h = absurd (ground (arith, h))

-- A regular iterator in slot `i` of the table, for a pool that can be walked over.
pub record IsOpen (mgr : PoolMgr) (i : ℕ) (t : IterTable) (b : BatchIter) : Type 0 where
  pub regular : i < 128
  pub inside : i < length t
  pub stands : slot t i ≡ some b
  pub iterable : pool_iterable mgr b ≡ true
  pub counted : 0 < b.num_ranges_found → b.num_ranges_found ≡ length (b.it.ranges)

pub validate_iter-IsOpen :
    (mgr : PoolMgr) (i : ℕ) (t : IterTable) (b : BatchIter)
    → IsOpen mgr i t b
    → validate_iter mgr t (at i) kv_regular_iter ≡ ok (i, b)
validate_iter-IsOpen mgr i t b h = validate_iter_ok mgr i t b (h.regular) (h.stands) (h.iterable)

-- What lies beyond the ranges.
abbrev no_range : BlockRange
no_range = record { start_lba = 0; sectors = 0 }

module _ (m : Media) (lister : Lister m) (lib : IsLister m lister) where
  abbrev pub ahead : BatchIter → List BlockRange
  ahead b = if ltb (b.pos + 1) b.num_ranges_found then drop (b.pos + 1) b.it.ranges else []

  -- The ranges that an iterator has not come to: those of the last listing, and those of the next.
  abbrev pub pending : BatchIter → m.World → List BlockRange
  pending b w = ahead b ++ lib.upcoming (record b.it { filter_expiry = 0 }) w

  module _ (mgr : PoolMgr) (st : Store) (i : ℕ) where
    -- What a step does: it comes to the next range, or reports that there is none.
    pub data Steps (b : BatchIter) (todo : List BlockRange) (r : Status × IterState m.World)
        : Type 0 where
      arrived :
          (b' : BatchIter)
          → r.0 ≡ success
          → IsOpen mgr i (r.1.table) b'
          → b'.pool_id ≡ b.pool_id
          → b'.pool_hash ≡ b.pool_hash
          → todo ≡ current b' ∷ pending b' (r.1.world)
          → Steps b todo r
      ended : todo ≡ [] → r.0 ≡ failure object_not_found → Steps b todo r

    -- The iterator that a step stores.
    stored-IsOpen :
        (s : IterState m.World) (b b' : BatchIter)
        → IsOpen mgr i (s.table) b
        → b'.pool_id ≡ b.pool_id
        → (0 < b'.num_ranges_found → b'.num_ranges_found ≡ length (b'.it.ranges))
        → IsOpen mgr i (set (s.table) i (some b')) b'
    stored-IsOpen s b b' h id counted = record {
      regular = h.regular;
      inside = rw (length-set s.table i (some b')) (h.inside);
      stands = get_or-set s.table i i (some b') none (h.inside) ∙ ground arith;
      iterable = ap (λ (p : PoolId). pool_iterable mgr (record b { pool_id = p })) id ∙ h.iterable;
      counted = counted;
    }

    step_within :
        (s : IterState m.World) (b : BatchIter)
        → IsOpen mgr i (s.table) b
        → ltb (b.pos + 1) b.num_ranges_found ≡ true
        → Steps b (pending b s.world) (step_iter m lister mgr st kv_regular_iter i b s)
    unfolding step_iter
    step_within s b h more =
        let b' = record b { pos = b.pos + 1 } in
        let counted = h.counted (omega (arith, ltb→lt _ _ more)) in
        let inside : b.pos + 1 < length b.it.ranges = omega (arith, ltb→lt _ _ more, counted) in
        let tail = lib.upcoming (record b.it { filter_expiry = 0 }) s.world in
        rw more (
          arrived b' refl (stored-IsOpen s b b' h refl (λ _. counted)) refl refl (
            ap (λ (l : List BlockRange). l ++ tail)
              (drop-get_or (b.pos + 1) b.it.ranges no_range inside)
            ∙ ap (λ (l : List BlockRange). current b' ∷ l ++ tail)
                (sym (drop_guarded (b.pos + 1 + 1) b.num_ranges_found b.it.ranges counted))))

    on_listing-Steps :
        (s : IterState m.World) (b : BatchIter) (r : Result Listing × m.World)
        → IsOpen mgr i (s.table) b
        → Listed m lib.upcoming (with_expiry b 0).it s.world r
        → Steps b
            (lib.upcoming (with_expiry b 0).it s.world)
            (on_listing m lister mgr st i (with_expiry b 0) r s.table)
    unfolding on_listing
    on_listing-Steps s b (r, w) h l =
        let found = l.listing.found in
        let b' = record (with_expiry b 0) {
          it = moved (with_expiry b 0).it l.listing;
          num_ranges_found = length found;
        } in
        let tail = lib.upcoming (moved (with_expiry b 0).it l.listing) w in
        elim (Bool-cases (length found == 0)) [
          | inl none_left ↦
              rw (l.returned, none_left) (ended (l.started (no_elements found none_left)) refl)
          | inr some_left ↦
              let pos : 0 < length found = ground (arith, some_left) in
              rw (l.returned, some_left)
                (arrived b' refl (stored-IsOpen s b b' h refl (λ _. refl)) refl refl (
                  l.next
                  ∙ ap (λ (xs : List BlockRange). xs ++ tail) (drop-get_or 0 found no_range pos)
                  ∙ ap (λ (xs : List BlockRange). current b' ∷ xs ++ tail)
                      (sym (drop_guarded 1 (length found) found refl))))
        ]

    step_iter-Steps :
        (s : IterState m.World) (b : BatchIter)
        → IsOpen mgr i (s.table) b
        → Steps b (pending b s.world) (step_iter m lister mgr st kv_regular_iter i b s)
    unfolding step_iter refill
    step_iter-Steps s b h = elim (Bool-cases (ltb (b.pos + 1) b.num_ranges_found)) [
      | inl more ↦ step_within s b h more
      | inr used ↦ rw used (
          on_listing-Steps s b (lister (with_expiry b 0).it s.world) h
            (lib.lists (with_expiry b 0).it s.world))
    ]

    pub iterate-Steps :
        (s : IterState m.World) (b : BatchIter)
        → IsOpen mgr i (s.table) b
        → Steps b (pending b s.world) (iterate m lister mgr st (at i) kv_regular_iter s)
    unfolding iterate
    iterate-Steps s b h =
        rw (validate_iter-IsOpen mgr i s.table b h, iterate) (step_iter-Steps s b h)
