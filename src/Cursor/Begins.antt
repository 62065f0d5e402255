-- ===== src/Cursor/Begins.antt =====
-- src/kv_store_mgr.cpp: what kv_begin finds, and what it leaves in the table of iterators.
use nvmkv.Prelude.{
  ℕ, ◌+◌, ◌-◌, ◌%◌, ◌^◌, ◌<◌, ◌≤◌, ◌≡◌, ◌≢◌, true, false, ◌||◌, Option, none, some, List, [], ◌∷◌,
  length, ◌==◌, if◌then◌else◌, set, refl, sym, ap, ◌∙◌, arith, get_or-set, length-set, Bool-cases,
  inl, inr, ==_iff,
}
use native.Mathlib.Nat.{add-mod_right, mod-eq_of_lt}
use mathlib.Core.Path.{subst}
use nvmkv.Error.{object_not_found, max_limit_reached, Status, Result, ok, err}
use nvmkv.Pool.{PoolMgr, PoolId, check_pool_status}
use nvmkv.Validate.{kvbegin, KvMap, OpenStore, is_all, is_in_use, kv_internal_validation}
use nvmkv.Validate.Accepts.{validated_pool}
use nvmkv.Media.{Media, Store, get_poolid_hash}
use nvmkv.Ranges.{BlockRange, RangeIter, Lister, IsLister}
use nvmkv.Iterator.{
  BatchIter, at, IterTable, kv_regular_iter, current, slot, started_at, set_range, pool_iterable,
  free_iterator, alloc_iter, first_free,
}
use nvmkv.Iterator.Slots.{
  alloc_regular-some, alloc_regular-none, free_iterator_ok, init_iter_ok, FirstFree, free_at,
  all_taken, first_free-FirstFree, alloc_iter-regular,
}
use nvmkv.Iterator.Walk.{IterState}
use nvmkv.Iterator.Walk.Pending.{IsOpen, pending}
use nvmkv.Iterator.Walk.Visits.{of_pool, Walks, stopped, ran_out, iter_over_pool-Walks}
use nvmkv.Iterator.Walk.Held.{Held, Leaves, iter_over_pool-Leaves}
use nvmkv.Cursor.{
  IterConfig, id_flags, id_word, bare_call, on_first, on_init, on_alloc, begin_in, kv_begin,
}

module _ (m : Media) (lister : Lister m) (lib : IsLister m lister) (st : Store) (conf : IterConfig)
    (mgr : PoolMgr) (pool_id : PoolId) where
  abbrev pub hash_of : ℕ
  hash_of = get_poolid_hash st (id_word pool_id)

  -- The iterator of the device over `len` sectors of the user's data, with the filter of the pool.
  abbrev pub user_iter : BatchIter → ℕ → RangeIter
  user_iter fresh len = record {
    range_start = conf.data_start_lba;
    range_length = len;
    max_ranges = conf.max_ranges;
    ranges = fresh.it.ranges;
    filter_pattern = hash_of;
    filter_mask = if hash_of == 0 then 0 else 2 ^ (st.val_bits - 1) - 1;
    filter_expiry = 0;
  }

  -- The iterator that is stored before the first step.
  abbrev first_iter : BatchIter → BatchIter
  first_iter fresh =
      set_range st conf.max_ranges conf.data_start_lba
        ((conf.kv_len + 2 ^ 64 - conf.data_start_lba) % 2 ^ 64) (started_at fresh pool_id hash_of)

  -- What kv_begin comes to, where `todo` are the ranges of the user's data: an iterator in a slot that
  -- was empty, at the first range of the pool; no range of the pool, and every slot as before; or no
  -- empty slot.
  pub data Begins (t : IterTable) (todo : List BlockRange)
      (o : Option (Result ℕ × IterState m.World)) : Type 0 where
    began :
        (i : ℕ) (s' : IterState m.World) (b' : BatchIter)
        → o ≡ some (ok i, s')
        → slot t i ≡ none
        → ((j : ℕ) → (i == j) ≡ false → slot s'.table j ≡ slot t j)
        → IsOpen mgr i (s'.table) b'
        → b'.pool_id ≡ pool_id
        → b'.pool_hash ≡ hash_of
        → of_pool st pool_id hash_of todo
          ≡ current b' ∷ of_pool st pool_id hash_of (pending m lister lib b' s'.world)
        → Begins t todo o
    no_key :
        (s' : IterState m.World)
        → o ≡ some (err object_not_found, s')
        → of_pool st pool_id hash_of todo ≡ []
        → ((j : ℕ) → slot s'.table j ≡ slot t j)
        → Begins t todo o
    no_slot :
        (s' : IterState m.World)
        → o ≡ some (err max_limit_reached, s')
        → s'.table ≡ t
        → ((k : ℕ) → k < 128 → slot t k ≢ none)
        → Begins t todo o

  abbrev pub Allowed : Type 0
  Allowed = (is_in_use (check_pool_status mgr pool_id) || is_all pool_id) ≡ true

  iterable_owner : (b : BatchIter) → b.pool_id ≡ pool_id → Allowed → pool_iterable mgr b ≡ true
  iterable_owner b owner allowed =
      ap (λ (p : PoolId). is_in_use (check_pool_status mgr p) || is_all p) owner ∙ allowed

  -- Freeing the iterator that kv_begin stored gives the table that it found.
  freed :
      (i : ℕ) (t t' : IterTable)
      → Allowed
      → i < 128
      → slot t i ≡ none
      → Held i pool_id t t'
      → (j : ℕ) → slot ((free_iterator mgr (at i) kv_regular_iter t').1) j ≡ slot t j
  freed i t t' allowed below empty h j =
      let done =
        free_iterator_ok mgr i t' (h.holder) below (h.stands)
          (iterable_owner (h.holder) (h.owner) allowed) in
      rw (done, get_or-set t' i j none none (h.inside))
        (elim (Bool-cases (i == j)) [
          | inl same ↦
              let here : i ≡ j = (==_iff i j).0 same in
              rw same (sym (ap (slot t) (sym here) ∙ empty))
          | inr other ↦ rw other (h.others j other)
        ])

  on_first-Begins :
      (i : ℕ) (t : IterTable) (todo : List BlockRange) (o : Option (Status × IterState m.World))
      → Allowed
      → i < 128
      → slot t i ≡ none
      → Walks m lister lib mgr st i pool_id hash_of todo o
      → Leaves m lister mgr st i pool_id t o
      → Begins t todo (on_first m lister st conf mgr i o)
  unfolding on_first
  on_first-Begins i t todo o allowed below empty (stopped s' b' e h id hash kept less) held =
      let same : Held i pool_id t s'.table = rw e at held in
      rw e (began i s' b' refl empty (same.others) h id hash kept)
  on_first-Begins i t todo o allowed below empty (ran_out s' e nothing) held =
      let same : Held i pool_id t s'.table = rw e at held in
      rw e (no_key _ refl nothing (freed i t s'.table allowed below empty same))

  -- The table with the iterator that kv_begin stored.
  abbrev two_sets : ℕ → BatchIter → IterTable → IterTable
  two_sets i fresh t =
      set (set t i (some (started_at fresh pool_id hash_of))) i (some (first_iter fresh))

  on_alloc-Begins :
      (fuel i : ℕ) (fresh : BatchIter) (s : IterState m.World)
      → Allowed
      → st.max_pools ≤ 2 ^ (st.val_bits - 1)
      → i < 128
      → i < length (s.table)
      → slot s.table i ≡ none
      → length (pending m lister lib (first_iter fresh) s.world) < fuel
      → Begins (s.table) (pending m lister lib (first_iter fresh) s.world) (
          on_alloc m lister st conf mgr fuel
            (ok i, set s.table i (some (started_at fresh pool_id hash_of)))
            s.world)
  unfolding on_alloc on_init
  on_alloc-Begins fuel i fresh s allowed few below inside empty enough =
      let b0 = started_at fresh pool_id hash_of in
      let t1 = set s.table i (some b0) in
      let inside1 : i < length t1 = rw (length-set s.table i (some b0)) inside in
      let stored : slot t1 i ≡ some b0 =
        get_or-set s.table i i (some b0) none inside ∙ ground arith in
      let t2 = set t1 i (some (first_iter fresh)) in
      let is_open : IsOpen mgr i t2 (first_iter fresh) = record {
        regular = below;
        inside = rw (length-set t1 i (some (first_iter fresh))) inside1;
        stands = get_or-set t1 i i (some (first_iter fresh)) none inside1 ∙ ground arith;
        iterable = allowed;
        counted = λ h. absurd (omega (arith, h));
      } in
      let others : (j : ℕ) → (i == j) ≡ false → slot t2 j ≡ slot s.table j = λ j other.
        get_or-set t1 i j (some (first_iter fresh)) none inside1
        ∙ rw other (get_or-set s.table i j (some b0) none inside ∙ rw other refl) in
      rw
        (
          init_iter_ok mgr st conf.max_ranges i conf.data_start_lba
              ((conf.kv_len + 2 ^ 64 - conf.data_start_lba) % 2 ^ 64) t1 b0 below stored allowed,
          on_alloc,
        )
        (on_first-Begins i s.table _ _ allowed below empty
          (iter_over_pool-Walks m lister lib mgr st i pool_id hash_of fuel
            (record { table = t2; world = s.world }) (first_iter fresh) few refl refl is_open
            enough)
          (iter_over_pool-Leaves m lister mgr st i pool_id s.table fuel
            (record { table = t2; world = s.world })
            (record {
              inside = is_open.inside;
              holder = first_iter fresh;
              stands = is_open.stands;
              owner = refl;
              others = others;
            })))

  begin_at :
      (fuel : ℕ) (fresh : BatchIter) (s : IterState m.World) (o : Option ℕ)
      → Allowed
      → st.max_pools ≤ 2 ^ (st.val_bits - 1)
      → 128 ≤ length (s.table)
      → length (pending m lister lib (first_iter fresh) s.world) < fuel
      → first_free 128 0 s.table ≡ o
      → FirstFree 128 0 (s.table) o
      → Begins (s.table) (pending m lister lib (first_iter fresh) s.world) (
          on_alloc m lister st conf mgr fuel
            (alloc_iter kv_regular_iter pool_id hash_of (some fresh) s.table)
            s.world)
  begin_at fuel fresh s o allowed few long enough is_o (free_at k e from below empty) =
      rw
        (alloc_iter-regular pool_id hash_of fresh s.table
          ∙ alloc_regular-some (started_at fresh pool_id hash_of) s.table k (is_o ∙ e))
        (on_alloc-Begins fuel k fresh s allowed few (omega arith) (omega arith) empty enough)
  begin_at fuel fresh s o allowed few long enough is_o (all_taken e taken) =
      rw
        (alloc_iter-regular pool_id hash_of fresh s.table
          ∙ alloc_regular-none (started_at fresh pool_id hash_of) s.table (is_o ∙ e))
        (unfold on_alloc in no_slot s refl refl (λ k below. taken k (omega arith) (omega arith)))

-- A difference on 64 bits.
wrap_around : (a b : ℕ) → b ≤ a → a < 2 ^ 64 → (a + 2 ^ 64 - b) % 2 ^ 64 ≡ a - b
wrap_around a b le small =
    let whole : a + 2 ^ 64 - b ≡ a - b + 2 ^ 64 = omega arith in
    ap (λ (n : ℕ). n % 2 ^ 64) whole ∙ add-mod_right (a - b) (2 ^ 64) ∙ mod-eq_of_lt (omega arith)

-- For a table that is long enough, where no more pools than low bits of an LBA can tell apart are
-- allowed, while nothing else changes the media, with a call that passes the validation and memory for
-- an iterator: kv_begin ends. It gives an iterator in a slot that was empty, at the first range of the
-- pool among those that the device lists from the first LBA of the user's data up to the length of the
-- store with the hash of the pool as a filter, and leaves every other slot as it is; or it reports that there is no such
-- range, and leaves every slot as it was; or it reports that the limit is reached, where no slot below
-- the limit is empty, and changes nothing.
pub kv_begin-Begins :
    (m : Media) (lister : Lister m) (lib : IsLister m lister) (stores : KvMap)
    (given open_store : OpenStore) (st : Store) (conf : IterConfig) (id : ℕ) (pool_id : PoolId)
    (fuel : ℕ) (fresh : BatchIter) (s : IterState m.World)
    → kv_internal_validation (id_flags true) stores given (bare_call id pool_id kvbegin)
      ≡ ok open_store
    → st.max_pools ≤ 2 ^ (st.val_bits - 1)
    → 128 ≤ length (s.table)
    → conf.data_start_lba ≤ conf.kv_len
    → conf.kv_len < 2 ^ 64
    → let listed =
        lib.upcoming
          (user_iter m lister lib st conf open_store.pool_mgr pool_id fresh
            (conf.kv_len - conf.data_start_lba))
          s.world in
      length listed < fuel
      → Begins m lister lib st conf
          (open_store.pool_mgr)
          pool_id
          (s.table)
          listed
          (kv_begin m lister stores given st conf fuel id pool_id (some fresh) s)
unfolding kv_begin begin_in
kv_begin-Begins m lister lib stores given open_store st conf id pool_id fuel fresh s valid few long
      start_le small enough =
    let len : (conf.kv_len + 2 ^ 64 - conf.data_start_lba) % 2 ^ 64
        ≡ conf.kv_len - conf.data_start_lba =
      wrap_around conf.kv_len conf.data_start_lba start_le small in
    let listed = λ (n : ℕ).
      lib.upcoming (user_iter m lister lib st conf open_store.pool_mgr pool_id fresh n) s.world in
    subst
      (λ (todo : List BlockRange).
        Begins m lister lib st conf (open_store.pool_mgr) pool_id (s.table) todo
          (kv_begin m lister stores given st conf fuel id pool_id (some fresh) s))
      (ap listed len)
      (rw (valid, kv_begin)
        (begin_at m lister lib st conf open_store.pool_mgr pool_id fuel fresh s _
          (validated_pool (id_flags true) stores given (bare_call id pool_id kvbegin) open_store
            refl refl valid)
          few long (omega (arith, enough, ap (λ (n : ℕ). length (listed n)) len)) refl
          (first_free-FirstFree 128 0 s.table)))
