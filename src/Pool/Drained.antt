-- ===== src/Pool/Drained.antt =====
-- The pools of src/kv_pool_manager.cpp that the pool deletion thread takes on and gives back.
use nvmkv.Prelude.{
  ℕ, zero, suc, ◌+◌, ◌-◌, ◌<◌, ◌≡◌, true, false, not, ◌&&◌, Option, none, some, [], ◌∷◌, arith,
  ◌==◌, Bool-cases, inl, inr, refl, ◌∙◌, ap,
}
use nvmkv.Error.{Status}
use nvmkv.Bitmap.{KvBitmap, bitmap_test, bitmap_ffs}
use nvmkv.Bitmap.Access.{member}
use nvmkv.Bitmap.Search.{Holds}
use nvmkv.Bitmap.FirstSet.{NoneFull, FindsFirstSet, bitmap_ffs-FindsFirstSet}
use nvmkv.Cache.Entry.{bytes_eq_refl}
use nvmkv.Pool.{
  PoolMgr, has_pools_to_delete, get_pool_deletion_bitmap, clear_round, clear_rounds, zero_words,
  clear_pool_bitmaps,
}
use nvmkv.Pool.Valid.{PoolsValid, Holds-same}
use nvmkv.Pool.Cleared.{member-zero_words, length-zero_words, Clears, clear_pool_bitmaps-Clears}

-- A bit map of zeros has nothing to delete.
NoneFull-zero_words : (pbm : KvBitmap) → NoneFull (zero_words pbm)
NoneFull-zero_words [] = tt
NoneFull-zero_words (w ∷ ws) = (λ e. absurd (omega (arith, e)), NoneFull-zero_words ws)

-- The deletion bits stay as they are where the loop runs over the whole bit map.
deleted-clear_rounds :
    (cleared : KvBitmap) (n : ℕ) (m : PoolMgr) (i : ℕ)
    → (clear_rounds cleared true n m i).deleted ≡ m.deleted
unfolding clear_rounds clear_round
deleted-clear_rounds cleared zero m i = refl
deleted-clear_rounds cleared (suc n) m i =
    deleted-clear_rounds cleared n (clear_round cleared true m i) (i + 1) ∙ one_round
  where
    one_round : (clear_round cleared true m i).deleted ≡ m.deleted
    one_round = elim (Bool-cases (bitmap_test cleared i == 0)) [
      | inl keep ↦ rw keep refl
      | inr drop ↦ rw drop refl
    ]

no_bits : (pbm : KvBitmap) (nbits : ℕ) → Holds pbm nbits → bitmap_ffs (zero_words pbm) nbits ≡ none
no_bits pbm nbits fit =
    let h = Holds-same pbm (zero_words pbm) nbits (omega (arith, length-zero_words pbm)) fit in
    go (bitmap_ffs (zero_words pbm) nbits)
      (bitmap_ffs-FindsFirstSet (zero_words pbm) nbits h (NoneFull-zero_words pbm))
  where
    go : (o : Option ℕ) → FindsFirstSet (zero_words pbm) nbits o → o ≡ none
    go none found = refl
    go (some idx) found = absurd (ground (arith, found.1.0, member-zero_words pbm idx))

nothing_left :
    (m : PoolMgr) → bitmap_ffs m.deleted m.max_pools ≡ none → has_pools_to_delete m ≡ false
unfolding has_pools_to_delete
nothing_left m h = ground (arith, h)

-- In a well-formed state, clearing the pools that get_pool_deletion_bitmap gave out leaves no pool
-- to delete, and an id below the maximum is in use afterwards if it was in use and not in deletion.
pub clear-get_pool_deletion_bitmap :
    (m : PoolMgr) (persist : PoolMgr → Status) (j : ℕ)
    → PoolsValid m
    → j < m.max_pools
    → let r = (clear_pool_bitmaps m ((get_pool_deletion_bitmap m).0) persist).1 in
      (has_pools_to_delete r ≡ false)
      × (member r.in_use j ≡ (not (member m.deleted j) && member m.in_use j))
unfolding get_pool_deletion_bitmap has_pools_to_delete clear_pool_bitmaps
clear-get_pool_deletion_bitmap m persist j good lt = (drained, freed)
  where
    after : PoolMgr
    after = (clear_pool_bitmaps m m.deleted persist).1

    clears : Clears m.deleted m after
    clears = (clear_pool_bitmaps-Clears m m.deleted persist good).1

    emptied : after.deleted ≡ zero_words m.deleted
    emptied = rw (bytes_eq_refl m.deleted) (
        deleted-clear_rounds m.deleted (m.max_pools - 1)
          (record m { deleted = zero_words m.deleted }) 1)

    drained : has_pools_to_delete after ≡ false
    drained = nothing_left after (
        ap (λ (b : KvBitmap). bitmap_ffs b after.max_pools) emptied
        ∙ ap (λ (n : ℕ). bitmap_ffs (zero_words m.deleted) n) (clears.same_max)
        ∙ no_bits m.deleted m.max_pools (good.deleted_fit))

    freed : member after.in_use j ≡ (not (member m.deleted j) && member m.in_use j)
    freed = elim (Bool-cases (j == 0)) [
      | inl zero_id ↦
          let e : j ≡ 0 = ground arith in
          let kept : member m.deleted j ≡ false = rw e (good.default_kept) in
          ground (arith, kept, clears.used_bits j)
      | inr other ↦ ground (arith, clears.used_bits j)
    ]
