-- ===== src/Pool/Valid.antt =====
-- Well-formed pool managers, and the loops of `delete_pool` over all ids.
use nvmkv.Prelude.{
  ℕ, zero, suc, ◌+◌, ◌^◌, ◌<◌, ◌≤◌, ◌≡◌, Bool, true, false, ◌&&◌, arith, ltb, leb, ◌==◌,
  if◌then◌else◌, Bool-cases, inl, inr, refl, ◌∙◌,
}
use nvmkv.Util.Round.{bits_per_uint32-round32}
use nvmkv.Bitmap.{KvBitmap, bitmap_test}
use nvmkv.Bitmap.Access.{
  member, capacity, bitmap_test-member, member-bitmap_set, member-bitmap_clear, capacity-bitmap_set,
  capacity-bitmap_clear,
}
use nvmkv.Bitmap.Search.{Holds}
use nvmkv.Pool.{PoolMgr, mark_pool, unmark_pool, do_pools}

pub Holds-capacity : (pbm : KvBitmap) (nbits i : ℕ) → Holds pbm nbits → i < nbits → i < capacity pbm
Holds-capacity pbm nbits i h lt = omega (arith, h, (bits_per_uint32-round32 nbits (h.0)).0)

pub Holds-same :
    (pbm pbm' : KvBitmap) (nbits : ℕ)
    → capacity pbm' ≡ capacity pbm
    → Holds pbm nbits
    → Holds pbm' nbits
Holds-same pbm pbm' nbits same h = (h.0, omega (arith, h.1, same))

-- The default pool is in use and never in deletion, and a pool in deletion is in use.
pub record PoolsValid (m : PoolMgr) : Type 0 where
  pub used_fit : Holds m.in_use m.max_pools
  pub deleted_fit : Holds m.deleted m.max_pools
  pub counted : m.total_no_pools < 2 ^ 32
  pub some_pool : 0 < m.max_pools
  pub default_used : member m.in_use 0 ≡ true
  pub default_kept : member m.deleted 0 ≡ false
  pub deleted_used :
      (i : ℕ) → i < m.max_pools → member m.deleted i ≡ true → member m.in_use i ≡ true

-- What the deletions of pools keep.
pub record Kept (m r : PoolMgr) : Type 0 where
  pub same_used : r.in_use ≡ m.in_use
  pub same_max : r.max_pools ≡ m.max_pools
  pub same_total : r.total_no_pools ≡ m.total_no_pools
  pub same_capacity : capacity r.deleted ≡ capacity m.deleted

pub Kept-refl : (m : PoolMgr) → Kept m m
Kept-refl m = record { same_used = refl; same_max = refl; same_total = refl; same_capacity = refl }

pub Kept-trans : {m r q : PoolMgr} → Kept m r → Kept r q → Kept m q
Kept-trans a b = record {
  same_used = b.same_used ∙ a.same_used;
  same_max = b.same_max ∙ a.same_max;
  same_total = b.same_total ∙ a.same_total;
  same_capacity = b.same_capacity ∙ a.same_capacity;
}

-- What the body of a loop does at `i`: the deletion bit becomes `v` where the id is in use.
pub record Writes (v : Bool) (m : PoolMgr) (i : ℕ) (r : PoolMgr) : Type 0 where
  pub kept : Kept m r
  pub bits :
      (j : ℕ) → member r.deleted j ≡ (if i == j && member m.in_use i then v else member m.deleted j)

pub mark_pool-Writes :
    (m : PoolMgr) (i : ℕ) → i < capacity m.deleted → Writes true m i (mark_pool m i)
unfolding mark_pool
mark_pool-Writes m i h = elim (Bool-cases (bitmap_test m.in_use i == 0)) [
  | inl clear ↦
      let out : member m.in_use i ≡ false = ground (arith, bitmap_test-member m.in_use i) in
      rw clear (record { kept = Kept-refl m; bits = λ j. ground arith })
  | inr used ↦
      let out : member m.in_use i ≡ true = ground (arith, bitmap_test-member m.in_use i) in
      rw used (record {
        kept = record {
          same_used = refl;
          same_max = refl;
          same_total = refl;
          same_capacity = capacity-bitmap_set m.deleted i;
        };
        bits = λ j. ground (arith, member-bitmap_set m.deleted i j h);
      })
]

pub unmark_pool-Writes :
    (m : PoolMgr) (i : ℕ) → i < capacity m.deleted → Writes false m i (unmark_pool m i)
unfolding unmark_pool
unmark_pool-Writes m i h = elim (Bool-cases (bitmap_test m.in_use i == 0)) [
  | inl clear ↦
      let out : member m.in_use i ≡ false = ground (arith, bitmap_test-member m.in_use i) in
      rw clear (record { kept = Kept-refl m; bits = λ j. ground arith })
  | inr used ↦
      let out : member m.in_use i ≡ true = ground (arith, bitmap_test-member m.in_use i) in
      rw used (record {
        kept = record {
          same_used = refl;
          same_max = refl;
          same_total = refl;
          same_capacity = capacity-bitmap_clear m.deleted i;
        };
        bits = λ j. ground (arith, member-bitmap_clear m.deleted i j h);
      })
]

-- What a loop over the ids from `i` on does.
pub record WritesFrom (v : Bool) (m : PoolMgr) (i : ℕ) (r : PoolMgr) : Type 0 where
  pub kept : Kept m r
  pub bits :
      (j : ℕ)
      → member r.deleted j
        ≡ (if leb i j && ltb j m.max_pools && member m.in_use j then v else member m.deleted j)

module _ (v : Bool) (body : PoolMgr → ℕ → PoolMgr)
    (writes : (m : PoolMgr) (i : ℕ) → i < capacity m.deleted → Writes v m i (body m i)) where
  pub do_pools-WritesFrom :
      (n : ℕ) (m : PoolMgr) (i : ℕ)
      → i < m.max_pools
      → m.max_pools ≤ i + n
      → m.max_pools ≤ capacity m.deleted
      → WritesFrom v m i (do_pools body n m i)
  unfolding do_pools
  do_pools-WritesFrom zero m i lt enough fit = absurd (omega arith)
  do_pools-WritesFrom (suc n) m i lt enough fit =
      let w = writes m i (omega arith) in
      elim (Bool-cases (ltb (i + 1) m.max_pools)) [
        | inl more ↦
            let here = body m i in
            let rest =
              do_pools-WritesFrom n here (i + 1) (rw (w.kept.same_max) (ground arith))
                (rw (w.kept.same_max) (omega arith))
                (omega (arith, w.kept.same_max, w.kept.same_capacity)) in
            rw more (record {
              kept = Kept-trans (w.kept) (rest.kept);
              bits = λ j.
                  ground (arith, rw (w.kept.same_max, w.kept.same_used) at (rest.bits j), w.bits j);
            })
        | inr last ↦ rw last (record { kept = w.kept; bits = λ j. ground (arith, w.bits j) })
      ]
