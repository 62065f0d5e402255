-- ===== src/Pool/Clear.antt =====
-- `clear_pool_bitmaps` of src/kv_pool_manager.cpp, by which the pool deletion thread gives ids back.
use nvmkv.Prelude.{
  ℕ, zero, suc, ◌+◌, ◌^◌, ◌<◌, ◌≤◌, ◌≡◌, Bool, true, false, not, ◌&&◌, arith, ltb, leb, ◌==◌,
  if◌then◌else◌, Bool-cases, inl, inr, refl, ◌∙◌, ap,
}
use nvmkv.Bitmap.{KvBitmap, bitmap_clear, bitmap_test}
use nvmkv.Bitmap.Access.{
  member, capacity, bitmap_test-member, member-bitmap_clear, capacity-bitmap_clear,
}
use nvmkv.Pool.{PoolMgr, drop_count, clear_round, clear_rounds}

-- What the rounds of the loop do from `i` on, where there are `n` of them.
pub record ClearsFrom (cleared : KvBitmap) (whole : Bool) (n : ℕ) (m : PoolMgr) (i : ℕ)
    (r : PoolMgr) : Type 0 where
  pub same_max : r.max_pools ≡ m.max_pools
  pub same_used : capacity r.in_use ≡ capacity m.in_use
  pub same_deleted : capacity r.deleted ≡ capacity m.deleted
  pub few : m.total_no_pools < 2 ^ 32 → r.total_no_pools < 2 ^ 32
  pub used_bits :
      (j : ℕ)
      → member r.in_use j
        ≡ (not (leb i j && ltb j (i + n) && member cleared j) && member m.in_use j)
  pub deleted_bits :
      (j : ℕ)
      → member r.deleted j
        ≡ (not (not whole && leb i j && ltb j (i + n) && member cleared j) && member m.deleted j)

-- A round at `i` touches no other id.
spared_one :
    (cleared : KvBitmap) (b v : Bool) (i j : ℕ)
    → (not (b && leb i j && ltb j (i + 1) && member cleared j) && v)
      ≡ (if b && member cleared i && i == j then false else v)
spared_one cleared b v i j = elim (Bool-cases (i == j)) [
  | inl same ↦
      let e : i ≡ j = ground arith in
      let s : member cleared i ≡ member cleared j = ap (λ (k : ℕ). member cleared k) e in
      ground arith
  | inr other ↦ ground arith
]

clear_round-ClearsFrom :
    (cleared : KvBitmap) (whole : Bool) (m : PoolMgr) (i : ℕ)
    → i < capacity m.in_use
    → i < capacity m.deleted
    → ClearsFrom cleared whole 1 m i (clear_round cleared whole m i)
unfolding clear_round
clear_round-ClearsFrom cleared whole m i used_room deleted_room =
    elim (Bool-cases (bitmap_test cleared i == 0)) [
      | inl keep ↦
          let out : member cleared i ≡ false = ground (arith, bitmap_test-member cleared i) in
          rw keep (record {
            same_max = refl;
            same_used = refl;
            same_deleted = refl;
            few = λ h. h;
            used_bits = λ j. ground (arith, spared_one cleared true (member m.in_use j) i j);
            deleted_bits =
                λ j. ground (arith, spared_one cleared (not whole) (member m.deleted j) i j);
          })
      | inr drop ↦
          let out : member cleared i ≡ true = ground (arith, bitmap_test-member cleared i) in
          rw drop (dropped whole out)
    ]
  where
    dropped :
        (whole : Bool)
        → member cleared i ≡ true
        → ClearsFrom cleared whole 1 m i (
            drop_count (record m {
              deleted = if whole then m.deleted else bitmap_clear m.deleted i;
              in_use = bitmap_clear m.in_use i;
            }))
    dropped true out = record {
      same_max = refl;
      same_used = capacity-bitmap_clear m.in_use i;
      same_deleted = refl;
      few = λ h. omega arith;
      used_bits = λ j. ground (
        arith,
        spared_one cleared true (member m.in_use j) i j,
        member-bitmap_clear m.in_use i j used_room,
      );
      deleted_bits = λ j. ground arith;
    }
    dropped false out = record {
      same_max = refl;
      same_used = capacity-bitmap_clear m.in_use i;
      same_deleted = capacity-bitmap_clear m.deleted i;
      few = λ h. omega arith;
      used_bits = λ j. ground (
        arith,
        spared_one cleared true (member m.in_use j) i j,
        member-bitmap_clear m.in_use i j used_room,
      );
      deleted_bits = λ j. ground (
        arith,
        spared_one cleared true (member m.deleted j) i j,
        member-bitmap_clear m.deleted i j deleted_room,
      );
    }

pub clear_rounds-ClearsFrom :
    (cleared : KvBitmap) (whole : Bool) (n : ℕ) (m : PoolMgr) (i : ℕ)
    → i + n ≤ capacity m.in_use
    → i + n ≤ capacity m.deleted
    → ClearsFrom cleared whole n m i (clear_rounds cleared whole n m i)
unfolding clear_rounds
clear_rounds-ClearsFrom cleared whole zero m i used_room deleted_room = record {
  same_max = refl;
  same_used = refl;
  same_deleted = refl;
  few = λ h. h;
  used_bits = λ j. ground arith;
  deleted_bits = λ j. ground arith;
}
clear_rounds-ClearsFrom cleared whole (suc n) m i used_room deleted_room =
    let w = clear_round-ClearsFrom cleared whole m i (omega arith) (omega arith) in
    let rest =
      clear_rounds-ClearsFrom cleared whole n (clear_round cleared whole m i) (i + 1)
        (omega (arith, w.same_used)) (omega (arith, w.same_deleted)) in
    record {
      same_max = rest.same_max ∙ w.same_max;
      same_used = rest.same_used ∙ w.same_used;
      same_deleted = rest.same_deleted ∙ w.same_deleted;
      few = λ h. rest.few (w.few h);
      used_bits = λ j. ground (arith, rest.used_bits j, w.used_bits j);
      deleted_bits = λ j. ground (arith, rest.deleted_bits j, w.deleted_bits j);
    }
