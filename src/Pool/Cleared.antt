-- ===== src/Pool/Cleared.antt =====
-- The bit maps of src/kv_pool_manager.cpp after `clear_pool_bitmaps`.
use nvmkv.Prelude.{
  ℕ, zero, suc, ◌-◌, ◌/◌, ◌^◌, ◌%◌, ◌<◌, ◌≤◌, ◌≡◌, true, false, not, ◌&&◌, [], ◌∷◌, arith, ltb,
  ◌==◌, length, get_or, Bool-cases, inl, inr, refl, ◌∙◌, ap,
}
use nvmkv.Error.{Status}
use nvmkv.Prelude.Bits.{test_bit, test_bit-zero}
use nvmkv.Bitmap.{KvBitmap}
use nvmkv.Bitmap.Access.{member, capacity}
use nvmkv.Bitmap.Search.{Holds}
use nvmkv.Cache.Entry.{bytes_eq→eq}
use nvmkv.Cache.{bytes_eq}
use nvmkv.Pool.{PoolMgr, zero_words, clear_pool_bitmaps}
use nvmkv.Pool.Valid.{PoolsValid, Holds-capacity}
use nvmkv.Pool.Clear.{clear_rounds-ClearsFrom}

pub member-zero_words : (pbm : KvBitmap) (j : ℕ) → member (zero_words pbm) j ≡ false
unfolding member
member-zero_words pbm j =
    ap (λ (w : ℕ). test_bit (j % 32) w) (none_set pbm (j / 32)) ∙ test_bit-zero (j % 32)
  where
    none_set : (ws : KvBitmap) (k : ℕ) → get_or (zero_words ws) k 0 ≡ 0
    none_set [] k = refl
    none_set (w ∷ ws) zero = refl
    none_set (w ∷ ws) (suc k) = none_set ws k

pub length-zero_words : (pbm : KvBitmap) → length (zero_words pbm) ≡ length pbm
length-zero_words [] = refl
length-zero_words (w ∷ ws) = ap suc (length-zero_words ws)

-- What clearing the ids of `cleared` does: the ids but 0 leave both bit maps.
pub record Clears (cleared : KvBitmap) (m r : PoolMgr) : Type 0 where
  pub same_max : r.max_pools ≡ m.max_pools
  pub same_used : capacity r.in_use ≡ capacity m.in_use
  pub same_deleted : capacity r.deleted ≡ capacity m.deleted
  pub few : r.total_no_pools < 2 ^ 32
  pub used_bits :
      (j : ℕ)
      → member r.in_use j
        ≡ (not (not (j == 0) && ltb j m.max_pools && member cleared j) && member m.in_use j)
  pub deleted_bits :
      (j : ℕ)
      → j < m.max_pools
      → member r.deleted j ≡ (not (member cleared j) && member m.deleted j)

fits : (pbm : KvBitmap) (n : ℕ) → 0 < n → Holds pbm n → n ≤ capacity pbm
fits pbm n pos h = let last = Holds-capacity pbm n (n - 1) h (omega arith) in omega (arith, last)

-- In a well-formed state, clear_pool_bitmaps frees exactly the given ids below the maximum but 0,
-- which leave both bit maps, keeps the bits of every other id, and returns what the write to the
-- media returns.
pub clear_pool_bitmaps-Clears :
    (m : PoolMgr) (cleared : KvBitmap) (persist : PoolMgr → Status)
    → PoolsValid m
    → let r = clear_pool_bitmaps m cleared persist in (r.0 ≡ persist (r.1)) × Clears cleared m (r.1)
unfolding clear_pool_bitmaps
clear_pool_bitmaps-Clears m cleared persist good =
    let used_room = fits m.in_use m.max_pools (good.some_pool) (good.used_fit) in
    let room = fits m.deleted m.max_pools (good.some_pool) (good.deleted_fit) in
    let pos = good.some_pool in
    let kept = good.default_kept in
    elim (Bool-cases (bytes_eq m.deleted cleared)) [
      | inl whole ↦
          let e : m.deleted ≡ cleared = bytes_eq→eq m.deleted cleared whole in
          let start = record m { deleted = zero_words m.deleted } in
          let w =
            clear_rounds-ClearsFrom cleared true (m.max_pools - 1) start 1 (omega arith)
              (omega (arith, length-zero_words m.deleted)) in
          rw whole (
            refl,
            record {
              same_max = w.same_max;
              same_used = w.same_used;
              same_deleted = omega (arith, w.same_deleted, length-zero_words m.deleted);
              few = w.few (good.counted);
              used_bits = λ j. ground (arith, w.used_bits j);
              deleted_bits = λ j lt.
                  let same : member m.deleted j ≡ member cleared j =
                    ap (λ (b : KvBitmap). member b j) e in
                  ground (arith, same, w.deleted_bits j, member-zero_words m.deleted j);
            },
          )
      | inr some_left ↦
          let w =
            clear_rounds-ClearsFrom cleared false (m.max_pools - 1) m 1 (omega arith)
              (omega arith) in
          rw some_left (
            refl,
            record {
              same_max = w.same_max;
              same_used = w.same_used;
              same_deleted = w.same_deleted;
              few = w.few (good.counted);
              used_bits = λ j. ground (arith, w.used_bits j);
              deleted_bits = λ j lt. elim (Bool-cases (j == 0)) [
                | inl zero_id ↦
                    let e : j ≡ 0 = ground arith in
                    let out : member m.deleted j ≡ false = rw e kept in
                    ground (arith, out, w.deleted_bits j)
                | inr other ↦ ground (arith, w.deleted_bits j)
              ];
            },
          )
    ]
