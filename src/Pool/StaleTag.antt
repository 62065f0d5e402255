-- ===== src/Pool/StaleTag.antt =====
-- `create_pool` of src/kv_pool_manager.cpp after a creation that could not be persisted.
use nvmkv.Prelude.{
  ℕ, ◌≡◌, false, Option, none, some, List, ◌∷◌, arith, ltb, refl, sym, ◌∙◌, ap, set,
}
use mathlib.Core.Path.{subst}
use nvmkv.Error.{ErrorCode, Status, failure, Result, ok, err}
use nvmkv.Bitmap.{KvBitmap, bitmap_set, bitmap_clear, bitmap_ffa}
use nvmkv.Bitmap.Access.{member}
use nvmkv.Bitmap.Search.{TakesFirstClear, bitmap_ffa-TakesFirstClear}
use nvmkv.Cache.Entry.{bytes_eq_refl}
use nvmkv.Pool.{
  PoolMgr, PoolTag, tag_name, tag_find, tag_insert, known_tag, drop_count, count_pool, set_pool_tag,
  store_pool, create_pool,
}
use nvmkv.Pool.Valid.{PoolsValid}
use nvmkv.Pool.Create.{create_known, create_claim, claim_id-some, store_pool_err, not_default, back}

-- The entry of the name outlives the creation that failed.
find_named :
    (m : PoolMgr) (b : ℕ) (bs : List ℕ) (id : ℕ)
    → known_tag m (b ∷ bs) ≡ none
    → tag_find (tag_insert m.tags_map (b ∷ bs) id) (b ∷ bs) ≡ some id
unfolding known_tag
find_named m b bs id h = ground (arith, h, bytes_eq_refl (b ∷ bs))

module _ (m : PoolMgr) (good : PoolsValid m) (tag : PoolTag) (b : ℕ) (bs : List ℕ)
    (named : tag_name (some tag) ≡ b ∷ bs) (unknown : known_tag m (tag_name (some tag)) ≡ none)
    (below : ltb m.max_pools m.total_no_pools ≡ false) (id : ℕ) (after : KvBitmap)
    (free : bitmap_ffa m.in_use m.max_pools ≡ (some id, after)) (c : ErrorCode) where
  abbrev failing : PoolMgr → Status
  failing m' = failure c

  -- The state behind the failed creation.
  abbrev reverted : PoolMgr
  reverted = drop_count (record (count_pool m) {
    in_use = bitmap_clear (bitmap_set m.in_use id) id;
    pool_tags = set m.pool_tags id tag;
    tags_map = tag_insert m.tags_map (b ∷ bs) id;
  })

  took : TakesFirstClear m.in_use m.max_pools (some id, after)
  took =
      subst (λ (r : Option ℕ × KvBitmap). TakesFirstClear m.in_use m.max_pools r) free
        (bitmap_ffa-TakesFirstClear m.in_use m.max_pools (good.used_fit))

  create_failed : create_pool m (some tag) failing ≡ (err c, reverted)
  unfolding set_pool_tag
  create_failed =
      let claimed_pool =
        set_pool_tag (record (count_pool m) { in_use = bitmap_set m.in_use id }) id (some tag) in
      create_claim m (some tag) failing unknown below
      ∙ claim_id-some (count_pool m) (some tag) failing (tag_name (some tag)) id
          (bitmap_set m.in_use id) (free ∙ ap (λ (x : KvBitmap). (some id, x)) (took.1))
      ∙ ap (λ (name : List ℕ). store_pool claimed_pool id name failing) named
      ∙ store_pool_err claimed_pool id (b ∷ bs) failing c refl
          (not_default m good id (some tag) failing (took.0) (took.2.0))

  find_again : known_tag reverted (b ∷ bs) ≡ some id
  unfolding known_tag
  find_again =
      find_named m b bs id
        (unfold known_tag in subst (λ (n : List ℕ). known_tag m n ≡ none) named unknown)

-- In a well-formed state with a free id and a count that is not above the maximum, where a creation
-- with a new tag that is not empty cannot be persisted, the next creation with that tag returns an
-- id that is not in use.
pub create_pool_again :
    (m : PoolMgr) (tag : PoolTag) (b : ℕ) (bs : List ℕ) (id : ℕ) (after : KvBitmap) (c : ErrorCode)
    (persist : PoolMgr → Status)
    → PoolsValid m
    → tag_name (some tag) ≡ b ∷ bs
    → known_tag m (tag_name (some tag)) ≡ none
    → ltb m.max_pools m.total_no_pools ≡ false
    → bitmap_ffa m.in_use m.max_pools ≡ (some id, after)
    → let left = (create_pool m (some tag) (λ m'. failure c)).1 in
      ((create_pool left (some tag) persist).0 ≡ ok id) × (member left.in_use id ≡ false)
create_pool_again m tag b bs id after c persist good named unknown below free =
    let state = reverted m good tag b bs named unknown below id after free c in
    let took_id = took m good tag b bs named unknown below id after free c in
    let again = create_known state (some tag) persist id (
      subst (λ (n : List ℕ). known_tag state n ≡ some id) (sym named)
        (find_again m good tag b bs named unknown below id after free c)) in
    let unused : member state.in_use id ≡ false =
      back m good id (some tag) persist (took_id.0) (took_id.2.0) id ∙ took_id.2.0 in
    subst
      (λ (r : Result ℕ × PoolMgr).
        ((create_pool (r.1) (some tag) persist).0 ≡ ok id) × (member (r.1).in_use id ≡ false))
      (sym (create_failed m good tag b bs named unknown below id after free c))
      (ap (λ (r : Result ℕ × PoolMgr). r.0) again, unused)
