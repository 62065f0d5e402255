-- ===== src/Pool/Create.antt =====
-- `create_pool` of src/kv_pool_manager.cpp on all its branches.
use mathlib.Core.Path.{subst}
use nvmkv.Prelude.{
  ℕ, ◌+◌, ◌-◌, ◌%◌, ◌^◌, ◌<◌, ◌≡◌, true, false, Option, none, some, List, [], ◌∷◌, arith, ltb, ◌==◌,
  Bool-cases, Option-cases, inl, inr, refl, sym, ◌∙◌, ap,
}
use nvmkv.Error.{ErrorCode, invalid_input, Status, success, failure, Result, ok, err, Status-cases}
use nvmkv.Bitmap.{KvBitmap, bitmap_set, bitmap_clear, bitmap_ffa}
use nvmkv.Bitmap.Access.{
  member, member-bitmap_set, member-bitmap_clear, capacity, capacity-bitmap_set,
  capacity-bitmap_clear,
}
use nvmkv.Bitmap.Search.{Holds, TakesFirstClear, bitmap_ffa-TakesFirstClear}
use nvmkv.Pool.{
  PoolMgr, PoolTag, tag_name, known_tag, name_pool, drop_count, count_pool, set_pool_tag,
  store_pool, claim_id, create_pool,
}
use nvmkv.Pool.Valid.{PoolsValid, Holds-capacity, Holds-same}

-- What a creation that returned `r` did.
pub data Creates (m : PoolMgr) (tag : Option PoolTag) (r : Result ℕ × PoolMgr) : Type 0 where
  known : (id : ℕ) → known_tag m (tag_name tag) ≡ some id → r ≡ (ok id, m) → Creates m tag r
  fresh :
      (id : ℕ)
      → id < m.max_pools
      → member m.in_use id ≡ false
      → r.0 ≡ ok id
      → r.1.in_use ≡ bitmap_set m.in_use id
      → r.1.deleted ≡ m.deleted
      → r.1.total_no_pools ≡ (m.total_no_pools + 1) % 2 ^ 32
      → r.1.max_pools ≡ m.max_pools
      → Creates m tag r
  refused :
      (c : ErrorCode)
      → r.0 ≡ err c
      → ((j : ℕ) → member r.1.in_use j ≡ member m.in_use j)
      → Holds r.1.in_use m.max_pools
      → r.1.deleted ≡ m.deleted
      → r.1.total_no_pools ≡ m.total_no_pools
      → r.1.max_pools ≡ m.max_pools
      → Creates m tag r

-- What `set_pool_tag` and the entry of the name keep.
abbrev Same : PoolMgr → PoolMgr → Type 0
Same m r =
    (r.in_use ≡ m.in_use)
    × (r.deleted ≡ m.deleted)
    × (r.total_no_pools ≡ m.total_no_pools)
    × (r.max_pools ≡ m.max_pools)

set_pool_tag-Same : (m : PoolMgr) (id : ℕ) (tag : Option PoolTag) → Same m (set_pool_tag m id tag)
unfolding set_pool_tag
set_pool_tag-Same m id none = (refl, refl, refl, refl)
set_pool_tag-Same m id (some t) = (refl, refl, refl, refl)

name_pool-Same : (m : PoolMgr) (name : List ℕ) (id : ℕ) → Same m (name_pool m name id)
name_pool-Same m [] id = (refl, refl, refl, refl)
name_pool-Same m (b ∷ bs) id = (refl, refl, refl, refl)

count_back : (n : ℕ) → n < 2 ^ 32 → ((n + 1) % 2 ^ 32 + 2 ^ 32 - 1) % 2 ^ 32 ≡ n
count_back n h = omega arith

-- The two ends of `store_pool`.
module _ (m : PoolMgr) (id : ℕ) (name : List ℕ) (persist : PoolMgr → Status) where
  store_pool_ok : persist m ≡ success → store_pool m id name persist ≡ (ok id, name_pool m name id)
  unfolding store_pool
  store_pool_ok h = ground (arith, h)

  pub store_pool_err :
      (c : ErrorCode)
      → persist m ≡ failure c
      → 0 < id
      → store_pool m id name persist ≡ (
        err c,
        drop_count (record (name_pool m name id) {
          in_use = bitmap_clear (name_pool m name id).in_use id;
        }),
      )
  unfolding store_pool
  store_pool_err c h pos = ground (arith, h)

-- A creation from the bit that `bitmap_ffa` took on.
module _ (m : PoolMgr) (good : PoolsValid m) (id : ℕ) (tag : Option PoolTag)
    (persist : PoolMgr → Status) (small : id < m.max_pools) (new : member m.in_use id ≡ false) where
  abbrev taken : PoolMgr
  taken = set_pool_tag (record (count_pool m) { in_use = bitmap_set m.in_use id }) id tag

  room : id < capacity m.in_use
  room = Holds-capacity m.in_use m.max_pools id (good.used_fit) small

  pub not_default : 0 < id
  not_default = elim (Bool-cases (id == 0)) [
    | inl zero_id ↦
        let e : id ≡ 0 = ground arith in
        let absent : member m.in_use 0 ≡ false = rw (← e) new in
        absurd (ground (arith, absent, good.default_used))
    | inr other ↦ ground arith
  ]

  pub back : (j : ℕ) → member (bitmap_clear (bitmap_set m.in_use id) id) j ≡ member m.in_use j
  back j =
      rw
        (
          member-bitmap_clear (bitmap_set m.in_use id) id j
              (rw (capacity-bitmap_set m.in_use id) room),
          member-bitmap_set m.in_use id j room,
        )
        (elim (Bool-cases (id == j)) [
          | inl same ↦
              let e : id ≡ j = ground arith in
              let absent : member m.in_use j ≡ false = rw e at new in rw absent (ground arith)
          | inr other ↦ ground arith
        ])

  stored : Creates m tag (store_pool taken id (tag_name tag) persist)
  stored =
      let name = tag_name tag in
      let (tag_use, tag_del, tag_total, tag_max) =
        set_pool_tag-Same (record (count_pool m) { in_use = bitmap_set m.in_use id }) id tag in
      let (name_use, name_del, name_total, name_max) = name_pool-Same taken name id in
      elim (Status-cases (persist taken)) [
        | inl done ↦ rw (store_pool_ok taken id name persist done) (
            fresh id small new refl (name_use ∙ tag_use) (name_del ∙ tag_del)
              (name_total ∙ tag_total) (name_max ∙ tag_max))
        | inr (c, failed) ↦
            let used : (name_pool taken name id).in_use ≡ bitmap_set m.in_use id =
              name_use ∙ tag_use in
            let total : (name_pool taken name id).total_no_pools ≡ (m.total_no_pools + 1) % 2 ^ 32 =
              name_total ∙ tag_total in
            rw (store_pool_err taken id name persist c failed not_default) (
              refused c refl
                (λ j. ap (λ (b : KvBitmap). member (bitmap_clear b id) j) used ∙ back j)
                (Holds-same m.in_use _ m.max_pools
                  (ap (λ (b : KvBitmap). capacity (bitmap_clear b id)) used
                    ∙ capacity-bitmap_clear (bitmap_set m.in_use id) id
                    ∙ capacity-bitmap_set m.in_use id)
                  (good.used_fit))
                (name_del ∙ tag_del)
                (ap (λ (n : ℕ). (n + 2 ^ 32 - 1) % 2 ^ 32) total
                  ∙ count_back m.total_no_pools (good.counted))
                (name_max ∙ tag_max))
      ]

-- The equations of the rest of `create_pool`.
module _ (m : PoolMgr) (tag : Option PoolTag) (persist : PoolMgr → Status) where
  claim_id-none :
      (name : List ℕ) (after : KvBitmap)
      → bitmap_ffa m.in_use m.max_pools ≡ (none, after)
      → claim_id m tag name persist ≡ (err invalid_input, drop_count (record m { in_use = after }))
  unfolding claim_id
  claim_id-none name after h = ground (arith, h)

  pub claim_id-some :
      (name : List ℕ) (id : ℕ) (after : KvBitmap)
      → bitmap_ffa m.in_use m.max_pools ≡ (some id, after)
      → claim_id m tag name persist
        ≡ store_pool (set_pool_tag (record m { in_use = after }) id tag) id name persist
  unfolding claim_id
  claim_id-some name id after h = ground (arith, h)

  pub create_known :
      (id : ℕ) → known_tag m (tag_name tag) ≡ some id → create_pool m tag persist ≡ (ok id, m)
  unfolding create_pool
  create_known id h = ground (arith, h)

  create_full :
      known_tag m (tag_name tag) ≡ none
      → ltb m.max_pools m.total_no_pools ≡ true
      → create_pool m tag persist ≡ (err invalid_input, drop_count (count_pool m))
  unfolding create_pool
  create_full h full = ground (arith, h)

  pub create_claim :
      known_tag m (tag_name tag) ≡ none
      → ltb m.max_pools m.total_no_pools ≡ false
      → create_pool m tag persist ≡ claim_id (count_pool m) tag (tag_name tag) persist
  unfolding create_pool
  create_claim h below = ground (arith, h)

claimed :
    (m : PoolMgr)
    → PoolsValid m
    → (tag : Option PoolTag) (persist : PoolMgr → Status) → (r : Option ℕ × KvBitmap)
    → bitmap_ffa m.in_use m.max_pools ≡ r
    → TakesFirstClear m.in_use m.max_pools r
    → Creates m tag (claim_id (count_pool m) tag (tag_name tag) persist)
claimed m good tag persist (none, after) e (same, all) =
    let total = count_back m.total_no_pools (good.counted) in
    subst (λ (x : Result ℕ × PoolMgr). Creates m tag x)
      (sym (claim_id-none (count_pool m) tag persist (tag_name tag) after e))
      (refused invalid_input refl (λ j. ap (λ (b : KvBitmap). member b j) same)
        (Holds-same m.in_use after m.max_pools (ap (λ (b : KvBitmap). capacity b) same)
          (good.used_fit))
        refl total refl)
claimed m good tag persist (some id, after) e (small, same, first) =
    subst (λ (x : Result ℕ × PoolMgr). Creates m tag x)
      (sym (
        claim_id-some (count_pool m) tag persist (tag_name tag) id (bitmap_set m.in_use id)
          (e ∙ ap (λ (b : KvBitmap). (some id, b)) same)))
      (stored m good id tag persist small (first.0))

-- In a well-formed state, create_pool returns the id of a known tag and changes nothing, or takes
-- an id below the maximum that was not in use into use and counts it, or returns an error with the
-- ids in use, the ids in deletion and the count as they were.
pub create_pool-Creates :
    (m : PoolMgr) (tag : Option PoolTag) (persist : PoolMgr → Status)
    → PoolsValid m
    → Creates m tag (create_pool m tag persist)
create_pool-Creates m tag persist good = elim (Option-cases (known_tag m (tag_name tag))) [
  | inr (id, found) ↦ known id found (create_known m tag persist id found)
  | inl unknown ↦ elim (Bool-cases (ltb m.max_pools m.total_no_pools)) [
    | inl full ↦
        subst (λ (x : Result ℕ × PoolMgr). Creates m tag x)
          (sym (create_full m tag persist unknown full))
          (refused invalid_input refl (λ j. refl) (good.used_fit) refl
            (count_back m.total_no_pools (good.counted)) refl)
    | inr below ↦
        subst (λ (x : Result ℕ × PoolMgr). Creates m tag x)
          (sym (create_claim m tag persist unknown below))
          (claimed m good tag persist (bitmap_ffa m.in_use m.max_pools) refl
            (bitmap_ffa-TakesFirstClear m.in_use m.max_pools (good.used_fit)))
  ]
]
