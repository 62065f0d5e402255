-- ===== src/Pool.antt =====
-- src/kv_pool_manager.cpp: the pools of a store, their tags, and the two bit maps of the ids in use and
-- of the ids in deletion. Every operation holds the mutex of the bit maps, so it is one step. What
-- `persist_store_info` returns, which writes the state to the media and does not change it, is an
-- argument of the operations that call it.
pub mod Valid
pub mod Create
pub mod Delete
pub mod DeleteOne
pub mod Clear
pub mod Cleared
pub mod Steps
pub mod StaleTag
pub mod Drained
use nvmkv.Prelude.{
  ℕ, zero, suc, ◌+◌, ◌-◌, ◌*◌, ◌/◌, ◌%◌, ◌^◌, Bool, true, false, not, ◌&&◌, ◌||◌, Option, none,
  some, List, [], ◌∷◌, ltb, leb, ◌==◌, if◌then◌else◌, get_or, set, replicate,
}
use nvmkv.Error.{ErrorCode, invalid_input, Status, success, failure, Result, ok, err}
use nvmkv.Bitmap.{KvBitmap, bitmap_set, bitmap_clear, bitmap_test, bitmap_ffa, bitmap_ffs}
use nvmkv.Cache.{bytes_eq}

-- `nvm_kv_pool_tag_t`, 16 bytes.
abbrev pub PoolTag : Type 0
PoolTag = List ℕ

-- `m_pPoolTags` is an array of tags, and `m_tags_map` an association list of C strings and pool ids;
-- `max_pools` and `total_no_pools` are fields of the metadata of the store.
pub record PoolMgr : Type 0 where
  pub in_use : KvBitmap
  pub deleted : KvBitmap
  pub pool_tags : List PoolTag
  pub tags_map : List (List ℕ × ℕ)
  pub total_no_pools : ℕ
  pub max_pools : ℕ

abbrev pub zero_tag : PoolTag
zero_tag = replicate 16 0

-- The C string of a tag: its bytes before the first 0, and all of them where there is none.
abbrev pub c_string : List ℕ → List ℕ
c_string [] = []
c_string (b ∷ bs) = if b == 0 then [] else b ∷ c_string bs

-- `pool_tag_str` for a tag pointer that may be NULL.
abbrev pub tag_name : Option PoolTag → List ℕ
tag_name none = []
tag_name (some tag) = c_string tag

abbrev pub is_nil : List ℕ → Bool
is_nil [] = true
is_nil (b ∷ bs) = false

abbrev pub tag_find : List (List ℕ × ℕ) → List ℕ → Option ℕ
tag_find [] name = none
tag_find ((k, id) ∷ rest) name = if bytes_eq k name then some id else tag_find rest name

abbrev pub tag_erase : List (List ℕ × ℕ) → List ℕ → List (List ℕ × ℕ)
tag_erase [] name = []
tag_erase ((k, id) ∷ rest) name =
    let others = tag_erase rest name in if bytes_eq k name then others else (k, id) ∷ others

-- `std::map::insert` keeps a pair that is there.
abbrev pub tag_insert : List (List ℕ × ℕ) → List ℕ → ℕ → List (List ℕ × ℕ)
tag_insert tags name id = elim (tag_find tags name) [ some _ ↦ tags | none ↦ (name, id) ∷ tags ]

-- `total_no_pools--` on `uint32_t`.
abbrev pub drop_count : PoolMgr → PoolMgr
drop_count m = record m { total_no_pools = (m.total_no_pools + 2 ^ 32 - 1) % 2 ^ 32 }

-- It always returns NVM_SUCCESS.
pub set_pool_tag : PoolMgr → ℕ → Option PoolTag → PoolMgr
set_pool_tag m id none = record m { pool_tags = set m.pool_tags id zero_tag }
set_pool_tag m id (some tag) = record m { pool_tags = set m.pool_tags id tag }

-- The id of a tag that was given to a pool before.
pub known_tag : PoolMgr → List ℕ → Option ℕ
known_tag m name = if is_nil name then none else tag_find m.tags_map name

abbrev pub name_pool : PoolMgr → List ℕ → ℕ → PoolMgr
name_pool m name id =
    if is_nil name then m else record m { tags_map = tag_insert m.tags_map name id }

-- `create_pool` from the call of `persist_store_info` on: the name is entered before the result is
-- looked at.
pub store_pool : PoolMgr → ℕ → List ℕ → (PoolMgr → Status) → Result ℕ × PoolMgr
store_pool m id name persist =
    let named = name_pool m name id in
    elim (persist m) [
      | success ↦ (ok id, named)
      | failure c ↦ (
        err c,
        drop_count
            (if ltb 0 id then record named { in_use = bitmap_clear named.in_use id } else named),
      )
    ]

pub claim_id : PoolMgr → Option PoolTag → List ℕ → (PoolMgr → Status) → Result ℕ × PoolMgr
claim_id m tag name persist =
    let r = bitmap_ffa m.in_use m.max_pools in
    elim (r.0) [
      | none ↦ (err invalid_input, drop_count (record m { in_use = r.1 }))
      | some id ↦ store_pool (set_pool_tag (record m { in_use = r.1 }) id tag) id name persist
    ]

abbrev pub count_pool : PoolMgr → PoolMgr
count_pool m = record m { total_no_pools = (m.total_no_pools + 1) % 2 ^ 32 }

-- The returned id is `ok`, and a negative code is `err`.
pub create_pool : PoolMgr → Option PoolTag → (PoolMgr → Status) → Result ℕ × PoolMgr
create_pool m tag persist = elim (known_tag m (tag_name tag)) [
  | some id ↦ (ok id, m)
  | none ↦
      if ltb m.max_pools m.total_no_pools
      then (err invalid_input, drop_count (count_pool m))
      else claim_id (count_pool m) tag (tag_name tag) persist
]

-- A pool id of type `int`: M_POOLID_ALL is -1.
pub data PoolId : Type 0 where
  all_pools other_negative : PoolId
  one_pool : ℕ → PoolId

pub data PoolStatus : Type 0 where
  pool_is_invalid pool_not_in_use pool_in_use pool_deletion_in_progress : PoolStatus

abbrev pub nvm_kv_max_pools : ℕ
nvm_kv_max_pools = 1048576

pub valid_poolid : PoolMgr → ℕ → Bool
valid_poolid m id = if id == 0 then true else not (bitmap_test m.in_use id == 0)

pub pool_in_del : PoolMgr → ℕ → Bool
pool_in_del m id =
    not (m.max_pools == 0)
    && not (bitmap_test m.in_use id == 0)
    && not (bitmap_test m.deleted id == 0)

pub status_of : Bool → Bool → PoolStatus
status_of is_valid_poolid true = pool_deletion_in_progress
status_of true false = pool_in_use
status_of false false = pool_not_in_use

pub check_pool_status : PoolMgr → PoolId → PoolStatus
check_pool_status m (one_pool id) =
    if leb nvm_kv_max_pools id
    then pool_is_invalid
    else status_of (valid_poolid m id) (pool_in_del m id)
check_pool_status m _ = pool_is_invalid

pub get_pool_tag : PoolMgr → ℕ → PoolTag
get_pool_tag m id = elim (check_pool_status m (one_pool id)) [
  | pool_in_use ↦ get_or m.pool_tags id zero_tag
  | _ ↦ zero_tag
]

-- The body of the loop of `delete_pool` for one id.
pub mark_pool : PoolMgr → ℕ → PoolMgr
mark_pool m id = if bitmap_test m.in_use id == 0 then m else record m {
  pool_tags = set m.pool_tags id zero_tag;
  tags_map = tag_erase m.tags_map (c_string (get_or m.pool_tags id zero_tag));
  deleted = bitmap_set m.deleted id;
}

-- The body of the loop that takes the marks back.
pub unmark_pool : PoolMgr → ℕ → PoolMgr
unmark_pool m id =
    if bitmap_test m.in_use id == 0 then m else record m { deleted = bitmap_clear m.deleted id }

-- `do { body; i++; } while (i < max_pools)`, with fuel for as many rounds as there may be.
pub do_pools : (PoolMgr → ℕ → PoolMgr) → ℕ → PoolMgr → ℕ → PoolMgr
do_pools body zero m i = m
do_pools body (suc n) m i =
    let rest = do_pools body n (body m i) (i + 1) in
    if ltb (i + 1) m.max_pools then rest else body m i

-- Over all ids but the default pool's, or over one.
pub over_pools : (PoolMgr → ℕ → PoolMgr) → PoolId → PoolMgr → PoolMgr
over_pools body (one_pool id) m = body m id
over_pools body _ m = do_pools body (suc m.max_pools) m 1

-- The locked part of `delete_pool`, behind the checks.
pub mark_pools : PoolMgr → PoolId → (PoolMgr → Status) → Status × PoolMgr
mark_pools m id persist =
    let marked = over_pools mark_pool id m in
    elim (persist marked) [
      | success ↦ (success, marked)
      | failure c ↦ (failure c, over_pools unmark_pool id marked)
    ]

-- The check of the status and the part behind it as one step: the source checks before it takes the
-- mutex. Where it succeeds the caller goes on to delete the entries of the pools from the cache.
pub delete_pool : PoolMgr → PoolId → (PoolMgr → Status) → Status × PoolMgr
delete_pool m all_pools persist = mark_pools m all_pools persist
delete_pool m id persist = elim (check_pool_status m id) [
  | pool_in_use ↦ mark_pools m id persist
  | pool_deletion_in_progress ↦ (success, m)
  | _ ↦ (failure invalid_input, m)
]

-- `none` is BM_FULL.
pub has_pools_to_delete : PoolMgr → Bool
has_pools_to_delete m = elim (bitmap_ffs m.deleted m.max_pools) [ none ↦ false | some _ ↦ true ]

-- The copy of the deletion bit map, and whether all pools but the default one are in deletion.
pub get_pool_deletion_bitmap : PoolMgr → KvBitmap × Bool
get_pool_deletion_bitmap m = (m.deleted, bytes_eq (bitmap_clear m.in_use 0) m.deleted)

-- One round of the loop of `clear_pool_bitmaps`.
pub clear_round : KvBitmap → Bool → PoolMgr → ℕ → PoolMgr
clear_round cleared whole m i =
    if bitmap_test cleared i == 0
    then m
    else drop_count (record m {
      deleted = if whole then m.deleted else bitmap_clear m.deleted i;
      in_use = bitmap_clear m.in_use i;
    })

-- `for (i = 1; i < max_pools; i++)`, with `n` rounds left.
pub clear_rounds : KvBitmap → Bool → ℕ → PoolMgr → ℕ → PoolMgr
clear_rounds cleared whole zero m i = m
clear_rounds cleared whole (suc n) m i =
    clear_rounds cleared whole n (clear_round cleared whole m i) (i + 1)

abbrev pub zero_words : KvBitmap → KvBitmap
zero_words [] = []
zero_words (w ∷ ws) = 0 ∷ zero_words ws

-- `clear_pool_bitmaps(kv_bitmap_t *&)`: the bits that are set in the given bit map.
pub clear_pool_bitmaps : PoolMgr → KvBitmap → (PoolMgr → Status) → Status × PoolMgr
clear_pool_bitmaps m cleared persist =
    let whole = bytes_eq m.deleted cleared in
    let start = if whole then record m { deleted = zero_words m.deleted } else m in
    let after = clear_rounds cleared whole (m.max_pools - 1) start 1 in (persist after, after)

-- `clear_pool_bitmaps(uint32_t)`: one id.
pub clear_pool_bitmap : PoolMgr → ℕ → (PoolMgr → Status) → Status × PoolMgr
clear_pool_bitmap m id persist =
    let after =
      drop_count
        (record m { deleted = bitmap_clear m.deleted id; in_use = bitmap_clear m.in_use id }) in
    (persist after, after)

-- What a test of this module unfolds.
unfoldable pub pool_program : Unit {0}
unfolding set_pool_tag known_tag store_pool claim_id create_pool valid_poolid pool_in_del status_of
    check_pool_status get_pool_tag mark_pool unmark_pool do_pools over_pools mark_pools delete_pool
    has_pools_to_delete get_pool_deletion_bitmap clear_round clear_rounds clear_pool_bitmaps
    clear_pool_bitmap
pool_program = tt
