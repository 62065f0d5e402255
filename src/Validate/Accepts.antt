-- ===== src/Validate/Accepts.antt =====
-- What kv_internal_validation of src/kv_store_mgr.cpp lets pass.
use nvmkv.Prelude.{
  ◌||◌, ℕ, ◌^◌, ◌%◌, ◌≡◌, ◌<◌, ◌≤◌, ◌↔◌, ◌⊎◌, Bool, true, false, Option, none, some, if◌then◌else◌,
  sym, ◌∙◌, ap, arith,
}
use nvmkv.Prelude.Bits.{bit_and-mask}
use nvmkv.Error.{invalid_input, Result, ok, err}
use nvmkv.Pool.{
  PoolId, all_pools, other_negative, one_pool, PoolStatus, pool_is_invalid, pool_not_in_use,
  pool_in_use, pool_deletion_in_progress, check_pool_status,
}
use nvmkv.Validate.{
  Flags, OpenStore, Call, KvMap, is_pool_call, is_get, is_default, is_all, is_in_use, refuses_pool,
  refuses_key, refuses_value, refuses_batch, find_store, check_call, kv_internal_validation,
}

abbrev pub PoolAllowed : Flags → Call → OpenStore → Type 0
PoolAllowed f a st =
    f.validate_id ≡ true
    → f.validate_pool_id ≡ true
    → ((check_pool_status st.pool_mgr a.pool_id ≡ pool_in_use) ⊎ (a.pool_id ≡ all_pools))
      × (is_pool_call a.api ≡ true → ¬ (a.pool_id ≡ one_pool 0))

abbrev pub KeyAllowed : Flags → Call → Type 0
KeyAllowed f a = f.validate_key ≡ true → (0 < a.key_len) × (a.key_len ≤ 128) × (a.has_key ≡ true)

abbrev pub ValueAllowed : ℕ → Flags → Call → Type 0
ValueAllowed k f a =
    f.validate_value ≡ true
    → (0 < a.value_len)
      × (a.value_len ≤ 1047552)
      × (a.has_value ≡ true)
      × (is_get a.api ≡ true → a.value_len % 2 ^ k ≡ 0)

abbrev pub BatchAllowed : Flags → Call → Type 0
BatchAllowed f a = f.validate_batch ≡ true → (a.has_iov ≡ true) × (0 < a.iov_count)

in_use_iff : (s : PoolStatus) → (is_in_use s ≡ true) ↔ (s ≡ pool_in_use)
in_use_iff pool_in_use = ground arith
in_use_iff pool_is_invalid = ground arith
in_use_iff pool_not_in_use = ground arith
in_use_iff pool_deletion_in_progress = ground arith

all_iff : (p : PoolId) → (is_all p ≡ true) ↔ (p ≡ all_pools)
all_iff all_pools = ground arith
all_iff other_negative = ground arith
all_iff (one_pool id) = ground arith

default_iff : (p : PoolId) → (is_default p ≡ true) ↔ (p ≡ one_pool 0)
default_iff all_pools = ground arith
default_iff other_negative = ground arith
default_iff (one_pool id) = ground arith

pool_allowed :
    (f : Flags) (a : Call) (st : OpenStore) → (refuses_pool f a st ≡ false) ↔ PoolAllowed f a st
unfolding refuses_pool
pool_allowed f a st = ground (
  arith,
  in_use_iff (check_pool_status st.pool_mgr a.pool_id),
  all_iff a.pool_id,
  default_iff a.pool_id,
)

key_allowed : (f : Flags) (a : Call) → (refuses_key f a ≡ false) ↔ KeyAllowed f a
unfolding refuses_key
key_allowed f a = ground arith

value_allowed :
    (f : Flags) (a : Call) (st : OpenStore) (k : ℕ)
    → st.sector_size ≡ 2 ^ k
    → (refuses_value f a st ≡ false) ↔ ValueAllowed k f a
unfolding refuses_value
value_allowed f a st k size = rw (size, bit_and-mask k a.value_len) (ground arith)

batch_allowed : (f : Flags) (a : Call) → (refuses_batch f a ≡ false) ↔ BatchAllowed f a
unfolding refuses_batch
batch_allowed f a = ground arith

-- What a call must meet for the flags that are given.
abbrev pub Allowed : ℕ → Flags → Call → OpenStore → Type 0
Allowed k f a st = PoolAllowed f a st × KeyAllowed f a × ValueAllowed k f a × BatchAllowed f a

passes_check :
    (refused : Bool) (r : Result OpenStore) (got : OpenStore)
    → ((if refused then err invalid_input else r) ≡ ok got) ↔ ((refused ≡ false) × (r ≡ ok got))
passes_check true r got = ground arith
passes_check false r got = ground arith

check_call_ok :
    (f : Flags) (a : Call) (st got : OpenStore) (k : ℕ)
    → got.sector_size ≡ 2 ^ k
    → (check_call f a st ≡ ok got) ↔ ((st ≡ got) × Allowed k f a st)
unfolding check_call
check_call_ok f a st got k size =
    let (pool, at_pool) = passes_check (refuses_pool f a st) _ got in
    let (key, at_key) = passes_check (refuses_key f a) _ got in
    let (value, at_value) = passes_check (refuses_value f a st) _ got in
    let (batch, at_batch) = passes_check (refuses_batch f a) (ok st) got in
    let sized : st ≡ got → st.sector_size ≡ 2 ^ k =
      λ same. ap (λ (s : OpenStore). s.sector_size) same ∙ size in
    (
      λ h.
          let (p, h1) = pool h in
          let (c, h2) = key h1 in
          let (v, h3) = value h2 in
          let (b, h4) = batch h3 in
          let same : st ≡ got = ground (arith, h4) in
          (
            same,
            (
              (pool_allowed f a st).0 p,
              (key_allowed f a).0 c,
              (value_allowed f a st k (sized same)).0 v,
              (batch_allowed f a).0 b,
            ),
          ),
      λ (same, (p, c, v, b)). at_pool (
        (pool_allowed f a st).1 p,
        at_key (
          (key_allowed f a).1 c,
          at_value (
            (value_allowed f a st k (sized same)).1 v,
            at_batch ((batch_allowed f a).1 b, ap ok same),
          ),
        ),
      ),
    )

module _ (f : Flags) (a : Call) (st : OpenStore) (k : ℕ) where
  found_ok :
      (o : Option OpenStore)
      → st.sector_size ≡ 2 ^ k
      → (elim o [ none ↦ err invalid_input | some found ↦ check_call f a found ] ≡ ok st)
        ↔ ((o ≡ some st) × Allowed k f a st)
  found_ok none size = (λ h. absurd (ground (arith, h)), λ (h, rest). absurd (ground (arith, h)))
  found_ok (some found) size =
      let (there, back) = check_call_ok f a found st k size in
      (
        λ h. let (same, allowed) = there h in (ap some same, rw same at allowed),
        λ (same, allowed).
            let e : found ≡ st = ground (arith, same) in back (e, rw (sym e) at allowed),
      )

-- On a device whose sector size is a power of two, kv_internal_validation succeeds with a store exactly
-- where this is the store of the id, if the id is to be checked, or else the caller's, and the call
-- meets each check that its flags ask for: the pool is in use or all pools are meant, and for the two
-- calls on a pool's own data it is not the default pool; the key is there and has 1 to 128 bytes; the
-- value is there and has 1 to 1,047,552 bytes, for a get in whole sectors; and a batch has IOVs.
pub kv_internal_validation-Allowed :
    (f : Flags) (stores : KvMap) (given : OpenStore) (a : Call) (st : OpenStore) (k : ℕ)
    → st.sector_size ≡ 2 ^ k
    → (kv_internal_validation f stores given a ≡ ok st)
      ↔ ((find_store f stores given a ≡ some st) × Allowed k f a st)
unfolding kv_internal_validation
kv_internal_validation-Allowed f stores given a st k size =
    found_ok f a st k (find_store f stores given a) size

-- What the check of the pool lets pass.
pub validated_pool :
    (f : Flags) (stores : KvMap) (given : OpenStore) (a : Call) (st : OpenStore)
    → f.validate_id ≡ true
    → f.validate_pool_id ≡ true
    → kv_internal_validation f stores given a ≡ ok st
    → (is_in_use (check_pool_status st.pool_mgr a.pool_id) || is_all a.pool_id) ≡ true
unfolding kv_internal_validation check_call refuses_pool
validated_pool f stores given a st by_id by_pool h = ground (arith, h, by_id, by_pool)
