-- ===== src/Error.antt =====
-- include/nvm_error.h: the codes that the library returns negated.
use nvmkv.Prelude.{◌≡◌, ◌⊎◌, inl, inr, refl}

pub data ErrorCode : Type 0 where
  invalid_handle device_not_found out_of_memory internal_failure : ErrorCode
  capabilities_not_supported not_implemented feature_not_supported : ErrorCode
  operation_not_supported object_exists io invalid_input object_not_found : ErrorCode
  memory_not_aligned max_limit_reached : ErrorCode

-- A return code alone: NVM_SUCCESS, or the negated code of an error.
pub data Status : Type 0 where
  success : Status
  failure : ErrorCode → Status

-- A return code that also stands for a value where it is not negative.
pub data Result {ℓ} (A : Type ℓ) : Type ℓ where
  ok : A → Result A
  err : ErrorCode → Result A

infixl 10 ◌>>=◌
abbrev pub ◌>>=◌ {ℓ κ} : {A : Type ℓ} {B : Type κ} → Result A → (A → Result B) → Result B
ok a >>= f = f a
err c >>= f = err c

pub Status-cases : (s : Status) → (s ≡ success) ⊎ ((c : ErrorCode) × (s ≡ failure c))
Status-cases success = inl refl
Status-cases (failure c) = inr (c, refl)
