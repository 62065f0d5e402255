-- ===== src/Prelude/Lists.antt =====
-- Lists measured and indexed by native numbers, under the library's names.
use Prim.Native.Nat.{ℕ, zero, suc, ◌+◌, ◌<◌}
use mathlib.Core.Path.{◌≡◌, refl, ap}
use mathlib.Core.List.{List, [], ◌∷◌, ◌++◌}
use native.Mathlib.Omega.{arith}
use nvmkv.Prelude.Tests.{◌==◌, if◌then◌else◌}

module _ {ℓ} {A : Type ℓ} where
  abbrev pub length : List A → ℕ
  length [] = 0
  length (x ∷ xs) = suc (length xs)

  -- An element, or the default out of bounds.
  abbrev pub get_or : List A → ℕ → A → A
  get_or [] i d = d
  get_or (x ∷ xs) zero d = x
  get_or (x ∷ xs) (suc i) d = get_or xs i d

  -- A write out of bounds changes nothing.
  abbrev pub set : List A → ℕ → A → List A
  set [] i v = []
  set (x ∷ xs) zero v = v ∷ xs
  set (x ∷ xs) (suc i) v = x ∷ set xs i v

  abbrev pub take : ℕ → List A → List A
  take zero xs = []
  take (suc n) [] = []
  take (suc n) (x ∷ xs) = x ∷ take n xs

  abbrev pub replicate : ℕ → A → List A
  replicate zero a = []
  replicate (suc n) a = a ∷ replicate n a

module _ {ℓ} {A : Type ℓ} where
  pub length-append : (xs ys : List A) → length (xs ++ ys) ≡ length xs + length ys
  length-append [] ys = omega arith
  length-append (x ∷ xs) ys = omega (arith, length-append xs ys)

  pub length-set : (xs : List A) (i : ℕ) (v : A) → length (set xs i v) ≡ length xs
  length-set [] i v = refl
  length-set (x ∷ xs) zero v = refl
  length-set (x ∷ xs) (suc i) v = ap suc (length-set xs i v)

  pub length-replicate : (n : ℕ) (a : A) → length (replicate n a) ≡ n
  length-replicate zero a = refl
  length-replicate (suc n) a = ap suc (length-replicate n a)

  -- A read after a write in bounds.
  pub get_or-set :
      (xs : List A) (i j : ℕ) (v d : A)
      → i < length xs
      → get_or (set xs i v) j d ≡ (if i == j then v else get_or xs j d)
  get_or-set [] i j v d h = absurd (omega arith)
  get_or-set (x ∷ xs) zero zero v d h = refl
  get_or-set (x ∷ xs) zero (suc j) v d h = ground arith
  get_or-set (x ∷ xs) (suc i) zero v d h = ground arith
  get_or-set (x ∷ xs) (suc i) (suc j) v d h = ground (arith, get_or-set xs i j v d)

  pub get_or-replicate : (n i : ℕ) (a : A) → get_or (replicate n a) i a ≡ a
  get_or-replicate zero i a = refl
  get_or-replicate (suc n) zero a = refl
  get_or-replicate (suc n) (suc i) a = get_or-replicate n i a
