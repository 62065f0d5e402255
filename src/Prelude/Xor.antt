-- ===== src/Prelude/Xor.antt =====
-- Exclusive or and disjunction of numbers of a given width.
use Prim.Native.Nat.{ℕ, zero, suc, ◌+◌, ◌*◌, ◌/◌, ◌%◌, ◌^◌, ◌<◌, bit_or, bit_xor, differ}
use Prim.Native.Nat.{bit_or-bitwise, bit_xor-bitwise}
use mathlib.Core.Path.{◌≡◌}
use native.Mathlib.Nat.{pow-suc}
use native.Mathlib.Omega.{arith}
use nvmkv.Prelude.Bits.{same_count, bit_or_low, lt_pow, mul-pow-suc}

bit_xor_low : (a b : ℕ) → bit_xor a b ≡ bit_xor (a / 2) (b / 2) * 2 + differ (a % 2) (b % 2)
bit_xor_low zero b = omega (arith, bit_xor-bitwise 0 b, bit_xor-bitwise 0 (b / 2))
bit_xor_low (suc a) b = omega (
  arith,
  bit_xor-bitwise (suc a) b,
  bit_xor-bitwise (suc a / 2) (b / 2),
  same_count (λ y. y) differ (suc a / 2) (b / 2) a (suc a / 2) (omega arith) (omega arith),
)

differ-lt : (x y : ℕ) → x < 2 → y < 2 → differ x y < 2
differ-lt zero y p q = q
differ-lt (suc zero) zero p q = p
differ-lt (suc zero) (suc zero) p q = omega arith
differ-lt (suc zero) (suc (suc y)) p q = absurd (omega arith)
differ-lt (suc (suc x)) y p q = absurd (omega arith)

pub bit_xor-lt : (n a b : ℕ) → a < 2 ^ n → b < 2 ^ n → bit_xor a b < 2 ^ n
bit_xor-lt zero a b p q =
    let a0 : a ≡ 0 = omega arith in let b0 : b ≡ 0 = omega arith in rw (a0, b0) (omega arith)
bit_xor-lt (suc n) a b p q = omega (
  arith,
  bit_xor_low a b,
  differ-lt (a % 2) (b % 2) (omega arith) (omega arith),
  pow-suc 2 n,
  bit_xor-lt n (a / 2) (b / 2) (omega (arith, pow-suc 2 n)) (omega (arith, pow-suc 2 n)),
)

bit_or_none : (n a : ℕ) → a < 2 ^ n → bit_or a 0 ≡ a
bit_or_none zero a h = let e : a ≡ 0 = omega arith in rw e (bit_or-bitwise 0 0)
bit_or_none (suc n) a h =
    omega (arith, bit_or_low a 0, bit_or_none n (a / 2) (omega (arith, pow-suc 2 n)))

-- `(q << k) | r` is a sum where `r` fits in the `k` low bits.
pub bit_or-shifted : (k q r : ℕ) → r < 2 ^ k → bit_or (q * 2 ^ k) r ≡ q * 2 ^ k + r
bit_or-shifted zero q r fits =
    let e : r ≡ 0 = omega arith in
    rw (e, bit_or_none (q * 1) (q * 1) (lt_pow (q * 1))) (omega arith)
bit_or-shifted (suc k) q r fits =
    let half : q * 2 ^ suc k / 2 ≡ q * 2 ^ k = omega (arith, mul-pow-suc q k) in
    omega (
      arith,
      rw half at (bit_or_low (q * 2 ^ suc k) r),
      mul-pow-suc q k,
      bit_or-shifted k q (r / 2) (omega (arith, pow-suc 2 k)),
    )
