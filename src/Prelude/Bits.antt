-- ===== src/Prelude/Bits.antt =====
-- Binary digits of native numbers: single bits, masks, and the native bit operations at variables.
use Prim.Native.Nat.{ℕ, zero, suc, ◌+◌, ◌-◌, ◌*◌, ◌/◌, ◌%◌, ◌^◌, ◌≤◌, ◌<◌, min, max}
use Prim.Native.Nat.{bit_and, bit_or, digits, bit_and-bitwise, bit_or-bitwise}
use mathlib.Core.Path.{◌≡◌, refl, ap, sym}
use mathlib.Core.Bool.{Bool, false, not, ◌&&◌, ◌||◌}
use native.Mathlib.Nat.{pow-suc, pow-succ', one-le-pow, mul_assoc, div-div-eq-div-mul}
use native.Mathlib.Nat.{
  mod-eq-sub-mul-div, div-mul-le_self, div-lt_iff_lt-mul, mod-eq_of_lt, zero-add, suc-add,
}
use native.Mathlib.Omega.{arith}
use nvmkv.Prelude.Tests.{◌==◌, if◌then◌else◌}

-- Any two counts that cover the first number give the same digits.
module _ (rest : ℕ → ℕ) (op : ℕ → ℕ → ℕ) where
  pub same_count : (a b m n : ℕ) → a ≤ m → a ≤ n → digits rest op m a b ≡ digits rest op n a b
  same_count zero b zero zero p q = refl
  same_count zero b zero (suc n) p q = refl
  same_count zero b (suc m) zero p q = refl
  same_count zero b (suc m) (suc n) p q = refl
  same_count (suc a) b zero n p q = absurd (omega arith)
  same_count (suc a) b (suc m) zero p q = absurd (omega arith)
  same_count (suc a) b (suc m) (suc n) p q =
      rw (same_count (suc a / 2) (b / 2) m n (omega arith) (omega arith))

-- The lowest digit of a conjunction and of a disjunction, and what is left above it.
bit_and_low : (a b : ℕ) → bit_and a b ≡ bit_and (a / 2) (b / 2) * 2 + min (a % 2) (b % 2)
bit_and_low zero b = omega (arith, bit_and-bitwise 0 b, bit_and-bitwise 0 (b / 2))
bit_and_low (suc a) b = omega (
  arith,
  bit_and-bitwise (suc a) b,
  bit_and-bitwise (suc a / 2) (b / 2),
  same_count (λ y. 0) min (suc a / 2) (b / 2) a (suc a / 2) (omega arith) (omega arith),
)

pub bit_or_low : (a b : ℕ) → bit_or a b ≡ bit_or (a / 2) (b / 2) * 2 + max (a % 2) (b % 2)
bit_or_low zero b = omega (arith, bit_or-bitwise 0 b, bit_or-bitwise 0 (b / 2))
bit_or_low (suc a) b = omega (
  arith,
  bit_or-bitwise (suc a) b,
  bit_or-bitwise (suc a / 2) (b / 2),
  same_count (λ y. y) max (suc a / 2) (b / 2) a (suc a / 2) (omega arith) (omega arith),
)

-- Bit `j` of a number.
abbrev pub test_bit : ℕ → ℕ → Bool
test_bit zero a = a % 2 == 1
test_bit (suc j) a = test_bit j (a / 2)

half-bit_and : (a b : ℕ) → bit_and a b / 2 ≡ bit_and (a / 2) (b / 2)
half-bit_and a b = omega (arith, bit_and_low a b)

half-bit_or : (a b : ℕ) → bit_or a b / 2 ≡ bit_or (a / 2) (b / 2)
half-bit_or a b = omega (arith, bit_or_low a b)

pub test_bit-bit_and : (j a b : ℕ) → test_bit j (bit_and a b) ≡ (test_bit j a && test_bit j b)
test_bit-bit_and zero a b = ground (arith, bit_and_low a b)
test_bit-bit_and (suc j) a b = rw (half-bit_and a b) (test_bit-bit_and j (a / 2) (b / 2))

pub test_bit-bit_or : (j a b : ℕ) → test_bit j (bit_or a b) ≡ (test_bit j a || test_bit j b)
test_bit-bit_or zero a b = ground (arith, bit_or_low a b)
test_bit-bit_or (suc j) a b = rw (half-bit_or a b) (test_bit-bit_or j (a / 2) (b / 2))

pub test_bit-zero : (j : ℕ) → test_bit j 0 ≡ false
test_bit-zero zero = refl
test_bit-zero (suc j) = test_bit-zero j

half-pow : (k : ℕ) → 2 ^ suc k / 2 ≡ 2 ^ k
half-pow k = omega (arith, pow-suc 2 k)

-- The mask `1 << k` has bit `k` and no other.
pub test_bit-pow : (j k : ℕ) → test_bit j (2 ^ k) ≡ (j == k)
test_bit-pow zero zero = refl
test_bit-pow zero (suc k) = ground (arith, pow-suc 2 k)
test_bit-pow (suc j) zero = ground (arith, test_bit-zero j)
test_bit-pow (suc j) (suc k) = rw (half-pow k) (ground (arith, test_bit-pow j k))

-- The complement of `m` in `n` bits.
pub test_bit-complement :
    (j n m : ℕ) → j < n → m < 2 ^ n → test_bit j (2 ^ n - 1 - m) ≡ not (test_bit j m)
test_bit-complement j zero m h fits = absurd (omega arith)
test_bit-complement zero (suc n) m h fits = ground (arith, pow-suc 2 n)
test_bit-complement (suc j) (suc n) m h fits =
    let half : (2 ^ suc n - 1 - m) / 2 ≡ 2 ^ n - 1 - m / 2 = omega (arith, pow-suc 2 n) in
    rw half (test_bit-complement j n (m / 2) (omega arith) (omega (arith, pow-suc 2 n)))

bit_and-zero : (j a : ℕ) → a < 2 ^ j → bit_and a 0 ≡ 0
bit_and-zero zero a h = rw (let e : a ≡ 0 = omega arith in e) (bit_and-bitwise 0 0)
bit_and-zero (suc j) a h =
    omega (arith, bit_and_low a 0, bit_and-zero j (a / 2) (omega (arith, pow-suc 2 j)))

pub lt_pow : (a : ℕ) → a < 2 ^ a
lt_pow zero = omega arith
lt_pow (suc a) = omega (arith, lt_pow a, pow-suc 2 a)

bit_and_none : (a : ℕ) → bit_and a 0 ≡ 0
bit_and_none a = bit_and-zero a a (lt_pow a)

pub mul-pow-suc : (m k : ℕ) → m * 2 ^ suc k ≡ 2 * (m * 2 ^ k)
mul-pow-suc m k = omega (arith, ap (λ (t : ℕ). m * t) (pow-suc 2 k))

div_pow_suc : (a k : ℕ) → a / 2 ^ suc k ≡ a / 2 / 2 ^ k
div_pow_suc a k = rw (pow-succ' 2 k, div-div-eq-div-mul a 2 (2 ^ k))

mod_pow_suc : (a k : ℕ) → a % 2 ^ suc k ≡ a / 2 % 2 ^ k * 2 + a % 2
mod_pow_suc a k =
    let whole : 2 ^ suc k * (a / 2 ^ suc k) ≡ 2 * (2 ^ k * (a / 2 / 2 ^ k)) =
      rw (div_pow_suc a k, pow-succ' 2 k) (mul_assoc 2 (2 ^ k) (a / 2 / 2 ^ k)) in
    omega (
      arith,
      mod-eq-sub-mul-div a (2 ^ suc k),
      mod-eq-sub-mul-div (a / 2) (2 ^ k),
      div-mul-le_self a (2 ^ suc k),
    )

-- A mask shifted left by `k` selects from the number shifted right by `k`.
pub bit_and_shifted : (k a m : ℕ) → bit_and a (m * 2 ^ k) ≡ bit_and (a / 2 ^ k) m * 2 ^ k
bit_and_shifted zero a m = ground arith
bit_and_shifted (suc k) a m =
    let half : m * 2 ^ suc k / 2 ≡ m * 2 ^ k = omega (arith, mul-pow-suc m k) in
    rw div_pow_suc (
      omega (
        arith,
        rw half at (bit_and_low a (m * 2 ^ suc k)),
        mul-pow-suc m k,
        mul-pow-suc (bit_and (a / 2 / 2 ^ k) m) k,
        bit_and_shifted k (a / 2) m,
      ))

-- The `k` low bits are the remainder by `2 ^ k`.
pub bit_and-mask : (k a : ℕ) → bit_and a (2 ^ k - 1) ≡ a % 2 ^ k
bit_and-mask zero a = rw (bit_and_none a) (omega arith)
bit_and-mask (suc k) a =
    let pos : 1 ≤ 2 ^ k = one-le-pow k 2 (omega arith) in
    let half : (2 ^ suc k - 1) / 2 ≡ 2 ^ k - 1 = omega (arith, pow-suc 2 k) in
    omega (
      arith,
      rw half at (bit_and_low a (2 ^ suc k - 1)),
      pow-suc 2 k,
      bit_and-mask k (a / 2),
      mod_pow_suc a k,
    )

pub bit_or-lt : (n a b : ℕ) → a < 2 ^ n → b < 2 ^ n → bit_or a b < 2 ^ n
bit_or-lt zero a b p q =
    let a0 : a ≡ 0 = omega arith in let b0 : b ≡ 0 = omega arith in rw (a0, b0) (omega arith)
bit_or-lt (suc n) a b p q = omega (
  arith,
  bit_or_low a b,
  pow-suc 2 n,
  bit_or-lt n (a / 2) (b / 2) (omega (arith, pow-suc 2 n)) (omega (arith, pow-suc 2 n)),
)

pub bit_and-le : (a b n : ℕ) → a < 2 ^ n → bit_and a b ≤ a
bit_and-le a b zero h = let a0 : a ≡ 0 = omega arith in rw a0 (omega (arith, bit_and-bitwise 0 b))
bit_and-le a b (suc n) h =
    omega (arith, bit_and_low a b, bit_and-le (a / 2) (b / 2) n (omega (arith, pow-suc 2 n)))

pub pow_add : (d k : ℕ) → 2 ^ (d + k) ≡ 2 ^ d * 2 ^ k
pow_add zero k = rw zero-add (omega arith)
pow_add (suc d) k =
    rw (suc-add d k, pow-succ' 2 (d + k), pow_add d k, pow-succ' 2 d)
      (sym (mul_assoc 2 (2 ^ d) (2 ^ k)))

pred-mul : (p y : ℕ) → 1 ≤ p → (p - 1) * y + y ≡ p * y
pred-mul zero y h = absurd (omega arith)
pred-mul (suc p) y h = let e : suc p - 1 ≡ p = omega arith in rw e (omega arith)

-- `x & ~((1 << k) - 1)` in `n` bits clears the `k` low bits.
pub bit_and-high :
    (n k a : ℕ) → k ≤ n → a < 2 ^ n → bit_and a (2 ^ n - 1 - (2 ^ k - 1)) ≡ a / 2 ^ k * 2 ^ k
bit_and-high n k a le fits =
    let split : 2 ^ n ≡ 2 ^ (n - k) * 2 ^ k =
      rw (← pow_add (n - k) k) (ap (λ (t : ℕ). 2 ^ t) (omega arith)) in
    let pos : 1 ≤ 2 ^ k = one-le-pow k 2 (omega arith) in
    let mask : 2 ^ n - 1 - (2 ^ k - 1) ≡ (2 ^ (n - k) - 1) * 2 ^ k =
      omega
        (arith, split, pos, pred-mul (2 ^ (n - k)) (2 ^ k) (one-le-pow (n - k) 2 (omega arith))) in
    let small : a / 2 ^ k < 2 ^ (n - k) = (div-lt_iff_lt-mul (pos)).1 (rw (← split) fits) in
    rw (
      mask,
      bit_and_shifted k a (2 ^ (n - k) - 1),
      bit_and-mask (n - k) (a / 2 ^ k),
      mod-eq_of_lt small,
    )

-- Testing a single bit by its mask.
pub bit_and-pow : (k a : ℕ) → bit_and a (2 ^ k) ≡ (if test_bit k a then 2 ^ k else 0)
bit_and-pow zero a = ground (arith, bit_and_low a 1, bit_and_none (a / 2))
bit_and-pow (suc k) a =
    ground
      (arith, rw (half-pow k) at (bit_and_low a (2 ^ suc k)), bit_and-pow k (a / 2), pow-suc 2 k)
