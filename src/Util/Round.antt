-- ===== src/Util/Round.antt =====
-- The rounding helpers of util/kv_util.h as arithmetic, for blocks that are powers of two.
use native.Mathlib.Nat.{one-le-pow, lt-div-mul-add, div-mul-le_self, mul-mod_left}
use nvmkv.Prelude.{ℕ, ◌+◌, ◌-◌, ◌*◌, ◌/◌, ◌%◌, ◌^◌, ◌≤◌, ◌<◌, ◌≡◌, arith}
use nvmkv.Prelude.Bits.{bit_and-high}
use nvmkv.Util.{round_upto_blk, mask_lsb, round32, bits_per_uint32}

-- The smallest multiple of `b` that is at least `value`.
pub record RoundsUp (value b r : ℕ) : Type 0 where
  pub above : value ≤ r
  pub close : r < value + b
  pub multiple : r % b ≡ 0

div-mul-RoundsUp : (v b : ℕ) → 1 ≤ b → RoundsUp v b ((v + (b - 1)) / b * b)
div-mul-RoundsUp v b pos = record {
  above = omega (arith, lt-div-mul-add {a = v + (b - 1)} pos);
  close = omega (arith, div-mul-le_self (v + (b - 1)) b);
  multiple = mul-mod_left ((v + (b - 1)) / b) b;
}

module _ (value k : ℕ) (narrow : k < 64) (fits : value + 2 ^ k ≤ 2 ^ 64) where
  pub round_upto_blk-eq : round_upto_blk value (2 ^ k) ≡ (value + (2 ^ k - 1)) / 2 ^ k * 2 ^ k
  unfolding round_upto_blk
  round_upto_blk-eq =
      let pos : 1 ≤ 2 ^ k = one-le-pow k 2 (omega arith) in
      let low : (2 ^ k + 2 ^ 64 - 1) % 2 ^ 64 ≡ 2 ^ k - 1 = omega arith in
      let whole : (value + (2 ^ k - 1)) % 2 ^ 64 ≡ value + (2 ^ k - 1) = omega arith in
      rw (low, whole) (bit_and-high 64 k (value + (2 ^ k - 1)) (omega arith) (omega arith))

  -- For a block of 2^k bytes and a value that does not overflow, nvm_kv_round_upto_blk returns the
  -- smallest multiple of the block that is at least the value, for k below 64.
  pub round_upto_blk-RoundsUp : RoundsUp value (2 ^ k) (round_upto_blk value (2 ^ k))
  round_upto_blk-RoundsUp =
      rw round_upto_blk-eq (div-mul-RoundsUp value (2 ^ k) (one-le-pow k 2 (omega arith)))

-- `round32` is the same rounding at 32.
pub round32-RoundsUp : (value : ℕ) → value + 31 < 2 ^ 32 → RoundsUp value 32 (round32 value)
unfolding round32
round32-RoundsUp value fits =
    let whole : (value + (2 ^ 5 - 1)) % 2 ^ 32 ≡ value + 31 = omega arith in
    rw (whole, bit_and-high 32 5 (value + 31) (omega arith) fits)
      (div-mul-RoundsUp value 32 (omega arith))

-- The number of words for nbits bits, where these can be rounded up on 32 bits, holds them, and no
-- word is too many.
pub bits_per_uint32-round32 :
    (nbits : ℕ)
    → nbits + 31 < 2 ^ 32
    → (nbits ≤ bits_per_uint32 (round32 nbits) * 32)
      × (bits_per_uint32 (round32 nbits) * 32 < nbits + 32)
unfolding bits_per_uint32
bits_per_uint32-round32 nbits fits =
    let r = round32-RoundsUp nbits fits in (omega (arith, r), omega (arith, r))

-- `nvm_kv_mask_lsb` clears the low bits and keeps the others.
pub mask_lsb-eq :
    (value lsb : ℕ) → value < 2 ^ 64 → lsb < 64 → mask_lsb value lsb ≡ value / 2 ^ lsb * 2 ^ lsb
unfolding mask_lsb
mask_lsb-eq value lsb fits narrow = bit_and-high 64 lsb value (omega arith) fits
