-- ===== src/Util.antt =====
-- util/kv_util.h: rounding and bit helpers on 32-bit and 64-bit unsigned words.
pub mod Round
use nvmkv.Prelude.{ℕ, ◌+◌, ◌-◌, ◌/◌, ◌%◌, ◌^◌, bit_and}

-- `~m` in `n` bits.
abbrev complement : ℕ → ℕ → ℕ
complement n m = 2 ^ n - 1 - m

-- `a - 1` on `uint64_t`: 0 wraps to the largest value.
abbrev pred64 : ℕ → ℕ
pred64 a = (a + 2 ^ 64 - 1) % 2 ^ 64

unfoldable pub round_upto_blk : ℕ → ℕ → ℕ
round_upto_blk value blk_size =
    bit_and ((value + pred64 blk_size) % 2 ^ 64) (complement 64 (pred64 blk_size))

unfoldable pub mask_lsb : ℕ → ℕ → ℕ
mask_lsb value lsb = bit_and value (complement 64 (2 ^ lsb - 1))

unfoldable pub round32 : ℕ → ℕ
round32 value = bit_and ((value + (2 ^ 5 - 1)) % 2 ^ 32) (complement 32 (2 ^ 5 - 1))

unfoldable pub bits_per_uint8 : ℕ → ℕ
bits_per_uint8 value = value / 2 ^ 3

unfoldable pub bits_per_uint32 : ℕ → ℕ
bits_per_uint32 value = value / 2 ^ 5

unfoldable pub bit_mask : ℕ → ℕ
bit_mask value = 2 ^ (value % 2 ^ 5)
