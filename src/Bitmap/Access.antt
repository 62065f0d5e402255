-- ===== src/Bitmap/Access.antt =====
-- What setting, clearing and testing a bit of a bit map do to every other bit.
use native.Mathlib.Nat.{one-le-pow, pow-le-pow_right}
use nvmkv.Prelude.{
  ℕ, suc, ◌+◌, ◌-◌, ◌*◌, ◌/◌, ◌%◌, ◌^◌, ◌≤◌, ◌<◌, ◌≡◌, Bool, true, not, ◌&&◌, ◌||◌, ◌∷◌, ap, arith,
  bit_and, bit_or, ◌==◌, length, get_or, get_or-set, length-set,
}
use nvmkv.Prelude.Bits.{
  test_bit, test_bit-bit_and, test_bit-bit_or, test_bit-pow, test_bit-complement, test_bit-zero,
  bit_and-pow,
}
use nvmkv.Util.{bit_mask}
use nvmkv.Bitmap.{KvBitmap, bitmap_set, bitmap_clear, bitmap_test}

-- The bit map as a set of indices.
unfoldable pub member : KvBitmap → ℕ → Bool
member pbm index = test_bit (index % 32) (get_or pbm (index / 32) 0)

-- The bits that the allocation has room for.
abbrev pub capacity : KvBitmap → ℕ
capacity pbm = length pbm * 32

-- `bitmap_test` is nonzero exactly at the members.
pub bitmap_test-member : (pbm : KvBitmap) (i : ℕ) → (bitmap_test pbm i == 0) ≡ not (member pbm i)
unfolding bitmap_test member
bitmap_test-member pbm i =
    rw (bit_and-pow (i % 32) (get_or pbm (i / 32) 0)) (ground (arith, one-le-pow (i % 32) 2))

same_index : (i j : ℕ) → i / 32 ≡ j / 32 → (i % 32 == j % 32) ≡ (i == j)
same_index i j e = ground arith

pub member-bitmap_set :
    (pbm : KvBitmap) (i j : ℕ)
    → i < capacity pbm
    → member (bitmap_set pbm i) j ≡ (i == j || member pbm j)
unfolding bitmap_set member
member-bitmap_set pbm i j h =
    rw
      (get_or-set pbm (i / 32) (j / 32) (bit_or (get_or pbm (i / 32) 0) (2 ^ (i % 32))) 0
        (omega arith))
      (ground (
        arith,
        test_bit-bit_or (j % 32) (get_or pbm (i / 32) 0) (2 ^ (i % 32)),
        test_bit-pow (j % 32) (i % 32),
      ))

mask_fits : (i : ℕ) → 2 ^ (i % 32) < 2 ^ 32
mask_fits i =
    let le : 2 ^ (i % 32) ≤ 2 ^ 31 = pow-le-pow_right (omega arith) {j = 31} (omega arith) in
    omega (arith, le)

-- bitmap_clear removes the index from the set of members and no other, for an index that is
-- allocated.
pub member-bitmap_clear :
    (pbm : KvBitmap) (i j : ℕ)
    → i < capacity pbm
    → member (bitmap_clear pbm i) j ≡ (not (i == j) && member pbm j)
unfolding bitmap_clear member
member-bitmap_clear pbm i j h =
    rw
      (get_or-set pbm (i / 32) (j / 32)
        (bit_and (get_or pbm (i / 32) 0) (2 ^ 32 - 1 - 2 ^ (i % 32))) 0 (omega arith))
      (ground (
        arith,
        test_bit-bit_and (j % 32) (get_or pbm (i / 32) 0) (2 ^ 32 - 1 - 2 ^ (i % 32)),
        test_bit-complement (j % 32) 32 (2 ^ (i % 32)) (omega arith) (mask_fits i),
        test_bit-pow (j % 32) (i % 32),
      ))

pub capacity-bitmap_set : (pbm : KvBitmap) (i : ℕ) → capacity (bitmap_set pbm i) ≡ capacity pbm
unfolding bitmap_set
capacity-bitmap_set pbm i =
    rw (length-set pbm (i / 32) (bit_or (get_or pbm (i / 32) 0) (2 ^ (i % 32))))

pub capacity-bitmap_clear : (pbm : KvBitmap) (i : ℕ) → capacity (bitmap_clear pbm i) ≡ capacity pbm
unfolding bitmap_clear
capacity-bitmap_clear pbm i =
    rw (length-set pbm (i / 32) (bit_and (get_or pbm (i / 32) 0) (2 ^ 32 - 1 - 2 ^ (i % 32))))

-- One word at a time.
pub member-cons-lt : (w : ℕ) (ws : KvBitmap) (m : ℕ) → m < 32 → member (w ∷ ws) m ≡ test_bit m w
unfolding member
member-cons-lt w ws m h =
    let q : m / 32 ≡ 0 = omega arith in let r : m % 32 ≡ m = omega arith in rw (q, r)

pub member-cons-add : (w : ℕ) (ws : KvBitmap) (m : ℕ) → member (w ∷ ws) (32 + m) ≡ member ws m
unfolding member
member-cons-add w ws m =
    let q : (32 + m) / 32 ≡ suc (m / 32) = omega arith in
    let r : (32 + m) % 32 ≡ m % 32 = omega arith in rw (q, r)

pub bitmap_set-cons-lt :
    (w : ℕ) (ws : KvBitmap) (k : ℕ) → k < 32 → bitmap_set (w ∷ ws) k ≡ bit_or w (bit_mask k) ∷ ws
unfolding bitmap_set
bitmap_set-cons-lt w ws k h = let q : k / 32 ≡ 0 = omega arith in rw q

pub bitmap_set-cons-add :
    (w : ℕ) (ws : KvBitmap) (k : ℕ) → bitmap_set (w ∷ ws) (32 + k) ≡ w ∷ bitmap_set ws k
unfolding bitmap_set
bitmap_set-cons-add w ws k =
    let q : (32 + k) / 32 ≡ suc (k / 32) = omega arith in
    let r : (32 + k) % 32 ≡ k % 32 = omega arith in rw (q, r)

-- The test of the inner loop at bit `j` of a word.
pub masked_word : (w j : ℕ) → j < 32 → (bit_and w (bit_mask j) == 0) ≡ not (test_bit j w)
unfolding bit_mask
masked_word w j h =
    let r : j % 32 ≡ j = omega arith in rw (r, bit_and-pow j w) (ground (arith, one-le-pow j 2))

-- All bits of a full word are set, and none of an empty one.
pub full_word : (j : ℕ) → j < 32 → test_bit j 0xffffffff ≡ true
full_word j h = rw (test_bit-complement j 32 0 h (omega arith)) (ap not (test_bit-zero j))
