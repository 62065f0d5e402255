-- ===== src/Layout/Division.antt =====
-- src/kv_layout.cpp: that the layout divides the addresses without gap, and that what it reserves for the
-- tags of the pools is enough.
use nvmkv.Prelude.{ℕ, zero, suc, ◌+◌, ◌*◌, ◌/◌, ◌%◌, ◌^◌, ◌<◌, ◌≤◌, ◌≡◌, refl, sym, ap, ◌∙◌, arith}
use native.Mathlib.Nat.{
  mul-div_cancel, mod-eq_of_lt, pow-suc, mul-le-mul_right, mul_assoc, pow-le-pow_right,
}
use nvmkv.Prelude.Bits.{pow_add}
use nvmkv.Util.{round_upto_blk}
use nvmkv.Util.Round.{round_upto_blk-RoundsUp}
use nvmkv.Layout.{
  KvLayout, max_value_range, shifts, new_layout, set_md_rec, get_max_search_range, slice_addr,
  store_layout,
}

pow-pos : (k : ℕ) → 0 < 2 ^ k
pow-pos zero = omega arith
pow-pos (suc k) = rw (pow-suc 2 k) (omega (arith, pow-pos k))

two-le-pow : (k : ℕ) → 0 < k → 2 ≤ 2 ^ k
two-le-pow zero h = absurd (omega arith)
two-le-pow (suc k) h = rw (pow-suc 2 k) (omega (arith, pow-pos k))

pow-lt : (a : ℕ) → a < 64 → 2 ^ a < 2 ^ 64
pow-lt a h =
    let more : 2 ^ suc a ≤ 2 ^ 64 = pow-le-pow_right {n = 2} (omega arith) {i = suc a} {j = 64} h in
    omega (arith, pow-suc 2 a, pow-pos a, more)

-- A quotient of powers.
pow-div : (s v : ℕ) → 2 ^ (v + s) / 2 ^ s ≡ 2 ^ v
pow-div s v = rw (pow_add v s) (mul-div_cancel (2 ^ v) (pow-pos s))

-- The loop counts the exponent of a power of two.
shifts-pow : (n k : ℕ) → k < n → shifts n (2 ^ k) ≡ k
unfolding shifts
shifts-pow zero k h = absurd (omega arith)
shifts-pow (suc n) zero h = refl
shifts-pow (suc n) (suc k) h =
    let half : 2 ^ suc k / 2 ≡ 2 ^ k = rw (pow-suc 2 k) (omega arith) in
    let pos = pow-pos k in let rest = shifts-pow n k (omega arith) in rw half (ground arith)

-- How a layout of a store of 2^a sectors of 2^s bytes divides it, where a value has 2^v sectors.
pub record Divides (s v a : ℕ) (l : KvLayout) : Type 0 where
  pub sectors : l.sect_bits ≡ s
  pub values : l.value_bits ≡ v
  pub addresses : l.key_bits + l.value_bits ≡ a
  pub size : l.kv_len ≡ 2 ^ a
  pub search : get_max_search_range l ≡ 2 ^ l.value_bits
  pub pools : l.pool_bits + 1 ≡ l.value_bits
  pub halves : 2 * (l.max_value_size + l.sector_size) ≡ 2 ^ l.value_bits * l.sector_size

whole_range : (s v : ℕ) → v + s ≡ 21 → max_value_range / 2 ^ s ≡ 2 ^ v
whole_range s v sum = ap (λ (k : ℕ). 2 ^ k / 2 ^ s) (sym sum) ∙ pow-div s v

-- For sectors of 2^s bytes, at most half of the value range of 2^21 bytes, and addresses of a bits, which
-- are enough for a value and less than 64: the layout splits the bits of an address into those of the
-- key and of the value, leaves one of the latter to values and the others to pools, and a value with
-- its first sector takes half of its range.
pub store_layout-Divides :
    (s v a max_pools : ℕ)
    → v + s ≡ 21
    → 0 < v
    → v ≤ a
    → a < 64
    → Divides s v a (store_layout (2 ^ s) a max_pools)
unfolding store_layout new_layout set_md_rec get_max_search_range
store_layout-Divides s v a max_pools sum pos fits narrow =
    let range = whole_range s v sum in
    let bits : shifts 64 (max_value_range / 2 ^ s) ≡ v =
      ap (shifts 64) range ∙ shifts-pow 64 v (omega arith) in
    let product : 2 ^ v * 2 ^ s ≡ 2097152 = sym (pow_add v s) ∙ ap (λ (k : ℕ). 2 ^ k) sum in
    let some_value : 2 ≤ 2 ^ v = two-le-pow v pos in
    let double : 2 * 2 ^ s ≤ 2 ^ v * 2 ^ s = mul-le-mul_right (2 ^ s) some_value in
    let below : 2 ^ a < 2 ^ 64 = pow-lt a narrow in
    record {
      sectors = shifts-pow 64 s (omega arith);
      values = bits;
      addresses = rw bits (omega arith);
      size = mod-eq_of_lt below;
      search = rw (bits, range) refl;
      pools = rw bits (omega arith);
      halves = rw bits (omega (arith, product, double));
    }

-- The records that are reserved: they hold the tags behind the first one.
slice_addr_enough :
    (s v max_pools : ℕ)
    → v + s ≡ 21
    → max_pools ≤ 1048576
    → (max_value_range + 16 * max_pools ≤ slice_addr (2 ^ s) max_pools * max_value_range)
      × (slice_addr (2 ^ s) max_pools ≤ 16)
unfolding slice_addr
slice_addr_enough s v max_pools sum most =
    let product : 2 ^ v * 2 ^ s ≡ 2097152 = sym (pow_add v s) ∙ ap (λ (k : ℕ). 2 ^ k) sum in
    let small : 2 ^ s ≤ 2097152 = omega (arith, product, mul-le-mul_right (2 ^ s) (pow-pos v)) in
    let tags : 16 * max_pools % 4294967296 ≡ 16 * max_pools = omega arith in
    let first = round_upto_blk-RoundsUp (16 * max_pools) s (omega arith) (omega arith) in
    let fits : round_upto_blk (16 * max_pools) (2 ^ s) % 4294967296
        ≡ round_upto_blk (16 * max_pools) (2 ^ s) =
      omega (arith, first.close, small) in
    let second =
      round_upto_blk-RoundsUp (round_upto_blk (16 * max_pools) (2 ^ s)) 21 (omega arith)
        (omega (arith, first.close, small)) in
    rw (tags, fits)
      (
        omega (arith, first.above, first.close, second.above, second.close, second.multiple, small),
        omega (arith, first.above, first.close, second.above, second.close, second.multiple, small),
      )

-- For sectors of 2^s bytes and at most NVM_KV_MAX_POOLS pools, the tags of all pools, from the LBA of the
-- tags on, end before the user's data begin.
pub store_layout_tags :
    (s v a max_pools : ℕ)
    → v + s ≡ 21
    → max_pools ≤ 1048576
    → let l = store_layout (2 ^ s) a max_pools in
      l.pool_tags_lba * 2 ^ s + 16 * max_pools ≤ l.user_data_start_lba * 2 ^ s
unfolding store_layout new_layout set_md_rec slice_addr
store_layout_tags s v a max_pools sum most =
    let range = whole_range s v sum in
    let product : 2 ^ v * 2 ^ s ≡ 2097152 = sym (pow_add v s) ∙ ap (λ (k : ℕ). 2 ^ k) sum in
    let slices = slice_addr_enough s v max_pools sum most in
    let records = slice_addr (2 ^ s) max_pools in
    let shape : records * 2 ^ v * 2 ^ s ≡ records * 2097152 =
      mul_assoc records (2 ^ v) (2 ^ s) ∙ ap (λ (k : ℕ). records * k) product in
    let whole : records * max_value_range % 18446744073709551616 ≡ records * 2 ^ v * 2 ^ s =
      mod-eq_of_lt (omega (arith, slices)) ∙ sym shape in
    let start : records * 2 ^ v * 2 ^ s / 2 ^ s ≡ records * 2 ^ v =
      mul-div_cancel (records * 2 ^ v) (pow-pos s) in
    rw (range, whole, start) (omega (arith, slices, product, shape))
