-- ===== src/Hash/Fold.antt =====
-- The folded and the aligned hashes of util/kv_hash_func.cpp.
use native.Mathlib.Nat.{
  one-le-pow, pow-le-pow_right, mod-lt, mul-add-mod_self_right, mod-eq_of_lt, div-lt_iff_lt-mul,
}
use nvmkv.Prelude.{
  ℕ, ◌+◌, ◌-◌, ◌*◌, ◌/◌, ◌%◌, ◌^◌, ◌≤◌, ◌<◌, ◌≡◌, true, false, List, [], ◌∷◌, bit_or, bit_xor, ltb,
  ◌==◌, Bool-cases, inl, inr, arith,
}
use nvmkv.Prelude.Bits.{bit_and-mask, pow_add}
use nvmkv.Prelude.Xor.{bit_xor-lt, bit_or-shifted}
use nvmkv.Hash.{
  HashFunc, fnv_bytes, pool_bytes, fnv1a, fold, folded, key_hash, shl64, sub32, fnv_basis,
}

div-add_fields : (q b r : ℕ) → r < b → (q * b + r) / b ≡ q
div-add_fields q b r h = grind arith

mod-add_fields : (q b r : ℕ) → r < b → (q * b + r) % b ≡ r
mod-add_fields q b r h = rw (mul-add-mod_self_right q b r) (mod-eq_of_lt h)

fnv_bytes-lt : (h : ℕ) (bs : List ℕ) → h < 2 ^ 64 → fnv_bytes h bs < 2 ^ 64
unfolding fnv_bytes
fnv_bytes-lt h [] p = p
fnv_bytes-lt h (b ∷ bs) p = fnv_bytes-lt (bit_xor h b * 1099511628211 % 2 ^ 64) bs (omega arith)

fnv1a-lt : (f : HashFunc) (key : List ℕ) (pool_id : ℕ) → fnv1a f key pool_id < 2 ^ 64
unfolding fnv1a
fnv1a-lt f key pool_id =
    let start = fnv_bytes-lt fnv_basis key (omega arith) in
    ground (arith, start, fnv_bytes-lt (fnv_bytes fnv_basis key) (pool_bytes pool_id) start)

div-pow-lt : (h n k : ℕ) → h < 2 ^ (n + k) → h / 2 ^ k < 2 ^ n
div-pow-lt h n k p = (div-lt_iff_lt-mul (one-le-pow k 2 (omega arith))).1 (rw (pow_add n k) at p)

-- A folded hash has `hash_len` bits: with more than 32 of them, what is above fits in them too.
fold-lt : (hash len : ℕ) → hash < 2 ^ 64 → len ≤ 64 → fold hash len < 2 ^ len
unfolding fold
fold-lt hash len p h =
    let pos : 1 ≤ 2 ^ len = one-le-pow len 2 (omega arith) in
    elim (Bool-cases (ltb 32 len)) [
      | inl long ↦
          let high : hash / 2 ^ len < 2 ^ (64 - len) =
            div-pow-lt hash (64 - len) len (let e : 64 - len + len ≡ 64 = omega arith in rw e p) in
          let up : 2 ^ (64 - len) ≤ 2 ^ len = pow-le-pow_right (omega arith) (ground arith) in
          rw (long, bit_and-mask len hash)
            (bit_xor-lt len (hash / 2 ^ len) (hash % 2 ^ len) (omega arith) (mod-lt hash pos))
      | inr short ↦
          rw (short, bit_and-mask len (bit_xor (hash / 2 ^ len) hash))
            (mod-lt (bit_xor (hash / 2 ^ len) hash) pos)
    ]

module _ (f : HashFunc) (key : List ℕ) (pool_id len : ℕ) (le : len ≤ 64) where
  pub folded-lt : folded f key pool_id len < 2 ^ len
  unfolding folded
  folded-lt = fold-lt (fnv1a f key pool_id) len (fnv1a-lt f key pool_id) le

-- A hash that is not aligned is below 2^hash_len for lengths up to 64.
pub key_hash-lt :
    (f : HashFunc) (key : List ℕ) (pool_id len : ℕ)
    → len ≤ 64
    → key_hash f key pool_id len false < 2 ^ len
unfolding key_hash
key_hash-lt f [] pool_id len le = one-le-pow len 2 (omega arith)
key_hash-lt f (b ∷ bs) pool_id len le =
    ground (arith, folded-lt f (b ∷ bs) pool_id len le, one-le-pow len 2 (omega arith))

-- A left shift inside 64 bits is a product.
pub shl64-eq : (x n d : ℕ) → x < 2 ^ n → n + d ≤ 64 → shl64 x d ≡ x * 2 ^ d
shl64-eq x n d fits le =
    let room : 2 ^ (n + d) ≤ 2 ^ 64 = pow-le-pow_right (omega arith) le in
    let split : 2 ^ (n + d) ≡ 2 ^ n * 2 ^ d = pow_add n d in
    let pos : 1 ≤ 2 ^ d = one-le-pow d 2 (omega arith) in
    let below : x * 2 ^ d < 2 ^ n * 2 ^ d = grind arith in mod-eq_of_lt (omega arith)

-- An aligned hash is the folded one, shifted to the top of an address of `alignment_addr` bits.
pub key_hash-aligned :
    (f : HashFunc) (key : List ℕ) (pool_id len : ℕ)
    → len ≤ f.alignment_addr
    → f.alignment_addr ≤ 64
    → key_hash f key pool_id len true
      ≡ key_hash f key pool_id len false * 2 ^ (f.alignment_addr - len)
unfolding key_hash
key_hash-aligned f [] pool_id len le top = omega arith
key_hash-aligned f (b ∷ bs) pool_id len le top =
    let e : sub32 f.alignment_addr len ≡ f.alignment_addr - len = omega arith in
    let hash = folded f (b ∷ bs) pool_id len in
    elim (Bool-cases (len == 0)) [
      | inl none ↦ rw none (omega arith)
      | inr some ↦
          rw (some, e)
            (shl64-eq hash len (f.alignment_addr - len)
              (folded-lt f (b ∷ bs) pool_id len (omega arith)) (omega arith))
    ]

-- The hash and the pool hash can be read back from the LBA that joins the aligned hash with a pool
-- hash that fits below it, for addresses of at most 64 bits.
pub lba_fields :
    (f : HashFunc) (key : List ℕ) (pool_id len pool_hash : ℕ)
    → len ≤ f.alignment_addr
    → f.alignment_addr ≤ 64
    → pool_hash < 2 ^ (f.alignment_addr - len)
    → let lba = bit_or (key_hash f key pool_id len true) pool_hash in
      (lba / 2 ^ (f.alignment_addr - len) ≡ key_hash f key pool_id len false)
      × (lba % 2 ^ (f.alignment_addr - len) ≡ pool_hash)
lba_fields f key pool_id len pool_hash le top fits =
    let d = f.alignment_addr - len in
    let pos : 1 ≤ 2 ^ d = one-le-pow d 2 (omega arith) in
    let h = key_hash f key pool_id len false in
    rw (key_hash-aligned f key pool_id len le top, bit_or-shifted d h pool_hash fits)
      (div-add_fields h (2 ^ d) pool_hash fits, mod-add_fields h (2 ^ d) pool_hash fits)
