-- ===== src/Hash/Probe.antt =====
-- Where the probes of util/kv_hash_func.cpp go: in an index space, which is how the cache uses
-- them, without alignment, and on aligned addresses.
use native.Mathlib.Nat.{one-le-pow, pow-le-pow_right, mod-lt, mod-eq_of_lt, mul-lt-mul_of_pos_right}
use native.Mathlib.Nat.{
  mod-eq-sub-mod, div-add-mod, mul-add-mod_self_left, mul_right_comm, add-mul, one-mul,
}
use nvmkv.Prelude.{
  ℕ, ◌+◌, ◌-◌, ◌*◌, ◌/◌, ◌%◌, ◌^◌, ◌≤◌, ◌<◌, ◌≡◌, ◌≢◌, true, false, List, ◌∷◌, ltb, ◌==◌,
  Bool-cases, inl, inr, arith, ap, sym, ◌∙◌,
}
use nvmkv.Prelude.Bits.{pow_add}
use nvmkv.Hash.{
  HashFunc, sequential_probe_type, sequential_probe, probe, resolve_coll, shl64, sub32,
}
use nvmkv.Hash.Fold.{shl64-eq}

wrap-lt : (x b : ℕ) → b ≤ x → x < b + b → x % b ≡ x - b
wrap-lt x b lo hi = mod-eq-sub-mod lo ∙ mod-eq_of_lt (omega arith)

-- A window of `b` consecutive numbers has distinct remainders by `b`.
mod_window : (i m n b : ℕ) → i < b → m < b → n < b → (i + m) % b ≡ (i + n) % b → m ≡ n
mod_window i m n b hi hm hn same = elim (Bool-cases (ltb (i + m) b)) [
  | inl lm ↦
      let em : (i + m) % b ≡ i + m = mod-eq_of_lt (ground arith) in
      elim (Bool-cases (ltb (i + n) b)) [
        | inl ln ↦ let en : (i + n) % b ≡ i + n = mod-eq_of_lt (ground arith) in omega arith
        | inr gn ↦
            let en : (i + n) % b ≡ i + n - b = wrap-lt (i + n) b (ground arith) (omega arith) in
            ground arith
      ]
  | inr gm ↦
      let em : (i + m) % b ≡ i + m - b = wrap-lt (i + m) b (ground arith) (omega arith) in
      elim (Bool-cases (ltb (i + n) b)) [
        | inl ln ↦ let en : (i + n) % b ≡ i + n = mod-eq_of_lt (ground arith) in ground arith
        | inr gn ↦
            let en : (i + n) % b ≡ i + n - b = wrap-lt (i + n) b (ground arith) (omega arith) in
            ground arith
      ]
]

-- A remainder by a product, of a multiple of one factor.
mul-mod_scale : (x m c : ℕ) → 0 < m → 0 < c → x * c % (m * c) ≡ x % m * c
mul-mod_scale x m c pm pc =
    let whole : x * c ≡ m * c * (x / m) + x % m * c =
      rw (mul_right_comm m c (x / m), ← add-mul (m * (x / m)) (x % m) c)
        (ap (λ (t : ℕ). t * c) (sym (div-add-mod x m))) in
    let fits : x % m * c < m * c = mul-lt-mul_of_pos_right (mod-lt x pm) pc in
    rw whole (mul-add-mod_self_left (m * c) (x / m) (x % m * c) ∙ mod-eq_of_lt fits)

-- A hash function that probes an index space of `len` bits, as the cache sets it up.
pub record IsIndexing (f : HashFunc) (len : ℕ) : Type 0 where
  pub sequential : f.col_handle_type ≡ sequential_probe_type
  pub width : f.alignment_addr ≡ len
  pub pos : 0 < len
  pub small : len < 64

module _ {f : HashFunc} {len : ℕ} (good : IsIndexing f len) (b : ℕ) (bs : List ℕ)
    (pool_id : ℕ) where
  pub resolve_coll-eq-mod :
      (init n : ℕ)
      → init + n < 2 ^ 64
      → resolve_coll f (b ∷ bs) pool_id init n len false ≡ (init + n) % 2 ^ len
  unfolding resolve_coll sequential_probe probe
  resolve_coll-eq-mod init n fits =
      let some : (len == 0) ≡ false = ground (arith, good.pos) in
      let whole : (init + n * 2 ^ 0 % 2 ^ 64) % 2 ^ 64 ≡ init + n = omega arith in
      let width : sub32 f.alignment_addr 0 ≡ len = omega (arith, good.width, good.small) in
      let one : shl64 1 len ≡ 1 * 2 ^ len =
        shl64-eq 1 1 len (omega arith) (omega (arith, good.small)) in
      let plain : 1 * 2 ^ len ≡ 2 ^ len = omega arith in
      rw (some, good.sequential, whole, width, one, plain)

  -- Every probe is an index of the table.
  pub resolve_coll-lt :
      (init n : ℕ) → init + n < 2 ^ 64 → resolve_coll f (b ∷ bs) pool_id init n len false < 2 ^ len
  resolve_coll-lt init n fits =
      rw (resolve_coll-eq-mod init n fits) (mod-lt (init + n) (one-le-pow len 2 (omega arith)))

  resolve_coll_injective :
      (init m n : ℕ)
      → init < 2 ^ len
      → m < 2 ^ len
      → n < 2 ^ len
      → resolve_coll f (b ∷ bs) pool_id init m len false
        ≡ resolve_coll f (b ∷ bs) pool_id init n len false
      → m ≡ n
  resolve_coll_injective init m n hi hm hn same =
      let room : 2 ^ len ≤ 2 ^ 63 =
        pow-le-pow_right (omega arith) {j = 63} (omega (arith, good.small)) in
      mod_window init m n (2 ^ len) hi hm hn (
        sym (resolve_coll-eq-mod init m (omega arith))
        ∙ same
        ∙ resolve_coll-eq-mod init n (omega arith))

  -- For a sequential probe over an index space of 2^len slots, different rounds below 2^len for one
  -- key that is not empty, from one start in the table, go to different slots.
  pub resolve_coll_distinct :
      (init m n : ℕ)
      → init < 2 ^ len
      → m < 2 ^ len
      → n < 2 ^ len
      → m ≢ n
      → resolve_coll f (b ∷ bs) pool_id init m len false
        ≢ resolve_coll f (b ∷ bs) pool_id init n len false
  resolve_coll_distinct init m n hi hm hn other same =
      other (resolve_coll_injective init m n hi hm hn same)

-- A hash function over aligned addresses, as the store sets it up: `len` bits of hash above
-- `alignment_addr - len` bits of zeros, fewer zeros than hash bits.
pub record IsAligning (f : HashFunc) (len : ℕ) : Type 0 where
  pub sequential : f.col_handle_type ≡ sequential_probe_type
  pub pos : 0 < len
  pub le : len ≤ f.alignment_addr
  pub low : f.alignment_addr - len ≤ len
  pub small : f.alignment_addr < 64

-- For aligned addresses with fewer zeros than hash bits, a probe of round n from the aligned hash
-- h, for h + n below 2^len and addresses of less than 64 bits, goes to the aligned address of h + n
-- modulo 2^(len - d), where d is the number of zeros: the top d bits are lost.
pub resolve_coll-aligned :
    (f : HashFunc) (len b : ℕ) (bs : List ℕ) (pool_id h n : ℕ)
    → IsAligning f len
    → h + n < 2 ^ len
    → let d = f.alignment_addr - len in
      resolve_coll f (b ∷ bs) pool_id (h * 2 ^ d) n len true ≡ (h + n) % 2 ^ (len - d) * 2 ^ d
unfolding resolve_coll sequential_probe probe
resolve_coll-aligned f len b bs pool_id h n good fits =
    let d = f.alignment_addr - len in
    let some : (len == 0) ≡ false = ground arith in
    let left : sub32 f.alignment_addr len ≡ d = omega arith in
    let back : sub32 f.alignment_addr d ≡ len = omega arith in
    let one : shl64 1 len ≡ 1 * 2 ^ len = shl64-eq 1 1 len (omega arith) (omega arith) in
    let step : shl64 n d ≡ n * 2 ^ d = shl64-eq n len d (omega arith) (omega arith) in
    let sum : h * 2 ^ d + n * 2 ^ d ≡ (h + n) * 2 ^ d = sym (add-mul h n (2 ^ d)) in
    let whole : (h + n) * 2 ^ d % 2 ^ 64 ≡ (h + n) * 2 ^ d =
      shl64-eq (h + n) len d fits (omega arith) in
    let split : 1 * 2 ^ len ≡ 2 ^ (len - d) * 2 ^ d =
      one-mul (2 ^ len) ∙ ap (λ (t : ℕ). 2 ^ t) (omega arith) ∙ pow_add (len - d) d in
    rw (some, good.sequential, left, back, one, step, sum, whole, split)
      (mul-mod_scale (h + n) (2 ^ (len - d)) (2 ^ d) (one-le-pow (len - d) 2 (omega arith))
        (one-le-pow d 2 (omega arith)))
