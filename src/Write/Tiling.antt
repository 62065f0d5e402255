-- ===== src/Write/Tiling.antt =====
-- The loop of `kv_process_for_write` (src/kv_store_mgr.cpp) over the bytes to write.
use native.Mathlib.Nat.{add-mul, mod-eq_of_lt, div-add-mod, mul-sub, mul-mod_right}
use nvmkv.Prelude.{
  ℕ, zero, suc, ◌+◌, ◌-◌, ◌*◌, ◌/◌, ◌%◌, ◌^◌, ◌<◌, ◌≤◌, ◌≡◌, false, List, [], ◌∷◌, arith, ltb, ◌==◌,
  Bool-cases, inl, inr, refl, ap, sym, ◌∙◌,
}
use nvmkv.Write.{Capabilities, Iov, nvm_iov_write, max_write_size, write_iovs}

-- The IOVs write `len` bytes from the address `base` to the sectors from `lba` on, without a gap: each
-- begins where the one before ends, and writes whole sectors, one at least, and at most `most` bytes.
abbrev pub Tiles : ℕ → ℕ → ℕ → ℕ → List Iov → ℕ → Type 0
Tiles sector most base lba [] len = len ≡ 0
Tiles sector most base lba (v ∷ vs) len =
    (v.iov_base ≡ base)
    × (v.iov_lba ≡ lba)
    × (v.iov_opcode ≡ nvm_iov_write)
    × (0 < v.iov_len)
    × (v.iov_len ≤ most)
    × (v.iov_len ≤ len)
    × (v.iov_len % sector ≡ 0)
    × Tiles sector most (base + v.iov_len) (lba + v.iov_len / sector) vs (len - v.iov_len)

next_count : (a count step : ℕ) → a + (count + 1) * step ≡ a + count * step + step
next_count a count step =
    let e : (count + 1) * step ≡ count * step + 1 * step = add-mul count 1 step in omega (arith, e)

whole_multiple : (a m : ℕ) → a % m ≡ 0 → a ≡ m * (a / m)
whole_multiple a m h = let e : m * (a / m) + a % m ≡ a = div-add-mod a m in omega (arith, e)

sub-mod_zero : (a b m : ℕ) → a % m ≡ 0 → b % m ≡ 0 → (a - b) % m ≡ 0
sub-mod_zero a b m ha hb =
    (λ j. (whole_multiple a m ha j - whole_multiple b m hb j) % m)
    ∙ ap (λ (x : ℕ). x % m) (sym (mul-sub m (a / m) (b / m)))
    ∙ mul-mod_right m (a / m - b / m)

module _ (caps : Capabilities) (pos : 0 < max_write_size caps)
    (whole : max_write_size caps % caps.nvm_sector_size ≡ 0) (from lba : ℕ) where
  abbrev most : ℕ
  most = max_write_size caps

  abbrev step : ℕ
  step = most / caps.nvm_sector_size

  nothing_left : (n count : ℕ) → write_iovs n caps from lba count 0 ≡ []
  unfolding write_iovs
  nothing_left zero count = refl
  nothing_left (suc n) count = refl

  pub write_iovs-Tiles :
      (n count remaining : ℕ)
      → remaining ≤ n
      → remaining % caps.nvm_sector_size ≡ 0
      → from + count * most + remaining < 2 ^ 64
      → lba + count * step + remaining < 2 ^ 64
      → step ≤ most
      → Tiles caps.nvm_sector_size most
          (from + count * most)
          (lba + count * step)
          (write_iovs n caps from lba count remaining)
          remaining
  unfolding write_iovs
  write_iovs-Tiles zero count remaining enough sectors base_fits lba_fits small = omega arith
  write_iovs-Tiles (suc n) count zero enough sectors base_fits lba_fits small = refl
  write_iovs-Tiles (suc n) count (suc r) enough sectors base_fits lba_fits small =
      let base_eq : (from + count * most) % 2 ^ 64 ≡ from + count * most =
        mod-eq_of_lt (omega arith) in
      let lba_eq : (lba + count * step) % 2 ^ 64 ≡ lba + count * step =
        mod-eq_of_lt (omega arith) in
      let some : (suc r == 0) ≡ false = ground arith in
      elim (Bool-cases (ltb (suc r) most)) [
        | inl last ↦
            let gone : suc r - suc r ≡ 0 = omega arith in
            rw (some, last, gone, nothing_left n (count + 1))
              (base_eq, lba_eq, refl, omega arith, ground arith, omega arith, sectors, refl)
        | inr more ↦
            let le : most ≤ suc r = ground arith in
            let rest =
              write_iovs-Tiles n (count + 1) (suc r - most) (omega arith)
                (sub-mod_zero (suc r) most caps.nvm_sector_size sectors whole)
                (omega (arith, next_count from count most))
                (omega (arith, next_count lba count step)) small in
            rw (some, more)
              (
                base_eq,
                lba_eq,
                refl,
                pos,
                omega arith,
                le,
                whole,
                rw (next_count from count most, next_count lba count step) at rest,
              )
      ]
