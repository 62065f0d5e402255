-- ===== src/Persist/Sectors.antt =====
-- Where `persist_store_info` of src/kv_pool_manager.cpp writes the bits of a pool.
use native.Mathlib.Nat.{div-mul-le_self, lt-div-mul-add, div-div-eq-div-mul, one-le-pow, mul_assoc}
use nvmkv.Prelude.{
  ℕ, ◌+◌, ◌-◌, ◌*◌, ◌/◌, ◌^◌, ◌≤◌, ◌≡◌, ◌⊎◌, Bool, true, some, List, [], ◌∷◌, ◌++◌, arith,
  if◌then◌else◌, inl, inr, refl, sym, ◌∙◌, ap,
}
use nvmkv.Prelude.Bits.{pow_add}
use nvmkv.Bitmap.{bit_index_sector}
use nvmkv.Write.{Iov}
use nvmkv.Persist.{StoreMap, StoreInfo, bitmap_iov, tag_iovs, metadata_iov, persist_iovs}

-- A word of 4 bytes at `offset` of a bit map in memory at `base` and on the media from `lba` on lies in
-- the IOV, which writes one sector and puts it where that sector of the bit map belongs.
pub record HoldsWord (sector base lba offset : ℕ) (v : Iov) : Type 0 where
  pub sectors : ℕ
  pub from : v.iov_base ≡ base + sectors * sector
  pub to : v.iov_lba ≡ lba + sectors
  pub below : sectors * sector ≤ offset
  pub above : offset + 4 ≤ sectors * sector + v.iov_len

-- The sector of the bit of a pool holds the word of that bit, for sectors of `2 ^ k` bytes.
word_in_sector :
    (id k : ℕ)
    → 2 ≤ k
    → (id / 2 ^ (k + 3) * 2 ^ k ≤ id / 32 * 4)
      × (id / 32 * 4 + 4 ≤ id / 2 ^ (k + 3) * 2 ^ k + 2 ^ k)
word_in_sector id k two =
    let p = 2 ^ (k - 2) in
    let w = id / 32 in
    let pos : 1 ≤ p = one-le-pow (k - 2) 2 (omega arith) in
    let sector : 2 ^ k ≡ p * 4 = ap (λ (n : ℕ). 2 ^ n) (omega arith) ∙ pow_add (k - 2) 2 in
    let bits : 2 ^ (k + 3) ≡ 32 * p =
      ap (λ (n : ℕ). 2 ^ n) (let e : k + 3 ≡ 5 + (k - 2) = omega arith in e) ∙ pow_add 5 (k - 2) in
    let q : id / 2 ^ (k + 3) ≡ w / p =
      ap (λ (n : ℕ). id / n) bits ∙ sym (div-div-eq-div-mul id 32 p) in
    let scaled : w / p * (p * 4) ≡ w / p * p * 4 = sym (mul_assoc (w / p) p 4) in
    rw (q, sector, scaled)
      (omega (arith, div-mul-le_self w p), omega (arith, lt-div-mul-add {a = w} pos))

-- The IOV of one bit map for a pool holds the word of the bit of the pool.
pub bitmap_iov-HoldsWord :
    (s : StoreMap) (base lba id : ℕ)
    → s.sector_size ≡ 2 ^ s.sector_bits
    → 2 ≤ s.sector_bits
    → HoldsWord s.sector_size base lba (id / 32 * 4) (bitmap_iov s base lba (some id))
unfolding bitmap_iov bit_index_sector
bitmap_iov-HoldsWord s base lba id sector two =
    let w = word_in_sector id s.sector_bits two in
    record {
      sectors = id / 2 ^ (s.sector_bits + 3);
      from = refl;
      to = refl;
      below = rw sector (w.0);
      above = rw sector (w.1);
    }

abbrev pub Among : Iov → List Iov → Type 0
Among v [] = ⊥
Among v (x ∷ xs) = (x ≡ v) ⊎ Among v xs

Among-append : (v : Iov) (xs ys : List Iov) → Among v ys → Among v (xs ++ ys)
Among-append v [] ys h = h
Among-append v (x ∷ xs) ys h = inr (Among-append v xs ys h)

Among-third :
    (a b : Bool) (xs : List Iov) (m v : Iov) (ys : List Iov)
    → Among v ((if a then xs else []) ++ ((if b then m ∷ [] else []) ++ (v ∷ ys)))
Among-third a b xs m v ys =
    Among-append v (if a then xs else []) ((if b then m ∷ [] else []) ++ (v ∷ ys))
      (Among-append v (if b then m ∷ [] else []) (v ∷ ys) (inl refl))

Among-fourth :
    (a b c : Bool) (xs : List Iov) (m u v : Iov)
    → Among v (
        (if a then xs else [])
        ++ ((if b then m ∷ [] else []) ++ ((if c then u ∷ [] else []) ++ (v ∷ []))))
Among-fourth a b c xs m u v =
    let last : List Iov = (if c then u ∷ [] else []) ++ (v ∷ []) in
    Among-append v (if a then xs else []) ((if b then m ∷ [] else []) ++ last) (
      Among-append v (if b then m ∷ [] else []) last
        (Among-append v (if c then u ∷ [] else []) (v ∷ []) (inl refl)))

module _ (s : StoreMap) (info : StoreInfo) (id : ℕ) (sector : s.sector_size ≡ 2 ^ s.sector_bits)
    (two : 2 ≤ s.sector_bits) where
  -- For sectors of 2^sector_bits bytes, at least 4, the batch write of the in-use bit map for one
  -- pool has an IOV that holds the word with the bit of the pool, at its place in the bit map on
  -- the media.
  pub persist_iovs_in_use :
      info.has_in_use ≡ true
      → (v : Iov) × Among v (persist_iovs s info (some id))
        × HoldsWord s.sector_size s.in_use s.inuse_bm_lba (id / 32 * 4) v
  unfolding persist_iovs
  persist_iovs_in_use asked = (
    bitmap_iov s s.in_use s.inuse_bm_lba (some id),
    rw asked (
        Among-third info.has_tags info.has_metadata (tag_iovs s (some id)) (metadata_iov s)
          (bitmap_iov s s.in_use s.inuse_bm_lba (some id))
          (if info.has_deleted then bitmap_iov s s.deleted s.del_bm_lba (some id) ∷ [] else [])),
    bitmap_iov-HoldsWord s s.in_use s.inuse_bm_lba id sector two,
  )

  -- For sectors of 2^sector_bits bytes, at least 4, the batch write of the deletion bit map for one
  -- pool has an IOV that holds the word with the bit of the pool, at its place in the bit map on
  -- the media.
  pub persist_iovs_deleted :
      info.has_deleted ≡ true
      → (v : Iov) × Among v (persist_iovs s info (some id))
        × HoldsWord s.sector_size s.deleted s.del_bm_lba (id / 32 * 4) v
  unfolding persist_iovs
  persist_iovs_deleted asked = (
    bitmap_iov s s.deleted s.del_bm_lba (some id),
    rw asked (
        Among-fourth info.has_tags info.has_metadata info.has_in_use (tag_iovs s (some id))
          (metadata_iov s) (bitmap_iov s s.in_use s.inuse_bm_lba (some id))
          (bitmap_iov s s.deleted s.del_bm_lba (some id))),
    bitmap_iov-HoldsWord s s.deleted s.del_bm_lba id sector two,
  )
