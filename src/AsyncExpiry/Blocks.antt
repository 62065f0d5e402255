-- ===== src/AsyncExpiry/Blocks.antt =====
-- The blocks of the queue of src/kv_async_expiry.cpp, and which LBAs wait in it.
use nvmkv.Prelude.{
  ℕ, ◌+◌, ◌≡◌, ◌≤◌, ◌<◌, Bool, true, false, ◌||◌, [], ◌∷◌, ◌++◌, ◌==◌, length, length-append,
  if◌then◌else◌, Bool-cases, inl, inr, refl, ◌∙◌, arith,
}
use nvmkv.Write.{KvHeader}
use nvmkv.AsyncExpiry.{Block, Queue, iovec_present, expired_iov, add_iov}

-- No LBA is twice in a block.
abbrev pub DistinctLbas : Block → Type 0
DistinctLbas [] = Unit
DistinctLbas (iov ∷ block) = (iovec_present block iov.iov_lba ≡ false) × DistinctLbas block

-- The last block has between one and `max` IOVs, and every other has `max`.
abbrev pub IsQueue : ℕ → Queue → Type 0
IsQueue max [] = Unit
IsQueue max (block ∷ []) = (0 < length block) × (length block ≤ max) × DistinctLbas block
IsQueue max (block ∷ next ∷ blocks) =
    (length block ≡ max) × DistinctLbas block × IsQueue max (next ∷ blocks)

-- The IOVs of all blocks in order, and those of the last block where it has room.
abbrev pub joined : Queue → Block
joined [] = []
joined (block ∷ blocks) = block ++ joined blocks

abbrev pub open_block : ℕ → Queue → Block
open_block max [] = []
open_block max (block ∷ []) = if length block == max then [] else block
open_block max (block ∷ next ∷ blocks) = open_block max (next ∷ blocks)

-- Whether an LBA waits for its deletion.
unfoldable pub waits : Queue → ℕ → Bool
waits [] lba = false
waits (block ∷ blocks) lba = iovec_present block lba || waits blocks lba

module _ (sector_size key_loc : ℕ) (hdr : KvHeader) where
  present-append :
      (block : Block) (lba : ℕ)
      → iovec_present (block ++ expired_iov sector_size key_loc hdr ∷ []) lba
        ≡ (iovec_present block lba || key_loc == lba)
  unfolding iovec_present expired_iov
  present-append [] lba = ground arith
  present-append (iov ∷ block) lba = elim (Bool-cases (iov.iov_lba == lba)) [
    | inl here ↦ rw here refl
    | inr there ↦ rw there (present-append block lba)
  ]

  append-DistinctLbas :
      (block : Block)
      → iovec_present block key_loc ≡ false
      → DistinctLbas block
      → DistinctLbas (block ++ expired_iov sector_size key_loc hdr ∷ [])
  unfolding iovec_present
  append-DistinctLbas [] h d = (refl, tt)
  append-DistinctLbas (iov ∷ block) h (first, rest) =
      let other : (iov.iov_lba == key_loc) ≡ false = ground (arith, h) in
      let apart : (key_loc == iov.iov_lba) ≡ false = ground (arith, other) in
      (
        present-append block iov.iov_lba ∙ rw (first, apart) refl,
        append-DistinctLbas block (ground (arith, h)) rest,
      )

  -- A block behind `add_iov`.
  pub record Adds (block added : Block) : Type 0 where
    pub pos : 0 < length added
    pub grows : length added ≤ length block + 1
    pub distinct : DistinctLbas added
    pub holds : (lba : ℕ) → iovec_present added lba ≡ (iovec_present block lba || key_loc == lba)

  present-length : (block : Block) (lba : ℕ) → iovec_present block lba ≡ true → 0 < length block
  unfolding iovec_present
  present-length [] lba h = absurd (ground (arith, h))
  present-length (iov ∷ block) lba h = omega arith

  or_self :
      (block : Block) (lba : ℕ)
      → iovec_present block key_loc ≡ true
      → iovec_present block lba ≡ (iovec_present block lba || key_loc == lba)
  or_self block lba h = elim (Bool-cases (key_loc == lba)) [
    | inl same ↦ let e : key_loc ≡ lba = ground (arith, same) in rw (same, ← e) (rw h refl)
    | inr other ↦ elim (Bool-cases (iovec_present block lba)) [
      | inl there ↦ rw there refl
      | inr not_there ↦ rw (not_there, other) refl
    ]
  ]

  pub add_iov-Adds :
      (block : Block) → DistinctLbas block → Adds block (add_iov sector_size key_loc hdr block)
  unfolding add_iov
  add_iov-Adds block d = elim (Bool-cases (iovec_present block key_loc)) [
    | inl there ↦ rw there (record {
      pos = present-length block key_loc there;
      grows = omega arith;
      distinct = d;
      holds = λ lba. or_self block lba there;
    })
    | inr absent ↦
        let n = length-append block (expired_iov sector_size key_loc hdr ∷ []) in
        rw absent (record {
          pos = omega (arith, n);
          grows = omega (arith, n);
          distinct = append-DistinctLbas block absent d;
          holds = present-append block;
        })
  ]
