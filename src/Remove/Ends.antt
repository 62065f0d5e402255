-- ===== src/Remove/Ends.antt =====
-- That delete_range of src/kv_store.cpp ends, and what it returns.
use nvmkv.Prelude.{
  ℕ, zero, suc, ◌+◌, ◌-◌, ◌*◌, ◌%◌, ◌^◌, ◌<◌, ◌≤◌, ◌≡◌, ◌⊎◌, Option, some, List, arith, ltb, ◌==◌,
  length, Bool-cases, inl, inr, refl,
}
use nvmkv.Error.{io, Status, success, failure}
use nvmkv.Write.{Capabilities, Iov, max_trim_size}
use nvmkv.Media.{Media}
use nvmkv.Remove.{discard_len, trim_batch, after_batch, discard, delete_range}

-- A batch of at most n + 1 IOVs, and what it leaves.
record Shrinks (n remaining_len : ℕ) (r : List Iov × ℕ) : Type 0 where
  fits : length (r.0) ≤ n + 1
  some_iov : 0 < length (r.0)
  less : r.1 ≤ remaining_len - 1

discard_len_pos :
    (caps : Capabilities) (remaining_len : ℕ)
    → 0 < max_trim_size caps
    → remaining_len - discard_len caps remaining_len ≤ remaining_len - 1
unfolding discard_len
discard_len_pos caps remaining_len pos =
    elim (Bool-cases (ltb (max_trim_size caps) remaining_len)) [
      | inl longer ↦ rw longer (omega arith)
      | inr shorter ↦ rw shorter (omega arith)
    ]

trim_batch-Shrinks :
    (n : ℕ) (caps : Capabilities) (del_lba total_iovs remaining_len : ℕ)
    → 0 < max_trim_size caps
    → Shrinks n remaining_len (trim_batch n caps del_lba total_iovs remaining_len)
unfolding trim_batch
trim_batch-Shrinks zero caps del_lba total_iovs remaining_len pos = record {
  fits = omega arith;
  some_iov = omega arith;
  less = discard_len_pos caps remaining_len pos;
}
trim_batch-Shrinks (suc n) caps del_lba total_iovs remaining_len pos =
    let left = remaining_len - discard_len caps remaining_len in
    let less = discard_len_pos caps remaining_len pos in
    let rest = trim_batch-Shrinks n caps del_lba ((total_iovs + 1) % 2 ^ 32) left pos in
    elim (Bool-cases (left == 0)) [
      | inl done ↦ rw done (record { fits = omega arith; some_iov = omega arith; less = less })
      | inr more ↦ rw more (record {
        fits = omega (arith, rest.fits);
        some_iov = omega arith;
        less = omega (arith, rest.less, less);
      })
    ]

-- The function ends with success or with the error of a batch.
abbrev pub EndsDelete : {W : Type 0} → Option (Status × W) → Type 0
EndsDelete {W} o = (s : Status) × (w : W) × (o ≡ some (s, w)) × ((s ≡ success) ⊎ (s ≡ failure io))

module _ (m : Media) (caps : Capabilities) where
  after_batch-EndsDelete :
      (next : m.World → Option (Status × m.World)) (left : ℕ) (r : Status × m.World)
      → (0 < left → (w : m.World) → EndsDelete (next w))
      → EndsDelete (after_batch m caps next left r)
  after_batch-EndsDelete next left (failure c, w) ends = (failure io, w, refl, inr refl)
  after_batch-EndsDelete next zero (success, w) ends = (success, w, refl, inl refl)
  after_batch-EndsDelete next (suc left) (success, w) ends = ends (omega arith) w

  discard-EndsDelete :
      (n del_lba total_iovs remaining_len : ℕ) (w : m.World)
      → 0 < max_trim_size caps
      → remaining_len < n
      → EndsDelete (discard m caps n del_lba total_iovs remaining_len w)
  unfolding discard
  discard-EndsDelete zero del_lba total_iovs remaining_len w pos enough = absurd (omega arith)
  discard-EndsDelete (suc n) del_lba total_iovs remaining_len w pos enough =
      let batch = trim_batch (caps.nvm_max_num_iovs - 1) caps del_lba total_iovs remaining_len in
      let shrinks =
        trim_batch-Shrinks (caps.nvm_max_num_iovs - 1) caps del_lba total_iovs remaining_len pos in
      after_batch-EndsDelete _ (batch.1) _ λ more w'.
        discard-EndsDelete n del_lba ((total_iovs + length (batch.0)) % 2 ^ 32) (batch.1) w' pos
          (omega (arith, shrinks.less))

-- On a device that trims something, whatever the media returns, delete_range ends, with success or
-- with NVM_ERR_IO.
pub delete_range-EndsDelete :
    (m : Media) (caps : Capabilities) (del_lba discard_sec : ℕ) (w : m.World)
    → 0 < max_trim_size caps
    → EndsDelete (delete_range m caps del_lba discard_sec w)
unfolding delete_range
delete_range-EndsDelete m caps del_lba discard_sec w pos =
    let remaining_len = discard_sec * caps.nvm_sector_size % 2 ^ 64 in
    discard-EndsDelete m caps (suc remaining_len) del_lba 0 remaining_len w pos (omega arith)
