-- ===== src/PoolDel/Default.antt =====
-- src/kv_pool_del_manager.cpp: which keys the deletion of all pools trims, and what it returns where it
-- ends with keys of the default pool.
use nvmkv.Prelude.{
  ℕ, zero, suc, ◌-◌, ◌^◌, ◌<◌, ◌≤◌, ◌≡◌, ◌≢◌, ◌⊎◌, true, Option, some, List, [], ◌∷◌, ◌++◌, length,
  ltb, bit_and, refl, ap, ◌∙◌, arith,
}
use mathlib.Core.List.{append-nil}
use nvmkv.Error.{ErrorCode, io, Status, failure, Result, ok, err}
use nvmkv.Bitmap.{KvBitmap}
use nvmkv.Pool.{PoolMgr, PoolId, all_pools, other_negative, one_pool, clear_pool_bitmaps}
use nvmkv.Write.{Capabilities, Iov}
use nvmkv.Media.{Media, Store}
use nvmkv.Ranges.{BlockRange, Listing, Lister, IsLister}
use nvmkv.Iterator.{pool_mask}
use nvmkv.Remove.{batch_delete}
use nvmkv.Sweep.{going, sweep_ranges, sweep_all}
use nvmkv.Sweep.Trims.{trims_of, Fit}
use nvmkv.Sweep.Finish.{Finishes, failed, finished, sweep_all-Finishes}
use nvmkv.Sweep.Keys.{TrimsQuietly, batch_delete-SendsTrims, batch_error}
use nvmkv.PoolDel.{
  ScanConfig, judge_key, is_listed_target, scan_iter, delete_keys, on_keys, start_pool_delete,
}

module _ (m : Media) (st : Store) (stale : BlockRange → m.World → ℕ) (target : PoolId) where
  judge_key-few :
      (r : BlockRange) (ret : ℕ) (w : m.World)
      → st.max_pools ≤ 2 ^ (st.val_bits - 1)
      → judge_key m st stale target r ret w ≡ (ok (ret, is_listed_target m st target r), w)
  unfolding judge_key
  judge_key-few r ret w few = ground (arith, few)

scan_iter-max :
    (m : Media) (st : Store) (conf : ScanConfig) (target : PoolId)
    → (scan_iter m st conf target).max_ranges ≡ conf.max_ranges
unfolding scan_iter
scan_iter-max m st conf all_pools = refl
scan_iter-max m st conf other_negative = refl
scan_iter-max m st conf (one_pool p) = refl

-- Every range is one of a key of the default pool.
abbrev pub AllDefault : Store → List BlockRange → Type 0
AllDefault st [] = Unit {0}
AllDefault st (r ∷ rs) = (bit_and r.start_lba (pool_mask st) ≡ 0) × AllDefault st rs

module _ (m : Media) (lister : Lister m) (st : Store) (caps : Capabilities) (conf : ScanConfig)
    (stale : BlockRange → m.World → ℕ) where
  sweep_ranges-default :
      (rs : List BlockRange) (ret : ℕ) (iovs : List Iov) (w : m.World)
      → st.max_pools ≤ 2 ^ (st.val_bits - 1)
      → AllDefault st rs
      → sweep_ranges m lister caps
          (judge_key m st stale all_pools)
          (batch_delete m caps)
          rs
          ret
          iovs
          w
        ≡ going ret iovs w
  unfolding sweep_ranges
  sweep_ranges-default [] ret iovs w few all = refl
  sweep_ranges-default (r ∷ rs) ret iovs w few (own, others) =
      rw (judge_key-few m st stale all_pools r ret w few, own)
        (sweep_ranges-default rs ret iovs w few others)

  delete_keys-default :
      (fuel : ℕ) (w : m.World) (l : Listing)
      → st.max_pools ≤ 2 ^ (st.val_bits - 1)
      → (lister (scan_iter m st conf all_pools) w).0 ≡ ok l
      → length (l.found) < conf.max_ranges
      → AllDefault st (l.found)
      → delete_keys m lister st caps conf stale (suc fuel) all_pools w
        ≡ some (ok (length (l.found)), (lister (scan_iter m st conf all_pools) w).1)
  unfolding delete_keys sweep_all scan_iter
  delete_keys-default fuel w l few listed short all =
      let w1 = (lister (scan_iter m st conf all_pools) w).1 in
      let last : ltb (length l.found) conf.max_ranges ≡ true = ground (arith, short) in
      rw (listed, sweep_ranges-default l.found (length l.found) [] w1 few all, last) refl

  on_keys_positive :
      (clear : PoolMgr → Status × PoolMgr) (mgr : PoolMgr) (n : ℕ) (w : m.World)
      → 0 < n
      → on_keys m lister st caps conf stale clear mgr (some (ok n, w)) ≡ some (ok n, mgr, w)
  on_keys_positive clear mgr zero w h = absurd (omega arith)
  on_keys_positive clear mgr (suc n) w h = refl

  -- Where no more pools than low bits of an LBA can tell apart are allowed, and the first listing of the
  -- device has some keys, all of the default pool, and does not fill the array: the deletion of all pools
  -- returns the number of these keys, which is not NVM_SUCCESS, and leaves the bit maps of the pools as
  -- they are, so that the pools stay in deletion.
  pub start_pool_delete_default :
      (fuel : ℕ) (persist : PoolMgr → Status) (pools : KvBitmap) (mgr : PoolMgr) (w : m.World)
      (l : Listing)
      → st.max_pools ≤ 2 ^ (st.val_bits - 1)
      → (lister (scan_iter m st conf all_pools) w).0 ≡ ok l
      → 0 < length (l.found)
      → length (l.found) < conf.max_ranges
      → AllDefault st (l.found)
      → (start_pool_delete m lister st caps conf stale (suc fuel) persist pools true mgr w
          ≡ some (ok (length (l.found)), mgr, (lister (scan_iter m st conf all_pools) w).1))
        × (◌≢◌ {A = Result ℕ} (ok (length (l.found))) (ok 0))
  unfolding start_pool_delete
  start_pool_delete_default fuel persist pools mgr w l few listed some_keys short all = (
    ap (on_keys m lister st caps conf stale (λ x. clear_pool_bitmaps x pools persist) mgr)
          (delete_keys-default fuel w l few listed short all)
        ∙ on_keys_positive (λ x. clear_pool_bitmaps x pools persist) mgr (length l.found) _
            some_keys,
    λ e. ground (arith, e, some_keys),
  )

module _ (m : Media) (lister : Lister m) (lib : IsLister m lister) (st : Store)
    (caps : Capabilities) (conf : ScanConfig) (stale : BlockRange → m.World → ℕ) (target : PoolId)
    (quiet : TrimsQuietly m lister lib) where
  abbrev pub trims : List BlockRange → List Iov
  trims = trims_of caps (is_listed_target m st target)

  -- How the deletion of the keys among `todo` ends.
  pub data DeletesTargets (todo : List BlockRange) (w : m.World) (o : Option (Result ℕ × m.World))
      : Type 0 where
    trimmed_all :
        (n : ℕ) (w' : m.World)
        → o ≡ some (ok n, w')
        → quiet.trimmed w' ≡ quiet.trimmed w ++ trims todo
        → (n ≡ 0) ⊎ ((page : List BlockRange) × (n ≡ length page) × (trims page ≡ []))
        → DeletesTargets todo w o
    not_written :
        (b : List Iov) (v w' : m.World)
        → (batch_delete m caps b v).0 ≡ failure io
        → o ≡ some (err io, w')
        → DeletesTargets todo w o

  deletes_targets :
      (todo : List BlockRange) (w : m.World) (o : Option (Result ℕ × m.World))
      → Finishes m lister lib caps
          (is_listed_target m st target)
          (judge_key m st stale target)
          (batch_delete m caps)
          (batch_delete-SendsTrims m lister lib caps quiet)
          todo
          []
          w
          o
      → DeletesTargets todo w o
  deletes_targets todo w o (failed c b v w' e bad) =
      let same = batch_error m lister lib caps quiet b v c bad in
      not_written b v w' (bad ∙ ap failure same) (e ∙ ap (λ (x : ErrorCode). some (err x, w')) same)
  deletes_targets todo w o (finished n w' e done code) =
      trimmed_all n w' e
        (done ∙ ap (λ (x : List Iov). x ++ trims todo) (append-nil (quiet.trimmed w))) code

  -- While nothing else changes the media, where no more pools than low bits of an LBA can tell apart are
  -- allowed, the device lists at least one range at a time and no key to be deleted is longer than one
  -- trim may be: the deletion of the keys of a pool ends. Either it has trimmed, in order and once, each
  -- range that the device lists for it, and for all pools each but those of the default pool, and
  -- returns 0, or the number of ranges of a listing of which none was trimmed; or a batch of trims
  -- fails, and it returns NVM_ERR_IO.
  pub delete_keys-DeletesTargets :
      (fuel : ℕ) (w : m.World)
      → st.max_pools ≤ 2 ^ (st.val_bits - 1)
      → 0 < conf.max_ranges
      → Fit caps (is_listed_target m st target) (lib.upcoming (scan_iter m st conf target) w)
      → length (lib.upcoming (scan_iter m st conf target) w) < fuel
      → DeletesTargets
          (lib.upcoming (scan_iter m st conf target) w)
          w
          (delete_keys m lister st caps conf stale fuel target w)
  unfolding delete_keys
  delete_keys-DeletesTargets fuel w few some_room fit enough = deletes_targets _ w _ (
      sweep_all-Finishes m lister lib caps (is_listed_target m st target)
        (judge_key m st stale target) (batch_delete m caps)
        (batch_delete-SendsTrims m lister lib caps quiet) fuel (scan_iter m st conf target) [] w
        (λ r ret v. judge_key-few m st stale target r ret v few)
        (omega (arith, some_room, scan_iter-max m st conf target)) fit enough)
