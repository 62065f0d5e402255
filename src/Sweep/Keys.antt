-- ===== src/Sweep/Keys.antt =====
-- src/kv_store.cpp: what delete_all_keys and delete_all do.
use nvmkv.Prelude.{
  ℕ, ◌+◌, ◌-◌, ◌%◌, ◌^◌, ◌<◌, ◌≡◌, inl, inr, Bool, true, Option, some, List, [], ◌∷◌, ◌++◌, length,
  refl, ap, ◌∙◌,
}
use mathlib.Core.List.{append-nil}
use nvmkv.Error.{ErrorCode, io, Status, success, failure, Result, ok, err}
use nvmkv.Cache.{KvCache}
use nvmkv.Write.{Capabilities, Iov}
use nvmkv.Media.{Media}
use nvmkv.Remove.{no_buffers, status_of, batch_delete}
use nvmkv.Ranges.{BlockRange, RangeIter, Lister, IsLister}
use nvmkv.Sweep.{
  take_all, release_all, batch_delete_sync, send_sync, every_range, unfiltered, delete_all_keys,
  delete_all,
}
use nvmkv.Sweep.Trims.{SendsTrims, trims_of, Fit}
use nvmkv.Sweep.Finish.{Finishes, failed, finished, sweep_all-Finishes}

-- What the device library and the list of busy LBAs do while nothing else changes the media: a batch of
-- trims that succeeds is carried out, and no call changes what an iterator has still to come to, nor,
-- but for a batch, what was trimmed.
pub record TrimsQuietly (m : Media) (lister : Lister m) (lib : IsLister m lister) : Type 0 where
  pub trimmed : m.World → List Iov
  pub written :
      (iovs : List Iov) (w : m.World)
      → (m.nvm_writev no_buffers [] iovs w).0 ≡ success
      → trimmed ((m.nvm_writev no_buffers [] iovs w).1) ≡ trimmed w ++ iovs
  pub write_keep :
      (iovs : List Iov) (w : m.World) (it : RangeIter)
      → lib.upcoming it ((m.nvm_writev no_buffers [] iovs w).1) ≡ lib.upcoming it w
  pub acquire_keep : (lba : ℕ) (w : m.World) → trimmed ((m.acquire lba w).1) ≡ trimmed w
  pub acquire_come :
      (lba : ℕ) (w : m.World) (it : RangeIter)
      → lib.upcoming it ((m.acquire lba w).1) ≡ lib.upcoming it w
  pub release_keep : (lba : ℕ) (w : m.World) → trimmed (m.release lba w) ≡ trimmed w
  pub release_come :
      (lba : ℕ) (w : m.World) (it : RangeIter)
      → lib.upcoming it (m.release lba w) ≡ lib.upcoming it w
  pub list_keep : (it : RangeIter) (w : m.World) → trimmed ((lister it w).1) ≡ trimmed w

module _ (m : Media) (lister : Lister m) (lib : IsLister m lister) (caps : Capabilities)
    (quiet : TrimsQuietly m lister lib) where
  open quiet use {trimmed}

  take_all_keep : (iovs : List Iov) (w : m.World) → trimmed (take_all m iovs w) ≡ trimmed w
  take_all_keep [] w = refl
  take_all_keep (iov ∷ iovs) w =
      take_all_keep iovs ((m.acquire iov.iov_lba w).1) ∙ quiet.acquire_keep iov.iov_lba w

  take_all_come :
      (iovs : List Iov) (w : m.World) (it : RangeIter)
      → lib.upcoming it (take_all m iovs w) ≡ lib.upcoming it w
  take_all_come [] w it = refl
  take_all_come (iov ∷ iovs) w it =
      take_all_come iovs ((m.acquire iov.iov_lba w).1) it ∙ quiet.acquire_come iov.iov_lba w it

  release_all_keep : (iovs : List Iov) (w : m.World) → trimmed (release_all m iovs w) ≡ trimmed w
  release_all_keep [] w = refl
  release_all_keep (iov ∷ iovs) w =
      release_all_keep iovs (m.release iov.iov_lba w) ∙ quiet.release_keep iov.iov_lba w

  release_all_come :
      (iovs : List Iov) (w : m.World) (it : RangeIter)
      → lib.upcoming it (release_all m iovs w) ≡ lib.upcoming it w
  release_all_come [] w it = refl
  release_all_come (iov ∷ iovs) w it =
      release_all_come iovs (m.release iov.iov_lba w) it ∙ quiet.release_come iov.iov_lba w it

  status_success : (s : Status) → status_of m caps s ≡ success → s ≡ success
  status_success success h = refl
  status_success (failure c) h = cc

  pub batch_sent :
      (iovs : List Iov) (w : m.World)
      → (batch_delete m caps iovs w).0 ≡ success
      → trimmed ((batch_delete m caps iovs w).1) ≡ trimmed w ++ iovs
  unfolding batch_delete
  batch_sent iovs w h =
      quiet.written iovs w (status_success ((m.nvm_writev no_buffers [] iovs w).0) h)

  pub batch_come :
      (iovs : List Iov) (w : m.World) (it : RangeIter)
      → lib.upcoming it ((batch_delete m caps iovs w).1) ≡ lib.upcoming it w
  unfolding batch_delete
  batch_come iovs w it = quiet.write_keep iovs w it

  -- Batches without the safe list, as the deletion of pools sends them.
  abbrev pub batch_delete-SendsTrims : SendsTrims m lister lib (batch_delete m caps)
  batch_delete-SendsTrims = record {
    trimmed = trimmed;
    sent = batch_sent;
    send_keep = batch_come;
    list_keep = quiet.list_keep;
  }

  pub batch_error :
      (iovs : List Iov) (w : m.World) (c : ErrorCode)
      → (batch_delete m caps iovs w).0 ≡ failure c
      → c ≡ io
  unfolding batch_delete
  batch_error iovs w c h = io_only ((m.nvm_writev no_buffers [] iovs w).0) h
    where
      io_only : (s : Status) → status_of m caps s ≡ failure c → c ≡ io
      io_only success h = cc
      io_only (failure e) h = cc

  sync_sent :
      (iovs : List Iov) (w : m.World)
      → (send_sync m lister caps iovs w).0 ≡ success
      → trimmed ((send_sync m lister caps iovs w).1) ≡ trimmed w ++ iovs
  unfolding batch_delete_sync
  sync_sent iovs w h =
      let w1 = take_all m iovs w in
      release_all_keep iovs ((batch_delete m caps iovs w1).1)
      ∙ batch_sent iovs w1 h
      ∙ ap (λ (x : List Iov). x ++ iovs) (take_all_keep iovs w)

  sync_come :
      (iovs : List Iov) (w : m.World) (it : RangeIter)
      → lib.upcoming it ((send_sync m lister caps iovs w).1) ≡ lib.upcoming it w
  unfolding batch_delete_sync
  sync_come iovs w it =
      let w1 = take_all m iovs w in
      release_all_come iovs ((batch_delete m caps iovs w1).1) it
      ∙ batch_come iovs w1 it
      ∙ take_all_come iovs w it

  sync_error :
      (iovs : List Iov) (w : m.World) (c : ErrorCode)
      → (send_sync m lister caps iovs w).0 ≡ failure c
      → c ≡ io
  unfolding batch_delete_sync
  sync_error iovs w c h = batch_error iovs (take_all m iovs w) c h

  abbrev sync-SendsTrims : SendsTrims m lister lib (send_sync m lister caps)
  sync-SendsTrims = record {
    trimmed = trimmed;
    sent = sync_sent;
    send_keep = sync_come;
    list_keep = quiet.list_keep;
  }

  abbrev pub every : BlockRange → Bool
  every r = true

  -- How a deletion of the ranges `todo` ends.
  pub data DeletesKeys (todo : List BlockRange) (w : m.World) (o : Option (Result ℕ × m.World))
      : Type 0 where
    all_deleted :
        (w' : m.World)
        → o ≡ some (ok 0, w')
        → trimmed w' ≡ trimmed w ++ trims_of caps every todo
        → DeletesKeys todo w o
    not_written :
        (b : List Iov) (v w' : m.World)
        → (send_sync m lister caps b v).0 ≡ failure io
        → o ≡ some (err io, w')
        → DeletesKeys todo w o

  finished_all :
      (todo : List BlockRange) (w : m.World) (o : Option (Result ℕ × m.World))
      → Finishes m lister lib caps every
          (every_range m lister caps)
          (send_sync m lister caps)
          sync-SendsTrims
          todo
          []
          w
          o
      → DeletesKeys todo w o
  finished_all todo w o (failed c b v w' e bad) =
      let same = sync_error b v c bad in
      not_written b v w' (bad ∙ ap failure same) (e ∙ ap (λ (x : ErrorCode). some (err x, w')) same)
  finished_all todo w o (finished n w' e done (inl zero_code)) =
      all_deleted w' (e ∙ ap (λ (x : ℕ). some (ok x, w')) zero_code)
        (done ∙ ap (λ (x : List Iov). x ++ trims_of caps every todo) (append-nil (trimmed w)))
  finished_all todo w o (finished n w' e done (inr (page, count, none_chosen))) =
      all_deleted w' (e ∙ ap (λ (x : ℕ). some (ok x, w')) (count ∙ no_page page none_chosen))
        (done ∙ ap (λ (x : List Iov). x ++ trims_of caps every todo) (append-nil (trimmed w)))
    where
      no_page : (page : List BlockRange) → trims_of caps every page ≡ [] → length page ≡ 0
      no_page [] h = refl
      no_page (r ∷ rs) h = cc

  -- While nothing else changes the media, where the device lists at least one range at a time and no
  -- range of the user's data is longer than one trim may be: delete_all ends. It returns 0, and then
  -- every range of the user's data that the device lists was trimmed whole, in order and once; or a batch
  -- of trims fails, and it returns NVM_ERR_IO.
  pub delete_all-DeletesKeys :
      (fuel max_ranges data_start_lba kv_len num_keys : ℕ) (cache : Option KvCache) (w : m.World)
      → let it =
          unfiltered m lister caps max_ranges data_start_lba
            ((kv_len + 2 ^ 64 - data_start_lba) % 2 ^ 64) in
        0 < max_ranges
        → Fit caps every (lib.upcoming it w)
        → length (lib.upcoming it w) < fuel
        → DeletesKeys
            (lib.upcoming it w)
            w
            ((delete_all m lister caps fuel max_ranges data_start_lba kv_len num_keys cache w).1)
  unfolding delete_all delete_all_keys
  delete_all-DeletesKeys fuel max_ranges data_start_lba kv_len num_keys cache w some_room fit
        enough =
      finished_all _ w _ (
        sweep_all-Finishes m lister lib caps every (every_range m lister caps)
          (send_sync m lister caps) sync-SendsTrims fuel _ [] w (λ r ret v. refl) some_room fit
          enough)
