-- ===== src/Exists.antt =====
-- src/kv_store_mgr.cpp: kv_range_exist_wrapper, and behind its validation kv_exists, which calls it.
pub mod Agree
use nvmkv.Prelude.{
  ℕ, zero, suc, ◌+◌, Bool, true, false, not, ◌&&◌, Option, none, some, List, [], ◌∷◌, ltb, ◌==◌,
  if◌then◌else◌,
}
use nvmkv.Error.{
  ErrorCode, internal_failure, out_of_memory, object_not_found, Status, success, failure, Result,
  ok, err,
}
use nvmkv.Write.{KvHeader}
use nvmkv.Media.{
  ReadIov, Reading, Media, Store, max_collision, probe_lba, holds_key, is_not_found, kv_expire,
}

-- What a round comes to: the function returns, with the header where it succeeds, or the search goes
-- on.
pub data Looked : Type 0 where
  gives : Status → KvHeader → Looked
  goes_on : Looked

-- `read_bytes` is unsigned, so an error of `nvm_readv` passes for bytes that were read, and the buffer
-- holds what it held before: `stale`.
abbrev pub buffer_of : Reading → Result Reading → Reading
buffer_of stale (ok r) = r
buffer_of stale (err c) = record stale { read_len = 1 }

-- What `kv_exists` returns: 0, 1 with the header that it copies to `key_info`, or an error.
abbrev pub exists_result : Status × KvHeader → Result (Option KvHeader)
exists_result (success, hdr) = ok (some hdr)
exists_result (failure c, hdr) = if is_not_found c then ok none else err c

module _ (m : Media) (st : Store) (key : List ℕ) (pool_id : ℕ) where
  open m use {World, kv_range_exists, nvm_readv, get_buf, release_buf}

  module _ (buf : ℕ) (stale : Reading) where
    -- The match, and what expires is queued for its deletion.
    pub look_reading : ℕ → Reading × World → Looked × World
    look_reading lba (r, w) =
        let checked = kv_expire m st.expiry_mode r.header lba true w in
        if not (r.read_len == 0) && holds_key r key pool_id
        then (gives (checked.0) r.header, checked.1)
        else (goes_on, w)

    pub look_range : ℕ → Result ℕ × World → Looked × World
    unfolding look_reading
    look_range lba (ok found, w) =
        let iov : ReadIov = record { iov_base = buf; iov_len = st.sector_size; iov_lba = lba } in
        let got = nvm_readv (iov ∷ []) w in look_reading lba (buffer_of stale (got.0), got.1)
    look_range lba (err c, w) =
        if is_not_found c then (goes_on, w) else (gives (failure internal_failure) stale.header, w)

    abbrev pub look_next :
        (World → (Status × KvHeader) × World) → Looked × World → (Status × KvHeader) × World
    look_next next (gives s hdr, w) = ((s, hdr), w)
    look_next next (goes_on, w) = next w

    -- The loop for KVEXISTS, with `n` rounds left from `itr` on.
    pub exists_loop : ℕ → ℕ → World → (Status × KvHeader) × World
    unfolding look_range
    exists_loop zero itr w = ((failure object_not_found, stale.header), w)
    exists_loop (suc n) itr w =
        let lba = probe_lba st key pool_id itr in
        look_next (exists_loop n (itr + 1))
          (look_range lba (kv_range_exists lba st.max_search_range w))

  -- The greatest length of a range so far, and the result of the last test.
  pub longest : ℕ → ℕ → ℕ → Status → World → Result ℕ × World
  longest zero itr max_val_len (failure c) w =
      (if ltb 0 max_val_len then ok max_val_len else err c, w)
  longest zero itr max_val_len success w = (ok max_val_len, w)
  longest (suc n) itr max_val_len last w =
      let got = kv_range_exists (probe_lba st key pool_id itr) st.max_search_range w in
      elim (got.0) [
        | ok found ↦
            longest n (itr + 1) (if ltb max_val_len found then found else max_val_len) success
              (got.1)
        | err c ↦ elim (is_not_found c) [
          | true ↦ longest n (itr + 1) max_val_len (failure c) (got.1)
          | false ↦ (err internal_failure, got.1)
        ]
      ]

  -- For KVGETVALLEN: the greatest length of a range at a probe of the key.
  pub kv_get_val_len : World → Result ℕ × World
  unfolding longest
  kv_get_val_len w = longest max_collision 0 0 success w

  -- For KVEXISTS: the buffer, the loop and the exit.
  pub exists_with : Reading → Option (ℕ × ℕ) × World → (Status × KvHeader) × World
  unfolding exists_loop
  exists_with stale (none, w) = ((failure out_of_memory, stale.header), w)
  exists_with stale (some (address, size), w) =
      let r = exists_loop address stale max_collision 0 w in
      if ltb size st.sector_size
      then ((failure out_of_memory, stale.header), w)
      else (r.0, release_buf size (r.1))

  pub kv_exists : Reading → World → Result (Option KvHeader) × World
  unfolding exists_with
  kv_exists stale w =
      let r = exists_with stale (get_buf st.sector_size w) in (exists_result (r.0), r.1)
