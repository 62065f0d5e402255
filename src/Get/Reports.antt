-- ===== src/Get/Reports.antt =====
-- What kv_get of src/kv_store_mgr.cpp returns while no other thread acts on the media.
use mathlib.Core.Path.{subst}
use nvmkv.Prelude.{
  ℕ, ◌-◌, ◌≡◌, ◌⊎◌, true, false, Option, none, some, ltb, if◌then◌else◌, Bool-cases, inl, inr, refl,
  ◌∙◌, ap, arith,
}
use nvmkv.Error.{object_not_found, Status, success, failure, Result, ok, err}
use nvmkv.Write.{KvHeader}
use nvmkv.Media.{Media, Store, probe_lba, kv_expire, is_aligned}
use nvmkv.Media.Quiet.{Pair, IsQuiet, Writes, pair_expired, kv_expire-live, first_match}
use nvmkv.Media.Expiry.{queue_status, kv_expire-queue_status}
use nvmkv.Read.{Found, kv_read_media}
use nvmkv.Read.Search.{Returns, kv_read_media-first_match}
use nvmkv.Get.{
  GetArgs, KeyInfo, Got, get_args, fill_result, on_expiry, on_found, with_buffer, kv_get,
}

-- The result for a pair: its lengths, its expiry and its generation count, and as many bytes as the
-- value and the caller's buffer both have.
abbrev pub Gives : ℕ → KvHeader → Got → Type 0
Gives value_len hdr g =
    (g.key_info.key_len ≡ hdr.key_len)
    × (g.key_info.value_len ≡ hdr.value_len)
    × (g.key_info.expiry ≡ hdr.expiry)
    × (g.key_info.gen_count ≡ hdr.gen_count)
    × (g.ret_read_len ≡ value_len - (value_len - hdr.value_len))

-- The result for a pair that has expired, by what the expiry queue returned for it.
abbrev pub expired_result : Status → Result Got
expired_result success = err object_not_found
expired_result (failure c) = err c

-- What kv_get returns for the round that the reference search found.
abbrev pub Gets :
    (m : Media) → Store → GetArgs → ℕ → (ℕ → Option Pair) → Option ℕ → Result Got → Type 0
Gets m st a now pairs none r = r ≡ err object_not_found
Gets m st a now pairs (some itr) r =
    (p : Pair) × (pairs (probe_lba st a.key a.pool_id itr) ≡ some p)
    × (((pair_expired st.expiry_mode p.header now ≡ false)
          × ((g : Got) × (r ≡ ok g) × Gives a.value_len p.header g))
        ⊎ ((pair_expired st.expiry_mode p.header now ≡ true)
            × ((v : m.World) × (r
                  ≡ expired_result
                      ((m.update_expiry_queue (probe_lba st a.key a.pool_id itr) p.header v).0)))))

module _ (m : Media) (st : Store) (a : GetArgs) (info : KeyInfo) where
  shorter_len : (n l : ℕ) → (if ltb n l then n else l) ≡ n - (n - l)
  shorter_len n l = ground arith

  fill_result-Gives : (hdr : KvHeader) → Gives a.value_len hdr (fill_result m st a info hdr)
  unfolding fill_result
  fill_result-Gives hdr = (refl, refl, refl, refl, shorter_len a.value_len hdr.value_len)

  on_expiry-expired_result :
      (hdr : KvHeader) (s : Status) → on_expiry m st a info hdr (queue_status s) ≡ expired_result s
  unfolding on_expiry
  on_expiry-expired_result hdr success = refl
  on_expiry-expired_result hdr (failure c) = refl

  on_found-Gets :
      (q : IsQuiet m) (pairs : ℕ → Option Pair) (args : ℕ) (o : Option ℕ) (r : Result Found)
      (w : m.World)
      → Returns m st q pairs (get_args m st a args) o r
      → Gets m st a q.now pairs o ((on_found m st a info (r, w)).0)
  unfolding on_found on_expiry
  on_found-Gets q pairs args none r w e =
      ap (λ (x : Result Found). (on_found m st a info (x, w)).0) e
  on_found-Gets q pairs args (some itr) r w (f, p, e, here, there, header, body) =
      let lba = probe_lba st a.key a.pool_id itr in
      let hdr = p.header in
      let result : Result Found → Result Got = λ x. (on_found m st a info (x, w)).0 in
      let checked = kv_expire m st.expiry_mode hdr f.lba true w in
      let done : result r ≡ on_expiry m st a info hdr (checked.0) =
        ap result e
        ∙ ap
            (λ (h : KvHeader).
              on_expiry m st a info h ((kv_expire m st.expiry_mode h f.lba true w).0))
            header in
      elim (Bool-cases (pair_expired st.expiry_mode hdr q.now)) [
        | inl old ↦
            let (v, gone) = kv_expire-queue_status m q st.expiry_mode hdr f.lba w old in
            (
              p,
              there,
              inr (
                old,
                (
                  v,
                  done
                      ∙ ap (on_expiry m st a info hdr) gone
                      ∙ on_expiry-expired_result hdr _
                      ∙ ap (λ (l : ℕ). expired_result ((m.update_expiry_queue l hdr v).0)) here,
                ),
              ),
            )
        | inr live ↦
            let fresh = kv_expire-live m q st.expiry_mode hdr f.lba w live in
            (
              p,
              there,
              inl (
                live,
                (
                  fill_result m st a info hdr,
                  done ∙ ap (on_expiry m st a info hdr) fresh,
                  fill_result-Gives hdr,
                ),
              ),
            )
      ]

-- While no other thread acts on the media, with a buffer of the pool that is aligned and large enough and
-- a buffer for the value that is aligned, kv_get decides by the pair at the first of the 8 probes that
-- holds the key and the pool. Where there is none it returns that the object is missing. Where that pair
-- has expired it is handed to the expiry queue, and kv_get returns that the object is missing where the
-- queue takes it, and otherwise the error of the queue; where it has not expired kv_get succeeds, fills
-- key_info from the pair's header, and returns the smaller one of the value's length and the length that
-- the caller gave.
pub kv_get-Gets :
    (m : Media) (st : Store) (a : GetArgs) (q : IsQuiet m) (ws : Writes m q) (info : KeyInfo)
    (w : m.World)
    → is_aligned q.sector_size a.value ≡ true
    → Gets m st a q.now
        (q.contents w)
        (first_match (q.contents w) st a.key a.pool_id)
        ((kv_get m st a info w).0)
unfolding kv_get with_buffer
kv_get-Gets m st a q ws info w aligned =
    let n = st.sector_size in
    let w' = (m.get_buf n w).1 in
    let args = get_args m st a (ws.address n w) in
    let (found, kept) = kv_read_media-first_match m st q args w' (ws.buffer_aligned n w, aligned) in
    let r = kv_read_media m st args w' in
    let gets =
      subst
        (λ (c : ℕ → Option Pair).
          Gets m st a q.now c (first_match c st a.key a.pool_id) ((on_found m st a info r).0))
        (ws.buffer_keep n w)
        (on_found-Gets m st a info q (q.contents w') (ws.address n w) _ (r.0) (r.1) found) in
    rw (ws.buffer n w, ws.buffer_fits n w) gets
