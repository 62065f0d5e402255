-- ===== src/Exists/Agree.antt =====
-- What kv_exists of src/kv_store_mgr.cpp returns while no other thread acts on the media.
use mathlib.Core.Path.{subst}
use nvmkv.Prelude.{
  ℕ, zero, suc, ◌+◌, ◌≡◌, ◌⊎◌, Bool, true, false, Option, none, some, List, [], ◌∷◌, ◌==◌,
  if◌then◌else◌, Bool-cases, inl, inr, refl, sym, ◌∙◌, ap,
}
use nvmkv.Error.{object_not_found, Status, success, failure, Result, ok, err}
use nvmkv.Write.{KvHeader}
use nvmkv.Media.{ReadIov, Reading, Media, Store, is_not_found, probe_lba, kv_expire, is_aligned}
use nvmkv.Media.Quiet.{
  Pair, IsQuiet, readable_one, Writes, pair_holds, pair_expired, holds_key-pair, kv_expire-live,
  range_of, first_round, first_match, first_round-passed, first_round-matched,
}
use nvmkv.Media.Expiry.{queue_status, kv_expire-queue_status}
use nvmkv.Exists.{
  Looked, gives, goes_on, buffer_of, look_reading, look_range, look_next, exists_loop, exists_with,
  exists_result, kv_exists,
}

-- The result for a pair of the key.
abbrev pub PairResult : (m : Media) → Store → ℕ → ℕ → Pair → Status × KvHeader → Type 0
PairResult m st now lba p (s, hdr) =
    ((pair_expired st.expiry_mode p.header now ≡ false) × (s ≡ success) × (hdr ≡ p.header))
    ⊎ ((pair_expired st.expiry_mode p.header now ≡ true)
        × ((v : m.World) × (s ≡ queue_status ((m.update_expiry_queue lba p.header v).0))))

module _ (m : Media) (st : Store) (key : List ℕ) (pool_id : ℕ) (q : IsQuiet m) (buf : ℕ)
    (stale : Reading) where
  open m use {World}

  abbrev key_at : (ℕ → Option Pair) → ℕ → Bool
  key_at pairs itr = pair_holds (pairs (probe_lba st key pool_id itr)) key pool_id

  -- What the loop returns for the round that the reference search found.
  abbrev pub ExistsAs : (ℕ → Option Pair) → Option ℕ → Status × KvHeader → Type 0
  ExistsAs pairs none r = r.0 ≡ failure object_not_found
  ExistsAs pairs (some itr) r =
      (p : Pair) × (pairs (probe_lba st key pool_id itr) ≡ some p)
      × PairResult m st q.now (probe_lba st key pool_id itr) p r

  -- What a round comes to at an LBA, by the pair there.
  abbrev LooksAt : ℕ → World → Option Pair → Looked × World → Type 0
  LooksAt lba w none (gives s hdr, w') = ⊥
  LooksAt lba w none (goes_on, w') = q.contents w' ≡ q.contents w
  LooksAt lba w (some p) (gives s hdr, w') =
      (pair_holds (some p) key pool_id ≡ true) × PairResult m st q.now lba p (s, hdr)
  LooksAt lba w (some p) (goes_on, w') =
      (pair_holds (some p) key pool_id ≡ false) × (q.contents w' ≡ q.contents w)

  expire-PairResult :
      (p : Pair) (lba : ℕ) (w : World)
      → PairResult m st q.now lba p ((kv_expire m st.expiry_mode p.header lba true w).0, p.header)
  expire-PairResult p lba w = elim (Bool-cases (pair_expired st.expiry_mode p.header q.now)) [
    | inl old ↦ inr (old, kv_expire-queue_status m q st.expiry_mode p.header lba w old)
    | inr live ↦ inl (live, kv_expire-live m q st.expiry_mode p.header lba w live, refl)
  ]

  look_reading-LooksAt :
      (p : Pair) (lba : ℕ) (r : Reading) (w w' : World)
      → (r.read_len == 0) ≡ false
      → r.header ≡ p.header
      → r.body ≡ p.body
      → q.contents w' ≡ q.contents w
      → LooksAt lba w (some p) (look_reading m st key pool_id buf stale lba (r, w'))
  unfolding look_reading
  look_reading-LooksAt p lba r w w' some_read header body kept =
      let holds = holds_key-pair r p key pool_id header body in
      elim (Bool-cases (pair_holds (some p) key pool_id)) [
        | inl same ↦ rw (some_read, holds ∙ same, header) (same, expire-PairResult p lba w')
        | inr other ↦ rw (some_read, holds ∙ other) (other, kept)
      ]

  look_range-LooksAt :
      (o : Option Pair) (lba : ℕ) (w w' : World)
      → is_aligned q.sector_size buf ≡ true
      → q.contents w lba ≡ o
      → q.contents w' ≡ q.contents w
      → LooksAt lba w o (look_range m st key pool_id buf stale lba (range_of o, w'))
  unfolding look_range
  look_range-LooksAt none lba w w' aligned free kept = kept
  look_range-LooksAt (some p) lba w w' aligned there kept =
      let iov : ReadIov = record { iov_base = buf; iov_len = st.sector_size; iov_lba = lba } in
      let (len, header, body) =
        q.pair iov [] w' p (ap (λ (c : ℕ → Option Pair). c lba) kept ∙ there) in
      let got = m.nvm_readv (iov ∷ []) w' in
      subst
        (λ (x : Result Reading).
          LooksAt lba w (some p)
            (look_reading m st key pool_id buf stale lba (buffer_of stale x, got.1)))
        (sym (q.reads (iov ∷ []) w' (readable_one q iov aligned)))
        (look_reading-LooksAt p lba (q.reading (iov ∷ []) w') w (got.1) len header body
          (q.reads_keep (iov ∷ []) w' ∙ kept))

  abbrev LoopExists : World → Option ℕ → (Status × KvHeader) × World → Type 0
  LoopExists w chosen r = ExistsAs (q.contents w) chosen (r.0)

  -- A round that goes on, and the rest of the loop.
  pass_on :
      (n itr : ℕ) (w w' : World)
      → key_at (q.contents w) itr ≡ false
      → q.contents w' ≡ q.contents w
      → LoopExists w'
          (first_round (key_at (q.contents w')) n (itr + 1))
          (exists_loop m st key pool_id buf stale n (itr + 1) w')
      → LoopExists w
          (first_round (key_at (q.contents w)) (suc n) itr)
          (exists_loop m st key pool_id buf stale n (itr + 1) w')
  pass_on n itr w w' no_key kept behind =
      rw (first_round-passed (key_at (q.contents w)) n itr no_key) (
        subst
          (λ (c : ℕ → Option Pair).
            ExistsAs c (first_round (key_at c) n (itr + 1))
              ((exists_loop m st key pool_id buf stale n (itr + 1) w').0))
          kept behind)

  look_next-LoopExists :
      (n itr : ℕ) (w : World) (o : Option Pair) (x : Looked × World)
      → q.contents w (probe_lba st key pool_id itr) ≡ o
      → LooksAt (probe_lba st key pool_id itr) w o x
      → ((w' : World)
          → LoopExists w'
              (first_round (key_at (q.contents w')) n (itr + 1))
              (exists_loop m st key pool_id buf stale n (itr + 1) w'))
      → LoopExists w (first_round (key_at (q.contents w)) (suc n) itr) (
          look_next m st key pool_id buf stale
            (exists_loop m st key pool_id buf stale n (itr + 1))
            x)
  look_next-LoopExists n itr w none (gives s hdr, w') free l behind = absurd l
  look_next-LoopExists n itr w none (goes_on, w') free kept behind =
      pass_on n itr w w' (rw free refl) kept (behind w')
  look_next-LoopExists n itr w (some p) (goes_on, w') there (other, kept) behind =
      pass_on n itr w w' (rw there other) kept (behind w')
  look_next-LoopExists n itr w (some p) (gives s hdr, w') there (same, result) behind =
      rw (first_round-matched (key_at (q.contents w)) n itr (rw there same)) (p, there, result)

  exists_loop-LoopExists :
      (n itr : ℕ) (w : World)
      → is_aligned q.sector_size buf ≡ true
      → LoopExists w
          (first_round (key_at (q.contents w)) n itr)
          (exists_loop m st key pool_id buf stale n itr w)
  unfolding exists_loop first_round
  exists_loop-LoopExists zero itr w aligned = refl
  exists_loop-LoopExists (suc n) itr w aligned =
      let lba = probe_lba st key pool_id itr in
      let got = m.kv_range_exists lba st.max_search_range w in
      let looked =
        subst
          (λ (x : Result ℕ).
            LooksAt lba w (q.contents w lba) (look_range m st key pool_id buf stale lba (x, got.1)))
          (sym (q.ranges lba st.max_search_range w))
          (look_range-LooksAt (q.contents w lba) lba w (got.1) aligned refl
            (q.ranges_keep lba st.max_search_range w)) in
      look_next-LoopExists n itr w (q.contents w lba) _ refl looked
        (λ w'. exists_loop-LoopExists n (itr + 1) w' aligned)

-- What kv_exists returns where the pair has expired: 0 where the expiry queue takes it, or reports that
-- it is missing, and otherwise the error of the queue.
abbrev pub queued_result : Status → Result (Option KvHeader)
queued_result success = ok none
queued_result (failure c) = if is_not_found c then ok none else err c

-- What kv_exists returns for a pair of the key, or for none.
abbrev pub Reports :
    (m : Media)
    → Store
    → List ℕ
    → ℕ
    → ℕ
    → (ℕ → Option Pair)
    → Option ℕ
    → Result (Option KvHeader)
    → Type 0
Reports m st key pool_id now pairs none r = r ≡ ok none
Reports m st key pool_id now pairs (some itr) r =
    (p : Pair) × (pairs (probe_lba st key pool_id itr) ≡ some p)
    × (((pair_expired st.expiry_mode p.header now ≡ false) × (r ≡ ok (some p.header)))
        ⊎ ((pair_expired st.expiry_mode p.header now ≡ true)
            × ((v : m.World) × (r
                  ≡ queued_result
                      ((m.update_expiry_queue (probe_lba st key pool_id itr) p.header v).0)))))

queued_result-exists_result :
    (s : Status) (hdr : KvHeader) → exists_result (queue_status s, hdr) ≡ queued_result s
queued_result-exists_result success hdr = refl
queued_result-exists_result (failure c) hdr = refl

module _ (m : Media) (st : Store) (key : List ℕ) (pool_id : ℕ) (q : IsQuiet m) where
  reports :
      (buf : ℕ) (stale : Reading) (pairs : ℕ → Option Pair) (o : Option ℕ) (r : Status × KvHeader)
      → ExistsAs m st key pool_id q buf stale pairs o r
      → Reports m st key pool_id q.now pairs o (exists_result r)
  reports buf stale pairs none (s, hdr) e = ap (λ (x : Status). exists_result (x, hdr)) e
  reports buf stale pairs (some itr) (s, hdr) (p, there, inl (live, e, h)) =
      (p, there, inl (live, λ j. exists_result (e j, h j)))
  reports buf stale pairs (some itr) (s, hdr) (p, there, inr (old, (v, e))) = (
    p,
    there,
    inr (
      old,
      (v, ap (λ (x : Status). exists_result (x, hdr)) e ∙ queued_result-exists_result _ hdr),
    ),
  )

-- While no other thread acts on the media, with a buffer that is aligned and large enough, kv_exists returns 0
-- where none of the 8 probes holds the key and the pool, and otherwise decides by the pair at the
-- first one that does: it returns 1 and its header where
-- the pair has not expired. Where it has, the pair is handed to the expiry queue, and kv_exists returns 0
-- where the queue takes it or reports that it is missing, and otherwise the error of the queue.
pub kv_exists-Reports :
    (m : Media) (st : Store) (key : List ℕ) (pool_id : ℕ) (q : IsQuiet m) (ws : Writes m q)
    (stale : Reading) (w : m.World)
    → Reports m st key pool_id q.now
        (q.contents w)
        (first_match (q.contents w) st key pool_id)
        ((kv_exists m st key pool_id stale w).0)
unfolding kv_exists exists_with first_match
kv_exists-Reports m st key pool_id q ws stale w =
    let n = st.sector_size in
    let w' = (m.get_buf n w).1 in
    let loop =
      exists_loop-LoopExists m st key pool_id q (ws.address n w) stale 8 0 w'
        (ws.buffer_aligned n w) in
    let found =
      subst
        (λ (c : ℕ → Option Pair).
          ExistsAs m st key pool_id q (ws.address n w) stale c (first_match c st key pool_id)
            ((exists_loop m st key pool_id (ws.address n w) stale 8 0 w').0))
        (ws.buffer_keep n w) loop in
    rw (ws.buffer n w, ws.buffer_fits n w)
      (reports m st key pool_id q (ws.address n w) stale (q.contents w) _ _ found)
