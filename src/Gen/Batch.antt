-- ===== src/Gen/Batch.antt =====
-- kv_gen_lba of src/kv_store_mgr.cpp as kv_batch_put calls it from its second pair on: with the flag of
-- the pair before.
use nvmkv.Prelude.{
  ℕ, ◌≡◌, Bool, true, false, Option, none, some, List, ltb, if◌then◌else◌, Bool-cases, inl, inr,
  refl, sym, ◌∙◌, ap,
}
use nvmkv.Error.{success, failure, object_exists, Result, ok}
use nvmkv.Write.{KvHeader}
use nvmkv.Media.{Media, Store, Reading, holds_key, probe_lba, is_aligned}
use nvmkv.Media.Quiet.{Pair, IsQuiet, pair_holds, pair_expired, kv_expire-pair_expired, range_of}
use nvmkv.Gen.{
  GenArgs, LbaList, lba_find, walk_list, Start, start, Gen, ReadEnd, returned, left, settle,
  note_trim, on_key, on_replace, on_reading, gen_read, gen_reads, on_range, on_left, after_reads,
  after_range, gen_loop, gen_from, kv_gen_lba,
}
use nvmkv.Gen.AtKey.{read_pair}

module _ (m : Media) (st : Store) (a : GenArgs) (q : IsQuiet m) (held : List ℕ) where
  open m use {World}

  abbrev flagged : World → Gen World
  flagged w = record { trim_len = 0; insert_lba = true; held = held; world = w }

  note_trim_keeps :
      (hdr : KvHeader) (w : World)
      → ((note_trim m st a hdr (flagged w)).insert_lba ≡ true)
        × ((note_trim m st a hdr (flagged w)).held ≡ held)
  note_trim_keeps hdr w = elim (Bool-cases (ltb a.value_len hdr.value_len)) [
    | inl longer ↦ rw longer (refl, refl)
    | inr shorter ↦ rw shorter (refl, refl)
  ]

  on_key-flagged :
      (lba : ℕ) (hdr : KvHeader) (w : World)
      → a.replace ≡ true
      → on_key m st a lba hdr success (flagged w) ≡ (left, note_trim m st a hdr (flagged w))
  unfolding on_key on_replace
  on_key-flagged lba hdr w replaces =
      ap
        (λ (b : Bool).
          if b
          then on_replace m st a lba hdr (flagged w)
          else (returned (failure object_exists), flagged w))
        replaces

  on_reading-flagged :
      (r : Reading) (p : Pair) (lba : ℕ) (v w : World)
      → r.header ≡ p.header
      → holds_key r a.key a.pool_id ≡ true
      → pair_expired st.expiry_mode p.header q.now ≡ false
      → a.replace ≡ true
      → (w' : World) × (on_reading m st a lba (flagged v) (ok r, w)
          ≡ (left, note_trim m st a p.header (flagged w')))
  unfolding on_reading
  on_reading-flagged r p lba v w header same live replaces =
      let (w', checked, kept) = kv_expire-pair_expired m q st.expiry_mode p.header lba w in
      (w', rw (same, header, checked, live) (on_key-flagged lba p.header w' replaces))

  on_absent :
      (lbas : LbaList)
      → lba_find lbas (probe_lba st a.key a.pool_id 0) ≡ none
      → walk_list st a lbas 7 0 ≡ start 0
  unfolding walk_list
  on_absent lbas absent = rw (walk_list, absent) refl

  first_left :
      (lba : ℕ) (w w' : World) (x : ℕ) (g : Gen World)
      → m.kv_range_exists lba st.max_search_range w ≡ (ok x, w')
      → gen_read m st a lba (flagged w') ≡ (left, g)
      → g.insert_lba ≡ true
      → lba ≡ probe_lba st a.key a.pool_id 0
      → gen_loop m st a 8 0 (flagged w) ≡ some (success, lba, g)
  unfolding gen_loop on_range gen_reads
  first_left lba w w' x g found reads taken here =
      let next = gen_loop m st a 7 1 in
      ap
        (λ (lba : ℕ).
          after_range m st a next lba
            (on_range m st a lba (flagged w) (m.kv_range_exists lba st.max_search_range w)))
        (sym here)
      ∙ ap
          (λ (y : Result ℕ × World).
            after_range m st a next lba (on_range m st a lba (flagged w) y))
          found
      ∙ ap
          (λ (y : ReadEnd × Gen World).
            after_reads m st a next lba (settle m st a (gen_reads m st a 1 lba) y))
          reads
      ∙ ap (on_left m st a next lba g) taken

-- While no other thread acts on the media, with a buffer that is aligned to the sectors: where kv_gen_lba is called for a batch with its flag set,
-- as kv_batch_put does behind the first pair, no pair of the batch has the first probe of the key, and
-- the key stands there, has not expired and is to be replaced, it succeeds at that LBA and does not
-- take it.
pub kv_gen_lba_untaken :
    (m : Media) (st : Store) (a : GenArgs) (q : IsQuiet m) (lbas : LbaList) (held : List ℕ)
    (w : m.World) (p : Pair)
    → let lba = probe_lba st a.key a.pool_id 0 in
      is_aligned q.sector_size a.buf ≡ true
      → lba_find lbas lba ≡ none
      → q.contents w lba ≡ some p
      → pair_holds (some p) a.key a.pool_id ≡ true
      → pair_expired st.expiry_mode p.header q.now ≡ false
      → a.replace ≡ true
      → (g : Gen m.World) × (kv_gen_lba m st a (some lbas) true held w ≡ some (success, lba, g))
        × (g.held ≡ held)
unfolding kv_gen_lba gen_from
kv_gen_lba_untaken m st a q lbas held w p aligned absent there same live replaces =
    let lba = probe_lba st a.key a.pool_id 0 in
    let ranged = m.kv_range_exists lba st.max_search_range w in
    let w' = ranged.1 in
    let kept = q.ranges_keep lba st.max_search_range w in
    let there' : q.contents w' lba ≡ some p = ap (λ (c : ℕ → Option Pair). c lba) kept ∙ there in
    let (r, w2, reads, header, holds, kept') =
      read_pair m st a q held p lba (flagged m st a q held w') aligned there' in
    let found : (m.kv_range_exists lba st.max_search_range w).0 ≡ ok (p.sectors) =
      q.ranges lba st.max_search_range w ∙ ap range_of there in
    let (w3, e) =
      on_reading-flagged m st a q held r p lba w' w2 header (holds ∙ same) live replaces in
    let g = note_trim m st a p.header (flagged m st a q held w3) in
    let (taken, locks) = note_trim_keeps m st a q held p.header w3 in
    (
      g,
      ap (λ (s : Start). gen_from m st a s (flagged m st a q held w))
            (on_absent m st a q held lbas absent)
          ∙ first_left m st a q held lba w w' p.sectors g (ap (λ (y : Result ℕ). (y, w')) found)
              (reads ∙ e) taken refl,
      locks,
    )
