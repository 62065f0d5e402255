-- ===== src/Gen/Choice.antt =====
-- Which LBA kv_gen_lba of src/kv_store_mgr.cpp chooses while no other thread acts on the media.
use mathlib.Core.Path.{subst}
use nvmkv.Prelude.{
  ℕ, zero, suc, ◌+◌, ◌≡◌, ◌⊎◌, Bool, true, false, Option, none, some, List, Bool-cases,
  Option-cases, inl, inr, refl, ◌∙◌, ap,
}
use nvmkv.Error.{internal_failure, object_not_found, success, failure, err}
use nvmkv.Media.{Media, Store, probe_lba, is_aligned}
use nvmkv.Media.Quiet.{
  Pair, IsQuiet, pair_holds, range_of, first_round, first_round-passed, first_round-matched,
}
use nvmkv.Gen.{
  GenArgs, Gen, ReadEnd, returned, left, again, go, Generated, settle, on_reading, gen_read,
  gen_reads, after_range, after_reads, on_left, on_range, gen_loop, kv_gen_lba,
}
use nvmkv.Gen.AtKey
use nvmkv.Gen.AtKey.{usable, outcome, read_pair, on_reading_same, on_reading_other}

module _ (m : Media) (st : Store) (a : GenArgs) (q : IsQuiet m) (held : List ℕ) where
  open m use {World}

  abbrev fresh : World → Gen World
  fresh w = record { trim_len = 0; insert_lba = false; held = held; world = w }

  abbrev KeyChoice : Pair → (ℕ → Option Pair) → ReadEnd × Gen World → Type 0
  KeyChoice p pairs x = AtKey.KeyChoice m st a q held p pairs x

  -- The choice among `n` rounds from `itr` on.
  abbrev pub Chooses : (ℕ → Option Pair) → Option ℕ → Generated World → Type 0
  Chooses pairs none (s, lba, g) = s ≡ failure internal_failure
  Chooses pairs (some itr) (s, lba, g) =
      (lba ≡ probe_lba st a.key a.pool_id itr)
      × ((s, g.trim_len) ≡ outcome st a q.now (pairs (probe_lba st a.key a.pool_id itr)))

  abbrev usable_at : (ℕ → Option Pair) → ℕ → Bool
  usable_at pairs itr = usable (pairs (probe_lba st a.key a.pool_id itr)) a.key a.pool_id

  abbrev LoopChooses : World → Option ℕ → Option (Generated World) → Type 0
  LoopChooses w chosen o =
      (r : Generated World) × (o ≡ some r)
      × Chooses (q.contents w) chosen r
      × (q.contents (r.2.world) ≡ q.contents w)

  on_free :
      (next : Gen World → Option (Generated World)) (itr : ℕ) (w w' : World)
      → let lba = probe_lba st a.key a.pool_id itr in
        q.contents w lba ≡ none
        → q.contents w' ≡ q.contents w
        → LoopChooses w
            (some itr)
            (after_range m st a next lba (on_range m st a lba (fresh w) (err object_not_found, w')))
  unfolding on_range
  on_free next itr w w' free kept =
      let lba = probe_lba st a.key a.pool_id itr in
      rw (q.no_wait lba w', free) (_, refl, (refl, refl), q.acquire_keep lba w' ∙ kept)

  on_key_here :
      (next : Gen World → Option (Generated World)) (itr : ℕ) (w : World) (p : Pair) (g : Gen World)
      (x : ReadEnd × Gen World)
      → let lba = probe_lba st a.key a.pool_id itr in
        q.contents w lba ≡ some p
        → gen_read m st a lba g ≡ x
        → KeyChoice p (q.contents w) x
        → LoopChooses w (some itr) (after_range m st a next lba (go g))
  unfolding gen_reads
  on_key_here next itr w p g (again, g') there e c = absurd c
  on_key_here next itr w p g (returned s, g') there e (out, kept) = rw there (
    (s, probe_lba st a.key a.pool_id itr, g'),
    ap
        (λ (x : ReadEnd × Gen World).
          after_reads m st a next (probe_lba st a.key a.pool_id itr)
            (settle m st a (gen_reads m st a 1 (probe_lba st a.key a.pool_id itr)) x))
        e,
    (refl, out),
    kept,
  )
  on_key_here next itr w p g (left, g') there e (taken, out, kept) = rw there (
    (success, probe_lba st a.key a.pool_id itr, g'),
    ap
          (λ (x : ReadEnd × Gen World).
            after_reads m st a next (probe_lba st a.key a.pool_id itr)
              (settle m st a (gen_reads m st a 1 (probe_lba st a.key a.pool_id itr)) x))
          e
        ∙ ap (on_left m st a next (probe_lba st a.key a.pool_id itr) g') taken,
    (refl, out),
    kept,
  )

  on_key_other :
      (next : Gen World → Option (Generated World)) (lba : ℕ) (g : Gen World) (w : World)
      → gen_read m st a lba g ≡ (left, fresh w)
      → after_range m st a next lba (go g) ≡ next (fresh w)
  unfolding gen_reads
  on_key_other next lba g w e =
      ap
        (λ (x : ReadEnd × Gen World).
          after_reads m st a next lba (settle m st a (gen_reads m st a 1 lba) x))
        e

  -- A usable LBA, or the next round at the pairs as they were.
  abbrev Goes : World → ℕ → ℕ → Option (Generated World) → Type 0
  Goes w n itr o =
      (w' : World) × (o ≡ gen_loop m st a n (itr + 1) (fresh w')) × (q.contents w' ≡ q.contents w)

  at_pair :
      (n itr : ℕ) (w w' : World) (p : Pair)
      → let lba = probe_lba st a.key a.pool_id itr in
        let o = after_range m st a (gen_loop m st a n (itr + 1)) lba (go (fresh w')) in
        is_aligned q.sector_size a.buf ≡ true
        → q.contents w lba ≡ some p
        → q.contents w' ≡ q.contents w
        → ((pair_holds (some p) a.key a.pool_id ≡ true) × LoopChooses w (some itr) o)
          ⊎ ((pair_holds (some p) a.key a.pool_id ≡ false) × Goes w n itr o)
  unfolding on_reading
  at_pair n itr w w' p aligned there kept =
      let lba = probe_lba st a.key a.pool_id itr in
      let next = gen_loop m st a n (itr + 1) in
      let there' : q.contents w' lba ≡ some p = ap (λ (c : ℕ → Option Pair). c lba) kept ∙ there in
      let (r, w'', reads, header, holds, kept') =
        read_pair m st a q held p lba (fresh w') aligned there' in
      elim (Bool-cases (pair_holds (some p) a.key a.pool_id)) [
        | inl same ↦
            let choice =
              on_reading_same m st a q held r p lba w w'' header (holds ∙ same) (kept' ∙ kept) in
            inl (same, on_key_here next itr w p (fresh w') _ there reads choice)
        | inr other ↦
            let e = reads ∙ on_reading_other m st a q held r lba w' w'' (holds ∙ other) in
            inr (other, (w'', on_key_other next lba (fresh w') w'' e, kept' ∙ kept))
      ]

  -- Behind a round that goes on.
  go_on :
      (n itr : ℕ) (w w' : World) {o : Option (Generated World)}
      → o ≡ gen_loop m st a n (itr + 1) (fresh w')
      → q.contents w' ≡ q.contents w
      → LoopChooses w'
          (first_round (usable_at (q.contents w')) n (itr + 1))
          (gen_loop m st a n (itr + 1) (fresh w'))
      → LoopChooses w (first_round (usable_at (q.contents w)) n (itr + 1)) o
  go_on n itr w w' e kept (r, ends, choice, same) = (
    r,
    e ∙ ends,
    subst (λ (c : ℕ → Option Pair). Chooses c (first_round (usable_at c) n (itr + 1)) r) kept
        choice,
    same ∙ kept,
  )

  gen_loop-Chooses :
      (n itr : ℕ) (w : World)
      → is_aligned q.sector_size a.buf ≡ true
      → LoopChooses w
          (first_round (usable_at (q.contents w)) n itr)
          (gen_loop m st a n itr (fresh w))
  unfolding gen_loop first_round
  gen_loop-Chooses zero itr w aligned = (_, refl, refl, refl)
  gen_loop-Chooses (suc n) itr w aligned =
      let lba = probe_lba st a.key a.pool_id itr in
      let got = m.kv_range_exists lba st.max_search_range w in
      let kept = q.ranges_keep lba st.max_search_range w in
      let next = gen_loop m st a n (itr + 1) in
      let behind = λ (w' : World). gen_loop-Chooses n (itr + 1) w' aligned in
      elim (Option-cases (q.contents w lba)) [
        | inl free ↦
            let ranged = q.ranges lba st.max_search_range w ∙ ap range_of free in
            rw (first_round-matched (usable_at (q.contents w)) n itr (rw free refl))
              (rw ranged (on_free next itr w (got.1) free kept))
        | inr (p, there) ↦
            let ranged = q.ranges lba st.max_search_range w ∙ ap range_of there in
            elim (at_pair n itr w (got.1) p aligned there kept) [
              | inl (same, chosen) ↦
                  rw (first_round-matched (usable_at (q.contents w)) n itr (rw there same))
                    (rw ranged chosen)
              | inr (other, (w', e, kept')) ↦
                  rw (first_round-passed (usable_at (q.contents w)) n itr (rw there other))
                    (rw ranged (go_on n itr w w' e kept' (behind w')))
            ]
      ]

-- The first round of a key's probe sequence whose LBA a put can use.
abbrev pub first_usable : (ℕ → Option Pair) → Store → List ℕ → ℕ → Option ℕ
first_usable pairs st key pool_id =
    first_round (λ itr. usable (pairs (probe_lba st key pool_id itr)) key pool_id) 8 0

pub kv_gen_lba-Chooses :
    (m : Media) (st : Store) (a : GenArgs) (q : IsQuiet m) (held : List ℕ) (w : m.World)
    → is_aligned q.sector_size a.buf ≡ true
    → (r : Generated m.World) × (kv_gen_lba m st a none false held w ≡ some r)
      × Chooses m st a q held (q.contents w) (first_usable (q.contents w) st a.key a.pool_id) r
      × (q.contents (r.2.world) ≡ q.contents w)
unfolding kv_gen_lba
kv_gen_lba-Chooses m st a q held w aligned = gen_loop-Chooses m st a q held 8 0 w aligned
