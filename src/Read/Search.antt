-- ===== src/Read/Search.antt =====
-- kv_read_media of src/kv_store_mgr.cpp as a search of the probe sequence.
use mathlib.Core.Path.{subst}
use nvmkv.Prelude.{
  ℕ, zero, suc, ◌+◌, ◌%◌, ◌^◌, ◌≡◌, [], true, Bool, false, not, ◌&&◌, Option, none, some, List, ◌∷◌,
  arith, ◌==◌, if◌then◌else◌, Bool-cases, Option-cases, inl, inr, refl, sym, ◌∙◌,
}
use nvmkv.Error.{object_not_found, Result, ok, err}
use nvmkv.Media.{ReadIov, Reading, Media, Store, probe_lba, is_aligned, nvm_readable}
use nvmkv.Media.Quiet.{
  Pair, IsQuiet, readable_one, readable_two, pair_holds, holds_key-pair, range_of, first_round,
  first_match, first_round-passed, first_round-matched,
}
use nvmkv.Read.{
  ReadArgs, ReadPlan, Seen, matched, passed, Found, read_iovs, see_reading, read_at, read_range,
  read_round, read_loop, kv_read_media, exact_plan, first_plan,
}

-- A round that meets the pair, if there is one, of an LBA.
abbrev pub Meets : ReadArgs → Option Pair → Seen → Type 0
Meets a none seen = seen ≡ passed
Meets a (some p) seen =
    (r : Reading) × (r.header ≡ p.header)
    × (r.body ≡ p.body)
    × (seen ≡ (if pair_holds (some p) (a.key) (a.pool_id) then matched r else passed))

module _ (m : Media) (st : Store) (q : IsQuiet m) where
  open m use {World}

  see_pair :
      (a : ReadArgs) (r : Reading) (p : Pair)
      → (r.read_len == 0) ≡ false
      → r.header ≡ p.header
      → r.body ≡ p.body
      → see_reading m st a (ok r)
        ≡ (if pair_holds (some p) (a.key) (a.pool_id) then matched r else passed)
  unfolding see_reading
  see_pair a r p some_read h b = rw (some_read, holds_key-pair r p a.key a.pool_id h b) refl

  see_hole : (a : ReadArgs) (r : Reading) → r.read_len ≡ 0 → see_reading m st a (ok r) ≡ passed
  unfolding see_reading
  see_hole a r h = ground (arith, h)

  -- The two buffers of a read are aligned to the sectors.
  abbrev pub AlignedRead : ReadArgs → Type 0
  AlignedRead a =
      (is_aligned q.sector_size a.buf ≡ true) × (is_aligned q.sector_size a.value ≡ true)

  sees :
      (a : ReadArgs) (iov : ReadIov) (rest : List ReadIov) (w : World) (o : Option Pair)
      → nvm_readable q.sector_size q.max_iovs (iov ∷ rest) ≡ true
      → q.contents w iov.iov_lba ≡ o
      → Meets a o (see_reading m st a ((m.nvm_readv (iov ∷ rest) w).0))
  sees a iov rest w none readable h =
      rw (q.reads (iov ∷ rest) w readable)
        (see_hole a (q.reading (iov ∷ rest) w) (q.hole iov rest w h))
  sees a iov rest w (some p) readable h =
      let (len, header, body) = q.pair iov rest w p h in
      (
        q.reading (iov ∷ rest) w,
        header,
        body,
        rw (q.reads (iov ∷ rest) w readable)
            (see_pair a (q.reading (iov ∷ rest) w) p len header body),
      )

  -- The first IOV is the sector of the LBA, whatever the plan.
  abbrev head_iov : ReadArgs → ℕ → ReadIov
  head_iov a lba = record { iov_base = a.buf; iov_len = st.sector_size; iov_lba = lba }

  head-read_iovs :
      (a : ReadArgs) (plan : ReadPlan) (lba : ℕ)
      → AlignedRead a
      → (rest : List ReadIov) × (read_iovs st a plan lba ≡ head_iov a lba ∷ rest)
        × (nvm_readable q.sector_size q.max_iovs (head_iov a lba ∷ rest) ≡ true)
  unfolding read_iovs
  head-read_iovs a plan lba (buf, value) = elim (Bool-cases (plan.num_iovs == 1)) [
    | inl one ↦ ([], rw one refl, readable_one q (head_iov a lba) buf)
    | inr two ↦
        let iov : ReadIov = record {
          iov_base = a.value;
          iov_len = plan.value_iov_len;
          iov_lba = (lba + 1) % 2 ^ 64;
        } in
        (iov ∷ [], rw two refl, readable_two q (head_iov a lba) iov buf value)
  ]

  -- What a round leaves: the match at the LBA, and the pairs as they were.
  abbrev RoundMeets : ReadArgs → ℕ → World → (Seen × ReadPlan) × World → Type 0
  RoundMeets a lba w r = Meets a (q.contents w lba) (r.0.0) × (q.contents (r.1) ≡ q.contents w)

  read_at-Meets :
      (a : ReadArgs) (plan : ReadPlan) (lba : ℕ) (w : World)
      → AlignedRead a
      → RoundMeets a lba w (read_at m st a plan lba w)
  unfolding read_at
  read_at-Meets a plan lba w aligned =
      let (rest, e, readable) = head-read_iovs a plan lba aligned in
      rw e (sees a (head_iov a lba) rest w _ readable refl, q.reads_keep (head_iov a lba ∷ rest) w)

  read_range-Meets :
      (a : ReadArgs) (plan : ReadPlan) (lba : ℕ) (w w' : World) (o : Option Pair)
      → AlignedRead a
      → q.contents w lba ≡ o
      → q.contents w' ≡ q.contents w
      → RoundMeets a lba w (read_range m st a plan lba (range_of o, w'))
  unfolding read_range
  read_range-Meets a plan lba w w' none aligned free same = (rw free refl, same)
  read_range-Meets a plan lba w w' (some p) aligned there same =
      let (met, kept) = read_at-Meets a (exact_plan st a plan (p.sectors)) lba w' aligned in
      (rw same at met, kept ∙ same)

  read_round-Meets :
      (a : ReadArgs) (plan : ReadPlan) (lba : ℕ) (w : World)
      → AlignedRead a
      → RoundMeets a lba w (read_round m st a plan lba w)
  unfolding read_round
  read_round-Meets a plan lba w aligned =
      elim (Bool-cases (a.read_exact && not (a.value_len == 0))) [
        | inr plain ↦ rw plain (read_at-Meets a plan lba w aligned)
        | inl exact ↦
            let got = m.kv_range_exists lba st.max_search_range w in
            rw exact (
              subst (λ (r : Result ℕ). RoundMeets a lba w (read_range m st a plan lba (r, got.1)))
                (sym (q.ranges lba st.max_search_range w))
                (read_range-Meets a plan lba w (got.1) (q.contents w lba) aligned refl
                  (q.ranges_keep lba st.max_search_range w)))
      ]

  -- What the search returns for the round that the reference search found.
  abbrev pub Returns : (ℕ → Option Pair) → ReadArgs → Option ℕ → Result Found → Type 0
  Returns pairs a none r = r ≡ err object_not_found
  Returns pairs a (some itr) r =
      let lba = probe_lba st (a.key) (a.pool_id) itr in
      (f : Found) × (p : Pair) × (r ≡ ok f)
      × (f.lba ≡ lba)
      × (pairs lba ≡ some p)
      × (f.reading.header ≡ p.header)
      × (f.reading.body ≡ p.body)

  abbrev key_at : (ℕ → Option Pair) → ReadArgs → ℕ → Bool
  key_at pairs a itr = pair_holds (pairs (probe_lba st (a.key) (a.pool_id) itr)) (a.key) (a.pool_id)

  abbrev LoopMeets : ReadArgs → World → ℕ → ℕ → Result Found × World → Type 0
  LoopMeets a w n itr r =
      Returns (q.contents w) a (first_round (key_at (q.contents w) a) n itr) (r.0)
      × (q.contents (r.1) ≡ q.contents w)

  loop-passed :
      (a : ReadArgs) (n itr : ℕ) (plan : ReadPlan) (w : World)
      → let round = read_round m st a plan (probe_lba st (a.key) (a.pool_id) itr) w in
        round.0.0 ≡ passed
        → read_loop m st a (suc n) itr plan w ≡ read_loop m st a n (itr + 1) (round.0.1) (round.1)
  unfolding read_loop
  loop-passed a n itr plan w h = rw (h, read_loop) refl

  loop-matched :
      (a : ReadArgs) (n itr : ℕ) (plan : ReadPlan) (w : World) (r : Reading)
      → let round = read_round m st a plan (probe_lba st (a.key) (a.pool_id) itr) w in
        round.0.0 ≡ matched r
        → read_loop m st a (suc n) itr plan w
          ≡ (ok (record { lba = probe_lba st (a.key) (a.pool_id) itr; reading = r }), round.1)
  unfolding read_loop
  loop-matched a n itr plan w r h = rw (h, read_loop) refl

  -- A round that passes, and the rest of the loop behind it.
  pass_on :
      (a : ReadArgs) (n itr : ℕ) (plan : ReadPlan) (w : World)
      → let round = read_round m st a plan (probe_lba st (a.key) (a.pool_id) itr) w in
        round.0.0 ≡ passed
        → key_at (q.contents w) a itr ≡ false
        → q.contents (round.1) ≡ q.contents w
        → LoopMeets a (round.1) n (itr + 1) (read_loop m st a n (itr + 1) (round.0.1) (round.1))
        → LoopMeets a w (suc n) itr (read_loop m st a (suc n) itr plan w)
  pass_on a n itr plan w seen no_key kept (back, same) =
      let behind = rw kept at back in
      rw
        (loop-passed a n itr plan w seen, first_round-passed (key_at (q.contents w) a) n itr no_key)
        (behind, same ∙ kept)

  read_loop-Meets :
      (a : ReadArgs) (n itr : ℕ) (plan : ReadPlan) (w : World)
      → AlignedRead a
      → LoopMeets a w n itr (read_loop m st a n itr plan w)
  unfolding read_loop first_round
  read_loop-Meets a zero itr plan w aligned = (refl, refl)
  read_loop-Meets a (suc n) itr plan w aligned =
      let lba = probe_lba st (a.key) (a.pool_id) itr in
      let round = read_round m st a plan lba w in
      let (met, kept) = read_round-Meets a plan lba w aligned in
      let behind = read_loop-Meets a n (itr + 1) (round.0.1) (round.1) aligned in
      elim (Option-cases (q.contents w lba)) [
        | inl free ↦ pass_on a n itr plan w (rw free at met) (rw free refl) kept behind
        | inr (p, there) ↦
            let (r, header, body, seen) = (rw there at met) in
            elim (Bool-cases (pair_holds (some p) (a.key) (a.pool_id))) [
              | inr other ↦ pass_on a n itr plan w (rw other at seen) (rw there other) kept behind
              | inl same ↦
                  rw
                    (
                      loop-matched a n itr plan w r (rw same at seen),
                      first_round-matched (key_at (q.contents w) a) n itr (rw there same),
                    )
                    ((_, p, refl, refl, there, header, body), kept)
            ]
      ]

-- While no other thread acts on the media, with buffers that are aligned to the sectors, kv_read_media finds the pair at the first of the 8 probes
-- that holds the key and the pool, whether it reads exact lengths or not, and reports a missing
-- object where there is none; it changes no pair.
pub kv_read_media-first_match :
    (m : Media) (st : Store) (q : IsQuiet m) (a : ReadArgs) (w : m.World)
    → AlignedRead m st q a
    → Returns m st q
        (q.contents w)
        a
        (first_match (q.contents w) st (a.key) (a.pool_id))
        ((kv_read_media m st a w).0)
      × (q.contents ((kv_read_media m st a w).1) ≡ q.contents w)
unfolding kv_read_media first_match
kv_read_media-first_match m st q a w aligned =
    read_loop-Meets m st q a 8 0 (first_plan st a) w aligned
