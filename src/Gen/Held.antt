-- ===== src/Gen/Held.antt =====
-- Which LBAs kv_gen_lba of src/kv_store_mgr.cpp leaves taken, whatever the media and the other threads
-- do, and that its loops end.
use mathlib.Core.Path.{subst}
use nvmkv.Prelude.{
  ℕ, suc, ◌≡◌, Bool, true, false, some, List, ◌∷◌, ltb, Bool-cases, inl, inr, refl, sym, ◌∙◌, ap,
}
use nvmkv.Error.{Status, success, failure, Result, ok, err}
use nvmkv.SyncList.Exclusion.{erase-cons_self}
use nvmkv.Write.{KvHeader}
use nvmkv.Media.{Reading, Media, Store, is_not_found, holds_key, kv_expire}
use nvmkv.Gen.{
  GenArgs, Gen, ReadEnd, returned, left, again, settle, note_trim, on_expired, on_replace, on_key,
  on_other, on_reading, gen_read, gen_reads,
}

-- The LBAs taken by a thread that held `held` before and has, or has not, taken `lba`.
abbrev pub owned : Bool → ℕ → List ℕ → List ℕ
owned true lba held = lba ∷ held
owned false lba held = held

abbrev pub Owns : {W : Type 0} → ℕ → List ℕ → Gen W → Type 0
Owns lba held g = g.held ≡ owned (g.insert_lba) lba held

-- The LBA is taken, and nothing else.
abbrev pub Takes : {W : Type 0} → ℕ → List ℕ → Gen W → Type 0
Takes lba held g = (g.insert_lba ≡ true) × (g.held ≡ lba ∷ held)

-- What a round of the inner loop leaves: it reads again only where it took the LBA itself.
abbrev ReadOwns : {W : Type 0} → ℕ → List ℕ → Bool → ReadEnd × Gen W → Type 0
ReadOwns lba held before (returned success, g) = Takes lba held g
ReadOwns lba held before (returned (failure c), g) = Owns lba held g
ReadOwns lba held before (left, g) = Owns lba held g
ReadOwns lba held before (again, g) = (before ≡ false) × Takes lba held g

module _ (m : Media) (st : Store) (a : GenArgs) (lba : ℕ) (held : List ℕ) where
  open m use {World}

  abbrev pub state : ℕ → Bool → World → Gen World
  state trim insert w = record {
    trim_len = trim;
    insert_lba = insert;
    held = owned insert lba held;
    world = w;
  }

  note_trim-Owns :
      (hdr : KvHeader) (trim : ℕ) (w : World)
      → Owns lba held (note_trim m st a hdr (state trim true w))
  note_trim-Owns hdr trim w = elim (Bool-cases (ltb a.value_len hdr.value_len)) [
    | inl longer ↦ rw longer refl
    | inr shorter ↦ rw shorter refl
  ]

  on_expired-ReadOwns :
      (trim : ℕ) (insert : Bool) (w : World)
      → ReadOwns lba held insert (on_expired m st a lba (state trim insert w))
  unfolding on_expired
  on_expired-ReadOwns trim true w = (refl, refl)
  on_expired-ReadOwns trim false w = elim (Bool-cases ((m.acquire lba w).0)) [
    | inl waited ↦ rw waited (refl, (refl, refl))
    | inr free ↦ rw free (refl, refl)
  ]

  on_replace-ReadOwns :
      (hdr : KvHeader) (trim : ℕ) (insert : Bool) (w : World)
      → ReadOwns lba held insert (on_replace m st a lba hdr (state trim insert w))
  unfolding on_replace
  on_replace-ReadOwns hdr trim true w = note_trim-Owns hdr trim w
  on_replace-ReadOwns hdr trim false w = elim (Bool-cases ((m.acquire lba w).0)) [
    | inl waited ↦ rw waited (refl, (refl, refl))
    | inr free ↦ rw free (note_trim-Owns hdr trim ((m.acquire lba w).1))
  ]

  on_key-ReadOwns :
      (hdr : KvHeader) (s : Status) (trim : ℕ) (insert : Bool) (w : World)
      → ReadOwns lba held insert (on_key m st a lba hdr s (state trim insert w))
  unfolding on_key
  on_key-ReadOwns hdr (failure c) trim insert w = elim (Bool-cases (is_not_found c)) [
    | inl expired ↦ rw expired (on_expired-ReadOwns trim insert w)
    | inr other ↦ rw other refl
  ]
  on_key-ReadOwns hdr success trim insert w = elim (Bool-cases a.replace) [
    | inl replaces ↦ rw replaces (on_replace-ReadOwns hdr trim insert w)
    | inr exists ↦ rw exists refl
  ]

  on_other-ReadOwns :
      (trim : ℕ) (insert : Bool) (w : World)
      → ReadOwns lba held insert (on_other m st a lba (state trim insert w))
  unfolding on_other
  on_other-ReadOwns trim true w = erase-cons_self lba held
  on_other-ReadOwns trim false w = refl

  on_reading-ReadOwns :
      (r : Result Reading) (trim : ℕ) (insert : Bool) (w w' : World)
      → ReadOwns lba held insert (on_reading m st a lba (state trim insert w) (r, w'))
  unfolding on_reading
  on_reading-ReadOwns (err c) trim insert w w' = refl
  on_reading-ReadOwns (ok r) trim insert w w' =
      let checked = kv_expire m (st.expiry_mode) (r.header) lba false w' in
      elim (Bool-cases (holds_key r a.key a.pool_id)) [
        | inl same ↦ rw same (on_key-ReadOwns (r.header) (checked.0) trim insert (checked.1))
        | inr other ↦ rw other (on_other-ReadOwns trim insert w')
      ]

  gen_read-ReadOwns :
      (trim : ℕ) (insert : Bool) (w : World)
      → ReadOwns lba held insert (gen_read m st a lba (state trim insert w))
  unfolding gen_read
  gen_read-ReadOwns trim insert w =
      let got = m.nvm_readv _ w in on_reading-ReadOwns (got.0) trim insert w (got.1)

  Takes-state : (g : Gen World) → Takes lba held g → g ≡ state (g.trim_len) true (g.world)
  Takes-state g (taken, same) =
      λ i. record { trim_len = g.trim_len; insert_lba = taken i; held = same i; world = g.world }

  -- What the inner loop leaves: it ends.
  abbrev pub ReadsOwn : ReadEnd × Gen World → Type 0
  ReadsOwn (again, g) = ⊥
  ReadsOwn (returned success, g) = Takes lba held g
  ReadsOwn (returned (failure c), g) = Owns lba held g
  ReadsOwn (left, g) = Owns lba held g

  abbrev ReadsEnd : ℕ → Gen World → Type 0
  ReadsEnd n g = (r : ReadEnd × Gen World) × (gen_reads m st a n lba g ≡ some r) × ReadsOwn r

  gen_reads-settle :
      (n : ℕ) (g : Gen World) {r : ReadEnd × Gen World}
      → gen_read m st a lba g ≡ r
      → gen_reads m st a (suc n) lba g ≡ settle m st a (gen_reads m st a n lba) r
  unfolding gen_reads
  gen_reads-settle n g e = ap (settle m st a (gen_reads m st a n lba)) e

  -- With the LBA taken, a round is the last.
  last_read :
      (n : ℕ) (g : Gen World) (r : ReadEnd × Gen World)
      → gen_read m st a lba g ≡ r
      → ReadOwns lba held true r
      → ReadsEnd (suc n) g
  unfolding gen_reads
  last_read n g (again, g') e o = absurd (cc (o.0))
  last_read n g (returned success, g') e o = ((returned success, g'), gen_reads-settle n g e, o)
  last_read n g (returned (failure c), g') e o =
      ((returned (failure c), g'), gen_reads-settle n g e, o)
  last_read n g (left, g') e o = ((left, g'), gen_reads-settle n g e, o)

  second_read : (g : Gen World) → Takes lba held g → ReadsEnd 1 g
  second_read g t = subst (ReadsEnd 1) (sym (Takes-state g t)) (
      last_read 0 (state (g.trim_len) true (g.world)) _ refl
        (gen_read-ReadOwns (g.trim_len) true (g.world)))

  first_read :
      (g : Gen World) (r : ReadEnd × Gen World)
      → gen_read m st a lba g ≡ r
      → ReadOwns lba held false r
      → ReadsEnd 2 g
  unfolding gen_reads
  first_read g (again, g') e o =
      let (r, ends, owns) = second_read g' (o.1) in (r, gen_reads-settle 1 g e ∙ ends, owns)
  first_read g (returned success, g') e o = ((returned success, g'), gen_reads-settle 1 g e, o)
  first_read g (returned (failure c), g') e o =
      ((returned (failure c), g'), gen_reads-settle 1 g e, o)
  first_read g (left, g') e o = ((left, g'), gen_reads-settle 1 g e, o)

  -- Two rounds of the inner loop are enough.
  pub gen_reads-ReadsEnd : (trim : ℕ) (insert : Bool) (w : World) → ReadsEnd 2 (state trim insert w)
  gen_reads-ReadsEnd trim true w =
      last_read 1 (state trim true w) _ refl (gen_read-ReadOwns trim true w)
  gen_reads-ReadsEnd trim false w =
      first_read (state trim false w) _ refl (gen_read-ReadOwns trim false w)
