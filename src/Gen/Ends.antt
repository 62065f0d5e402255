-- ===== src/Gen/Ends.antt =====
-- How kv_gen_lba of src/kv_store_mgr.cpp ends, whatever the media and the other threads do.
use mathlib.Core.Path.{subst}
use nvmkv.Prelude.{
  ℕ, zero, suc, ◌+◌, ◌≡◌, Bool, true, false, Option, none, some, List, ◌∷◌, Bool-cases, inl, inr,
  refl, sym, ◌∙◌, ap,
}
use nvmkv.Error.{success, failure, Result, ok, err}
use nvmkv.Media.{Media, Store, is_not_found, probe_lba}
use nvmkv.Gen.{
  GenArgs, Gen, ReadEnd, returned, left, again, Reached, stop, go, Generated, gen_reads, on_left,
  after_reads, after_range, on_range, gen_loop, kv_gen_lba,
}
use nvmkv.Gen.Held.{Owns, Takes, owned, state, gen_reads-ReadsEnd, ReadsOwn}

abbrev ReachOwns : {W : Type 0} → ℕ → List ℕ → Reached W → Type 0
ReachOwns lba held (stop success g) = Takes lba held g
ReachOwns lba held (stop (failure c) g) = Owns lba held g
ReachOwns lba held (go g) = Owns lba held g

-- On success the LBA is taken, on an error it is taken where the flag says so, and no other is.
abbrev pub Ends : {W : Type 0} → List ℕ → Generated W → Type 0
Ends held (success, lba, g) = Takes lba held g
Ends held (failure c, lba, g) = Owns lba held g

-- What a round starts with: nothing is taken.
abbrev Fresh : {W : Type 0} → List ℕ → Gen W → Type 0
Fresh held g = (g.insert_lba ≡ false) × (g.held ≡ held)

module _ (m : Media) (st : Store) (a : GenArgs) (held : List ℕ) where
  open m use {World}

  abbrev GenEnds : Option (Generated World) → Type 0
  GenEnds o = (r : Generated World) × (o ≡ some r) × Ends held r

  on_range-ReachOwns :
      (lba : ℕ) (g : Gen World) (r : Result ℕ) (w : World)
      → Fresh held g
      → ReachOwns lba held (on_range m st a lba g (r, w))
  unfolding on_range
  on_range-ReachOwns lba g (ok found) w (fresh, same) =
      same ∙ sym (ap (λ (b : Bool). owned b lba held) fresh)
  on_range-ReachOwns lba g (err c) w (fresh, same) = elim (Bool-cases (is_not_found c)) [
    | inr other ↦ rw other (same ∙ sym (ap (λ (b : Bool). owned b lba held) fresh))
    | inl free ↦
        let grown : lba ∷ g.held ≡ lba ∷ held = ap (λ (l : List ℕ). lba ∷ l) same in
        elim (Bool-cases ((m.acquire lba w).0)) [
          | inl waited ↦ rw (free, waited) grown
          | inr first ↦ rw (free, first) (refl, grown)
        ]
  ]

  Owns-state :
      (lba : ℕ) (g : Gen World)
      → Owns lba held g
      → g ≡ state m st a lba held (g.trim_len) (g.insert_lba) (g.world)
  Owns-state lba g same = λ i. record {
    trim_len = g.trim_len;
    insert_lba = g.insert_lba;
    held = same i;
    world = g.world;
  }

  module _ (next : Gen World → Option (Generated World))
      (next_ends : (g : Gen World) → Fresh held g → GenEnds (next g)) (lba : ℕ) where
    on_left-GenEnds :
        (g : Gen World) (b : Bool)
        → g.insert_lba ≡ b
        → Owns lba held g
        → GenEnds (on_left m st a next lba g b)
    on_left-GenEnds g true taken same =
        ((success, lba, g), refl, (taken, same ∙ ap (λ (b : Bool). owned b lba held) taken))
    on_left-GenEnds g false fresh same =
        next_ends g (fresh, same ∙ ap (λ (b : Bool). owned b lba held) fresh)

    after_reads-GenEnds :
        (r : ReadEnd × Gen World)
        → ReadsOwn m st a lba held r
        → GenEnds (after_reads m st a next lba (some r))
    after_reads-GenEnds (again, g) o = absurd o
    after_reads-GenEnds (returned success, g) o = ((success, lba, g), refl, o)
    after_reads-GenEnds (returned (failure c), g) o = ((failure c, lba, g), refl, o)
    after_reads-GenEnds (left, g) o = on_left-GenEnds g (g.insert_lba) refl o

    after_range-GenEnds :
        (r : Reached World) → ReachOwns lba held r → GenEnds (after_range m st a next lba r)
    after_range-GenEnds (stop success g) o = ((success, lba, g), refl, o)
    after_range-GenEnds (stop (failure c) g) o = ((failure c, lba, g), refl, o)
    after_range-GenEnds (go g) o =
        let (r, ends, owns) =
          gen_reads-ReadsEnd m st a lba held (g.trim_len) (g.insert_lba) (g.world) in
        let reads = ap (gen_reads m st a 2 lba) (Owns-state lba g o) ∙ ends in
        subst (λ (x : Option (ReadEnd × Gen World)). GenEnds (after_reads m st a next lba x))
          (sym reads) (after_reads-GenEnds r owns)

  gen_loop-GenEnds : (n itr : ℕ) (g : Gen World) → Fresh held g → GenEnds (gen_loop m st a n itr g)
  unfolding gen_loop
  gen_loop-GenEnds zero itr g (fresh, same) = (
    _,
    refl,
    same ∙ sym (ap (λ (b : Bool). owned b (probe_lba st a.key a.pool_id itr) held) fresh),
  )
  gen_loop-GenEnds (suc n) itr g fresh =
      let lba = probe_lba st a.key a.pool_id itr in
      let got = m.kv_range_exists lba st.max_search_range g.world in
      after_range-GenEnds (gen_loop m st a n (itr + 1)) (gen_loop-GenEnds n (itr + 1)) lba _
        (on_range-ReachOwns lba g (got.0) (got.1) fresh)

-- Whatever the media and the other threads do, the loops of kv_gen_lba end, and it takes no LBA but
-- the one that it returns: that one is taken whenever it succeeds, and on an error where its flag
-- says so. This holds for a put by itself, which has no list of a batch and starts with the flag
-- unset.
pub kv_gen_lba-Ends :
    (m : Media) (st : Store) (a : GenArgs) (held : List ℕ) (w : m.World)
    → (r : Generated (m.World)) × (kv_gen_lba m st a none false held w ≡ some r) × Ends held r
unfolding kv_gen_lba
kv_gen_lba-Ends m st a held w = gen_loop-GenEnds m st a held 8 0 _ (refl, refl)
