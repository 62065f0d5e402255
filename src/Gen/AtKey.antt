-- ===== src/Gen/AtKey.antt =====
-- What a round of kv_gen_lba of src/kv_store_mgr.cpp does at an LBA with a pair, while no other thread
-- acts on the media.
use mathlib.Core.Path.{subst}
use nvmkv.Prelude.{
  ℕ, ◌≡◌, Bool, true, false, Option, none, some, List, [], ◌∷◌, ltb, if◌then◌else◌, Bool-cases, inl,
  inr, refl, ◌∙◌, ap,
}
use nvmkv.Error.{object_exists, object_not_found, Status, success, failure, Result, ok}
use nvmkv.Media.{ReadIov, Reading, Media, Store, holds_key, is_aligned}
use nvmkv.Media.Quiet.{
  Pair, IsQuiet, readable_one, pair_holds, pair_expired, holds_key-pair, kv_expire-pair_expired,
}
use nvmkv.Gen.{
  GenArgs, Gen, ReadEnd, returned, left, again, on_expired, on_replace, on_key, on_other,
  on_reading, gen_read,
}

-- An LBA that a put can use: it is free, or it holds the key.
abbrev pub usable : Option Pair → List ℕ → ℕ → Bool
usable none key pool_id = true
usable (some p) key pool_id = pair_holds (some p) key pool_id

-- The status and the length to trim for a usable LBA. A pair that has expired counts as free.
abbrev pub outcome : Store → GenArgs → ℕ → Option Pair → Status × ℕ
outcome st a now none = (success, 0)
outcome st a now (some p) =
    if pair_expired st.expiry_mode p.header now
    then (success, 0)
    else if a.replace
    then (success, if ltb a.value_len p.header.value_len then p.header.value_len else 0)
    else (failure object_exists, 0)

module _ (m : Media) (st : Store) (a : GenArgs) (q : IsQuiet m) (held : List ℕ) where
  open m use {World}

  abbrev pub fresh : World → Gen World
  fresh w = record { trim_len = 0; insert_lba = false; held = held; world = w }

  -- What a round leaves at an LBA with a pair that holds the key.
  abbrev pub KeyChoice : Pair → (ℕ → Option Pair) → ReadEnd × Gen World → Type 0
  KeyChoice p pairs (again, g) = ⊥
  KeyChoice p pairs (returned s, g) =
      ((s, g.trim_len) ≡ outcome st a q.now (some p)) × (q.contents g.world ≡ pairs)
  KeyChoice p pairs (left, g) =
      (g.insert_lba ≡ true)
      × ((success, g.trim_len) ≡ outcome st a q.now (some p))
      × (q.contents g.world ≡ pairs)

  on_replace-KeyChoice :
      (p : Pair) (lba : ℕ) (w : World)
      → pair_expired st.expiry_mode p.header q.now ≡ false
      → a.replace ≡ true
      → KeyChoice p (q.contents w) (on_replace m st a lba p.header (fresh w))
  unfolding on_replace
  on_replace-KeyChoice p lba w live replaces =
      elim (Bool-cases (ltb a.value_len p.header.value_len)) [
        | inl longer ↦
            rw (q.no_wait lba w, live, replaces, longer) (refl, refl, q.acquire_keep lba w)
        | inr shorter ↦
            rw (q.no_wait lba w, live, replaces, shorter) (refl, refl, q.acquire_keep lba w)
      ]

  on_live-KeyChoice :
      (p : Pair) (lba : ℕ) (w : World)
      → pair_expired st.expiry_mode p.header q.now ≡ false
      → (b : Bool) → a.replace ≡ b
      → KeyChoice p (q.contents w) (
          if b
          then on_replace m st a lba p.header (fresh w)
          else (returned (failure object_exists), fresh w))
  on_live-KeyChoice p lba w live true replaces = on_replace-KeyChoice p lba w live replaces
  on_live-KeyChoice p lba w live false keeps = rw (live, keeps) (refl, refl)

  pub on_key-KeyChoice :
      (p : Pair) (lba : ℕ) (w : World) (b : Bool)
      → pair_expired st.expiry_mode p.header q.now ≡ b
      → KeyChoice p
          (q.contents w)
          (on_key m st a lba p.header (if b then failure object_not_found else success) (fresh w))
  unfolding on_key on_expired
  on_key-KeyChoice p lba w true old = rw (q.no_wait lba w, old) (refl, q.acquire_keep lba w)
  on_key-KeyChoice p lba w false live = on_live-KeyChoice p lba w live a.replace refl

  -- The read at the LBA of a pair, up to the key.
  pub read_pair :
      (p : Pair) (lba : ℕ) (g : Gen World)
      → is_aligned q.sector_size a.buf ≡ true
      → q.contents g.world lba ≡ some p
      → (r : Reading) × (w' : World) × (gen_read m st a lba g ≡ on_reading m st a lba g (ok r, w'))
        × (r.header ≡ p.header)
        × (holds_key r a.key a.pool_id ≡ pair_holds (some p) a.key a.pool_id)
        × (q.contents w' ≡ q.contents g.world)
  unfolding gen_read
  read_pair p lba g aligned there =
      let iov : ReadIov = record { iov_base = a.buf; iov_len = st.sector_size; iov_lba = lba } in
      let got = m.nvm_readv (iov ∷ []) g.world in
      let (len, header, body) = q.pair iov [] g.world p there in
      (
        q.reading (iov ∷ []) g.world,
        got.1,
        ap (λ (x : Result Reading). on_reading m st a lba g (x, got.1))
            (q.reads (iov ∷ []) g.world (readable_one q iov aligned)),
        header,
        holds_key-pair (q.reading (iov ∷ []) g.world) p a.key a.pool_id header body,
        q.reads_keep (iov ∷ []) g.world,
      )

  pub on_reading_same :
      (r : Reading) (p : Pair) (lba : ℕ) (w w' : World)
      → r.header ≡ p.header
      → holds_key r a.key a.pool_id ≡ true
      → q.contents w' ≡ q.contents w
      → KeyChoice p (q.contents w) (on_reading m st a lba (fresh w) (ok r, w'))
  unfolding on_reading
  on_reading_same r p lba w w' header same kept =
      let (w'', checked, kept') = kv_expire-pair_expired m q st.expiry_mode p.header lba w' in
      let choice = on_key-KeyChoice p lba w'' (pair_expired st.expiry_mode p.header q.now) refl in
      rw (same, header, checked)
        (subst
          (λ (c : ℕ → Option Pair). KeyChoice p c (
            on_key m st a lba p.header
              (if pair_expired st.expiry_mode p.header q.now
                then failure object_not_found
                else success)
              (fresh w'')))
          (kept' ∙ kept) choice)

  pub on_reading_other :
      (r : Reading) (lba : ℕ) (w w' : World)
      → holds_key r a.key a.pool_id ≡ false
      → on_reading m st a lba (fresh w) (ok r, w') ≡ (left, fresh w')
  unfolding on_reading on_other
  on_reading_other r lba w w' other = rw other refl
