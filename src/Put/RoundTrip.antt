-- ===== src/Put/RoundTrip.antt =====
-- What kv_read_media of src/kv_store_mgr.cpp finds after kv_put.
use mathlib.Core.Path.{subst}
use nvmkv.Prelude.{ℕ, ◌≡◌, false, Option, none, some, List, length, ◌∙◌, ap}
use nvmkv.Error.{Status, success, Result, ok}
use nvmkv.Write.{Capabilities}
use nvmkv.Media.{Media, Store, probe_lba}
use nvmkv.Media.Quiet.{Pair, IsQuiet, Writes}
use nvmkv.Gen.{Gen, kv_gen_lba}
use nvmkv.Gen.AtKey.{outcome}
use nvmkv.Gen.Choice.{Chooses, first_usable, kv_gen_lba-Chooses}
use nvmkv.Put.{PutInput, put_plan, gen_args}
use nvmkv.Read.{Found}
use nvmkv.Put.Stored.{Fits}

-- What a search finds after a put.
abbrev pub FoundPut : Store → PutInput → ℕ → Result Found → Type 0
FoundPut st i itr r =
    (f : Found) × (r ≡ ok f)
    × (f.lba ≡ probe_lba st i.key i.pool_id itr)
    × (f.reading.header.key_len ≡ length i.key)
    × (f.reading.header.value_len ≡ length i.value)
    × (f.reading.header.pool_id ≡ i.pool_id)
    × (f.reading.header.gen_count ≡ i.gen_count)

module _ (m : Media) (st : Store) (caps : Capabilities) (i : PutInput) (q : IsQuiet m)
    (ws : Writes m q) (fits : Fits m st caps i) (held : List ℕ) (w : m.World) where
  -- What kv_gen_lba gives to the put, from the choice among the pairs before it.
  pub chosen :
      (itr trim_len : ℕ)
      → first_usable (q.contents w) st i.key i.pool_id ≡ some itr
      → outcome st (gen_args m st caps i 0) q.now (q.contents w (probe_lba st i.key i.pool_id itr))
        ≡ (success, trim_len)
      → (g : Gen m.World) × (kv_gen_lba m st
            (gen_args m st caps i (ws.address (put_plan m st caps i).buf_len w))
            none
            false
            held
            ((m.get_buf (put_plan m st caps i).buf_len w).1)
          ≡ some (success, probe_lba st i.key i.pool_id itr, g))
        × (g.trim_len ≡ trim_len)
        × (q.contents g.world ≡ q.contents w)
  chosen itr trim_len first allowed =
      let n = (put_plan m st caps i).buf_len in
      let args = gen_args m st caps i (ws.address n w) in
      let w' = (m.get_buf n w).1 in
      let ((s, lba, g), ends, choice, kept) =
        kv_gen_lba-Chooses m st args q held w' (ws.buffer_aligned n w) in
      let same : q.contents w' ≡ q.contents w = ws.buffer_keep n w in
      let choice' =
        subst
          (λ (c : ℕ → Option Pair).
            Chooses m st args q held c (first_usable c st i.key i.pool_id) (s, lba, g))
          same choice in
      let (at, out) =
        subst (λ (o : Option ℕ). Chooses m st args q held (q.contents w) o (s, lba, g)) first
          choice' in
      let settled : (s, g.trim_len) ≡ (success, trim_len) = out ∙ allowed in
      (
        g,
        ends ∙ (λ j. some ((settled j).0, at j, g)),
        ap (λ (x : Status × ℕ). x.1) settled,
        kept ∙ same,
      )
