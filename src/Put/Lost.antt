-- ===== src/Put/Lost.antt =====
-- The batch of kv_put of src/kv_store_mgr.cpp where there is something to trim.
use nvmkv.Prelude.{ℕ, ◌≡◌, none, some, List, [], ◌∷◌, length, refl, ◌∙◌, ap}
use nvmkv.Error.{Status, success, failure, Result, ok, err}
use nvmkv.Write.{Capabilities, Iov, Prepared, kv_process_for_trim}
use nvmkv.Cache.Get.{zero_context}
use nvmkv.Media.{Media, Store, probe_lba}
use nvmkv.Media.Quiet.{IsQuiet, Writes}
use nvmkv.Gen.AtKey.{outcome}
use nvmkv.Gen.Choice.{first_usable}
use nvmkv.Put.{
  PutInput, Hit, Putting, gen_args, put_plan, on_written, missed, submitted, put_body, kv_put,
}
use nvmkv.Put.Stored
use nvmkv.Put.Stored.{Fits, body_written, contents-put_exit}
use nvmkv.Put.RoundTrip.{chosen}

-- The result of a put whose batch has a status.
abbrev pub put_result : PutInput → Status → Result ℕ
put_result i success = ok (length i.value)
put_result i (failure c) = err c

module _ (m : Media) (st : Store) (caps : Capabilities) (i : PutInput) (q : IsQuiet m) where
  open m use {World}

  result-on_written :
      (hit : Hit) (now : ℕ) (r : Status × World) (s : Putting World)
      → ((on_written m st caps i hit now r s).0 ≡ put_result i (r.0))
        × ((on_written m st caps i hit now r s).1.world ≡ r.1)
  unfolding on_written
  result-on_written hit now (success, w) s = (refl, refl)
  result-on_written hit now (failure c, w) s = (refl, refl)

-- While no other thread acts on the media, with a buffer that is aligned and large enough and no cache: where the
-- first of the 8 probes that is free or holds the key is one that kv_gen_lba succeeds at, something is
-- to be trimmed behind it, and the write takes one IOV, that IOV is not submitted. The one batch of
-- kv_put trims and writes nothing, kv_put succeeds exactly where this batch does, and the pairs are
-- those that the batch leaves of the pairs before.
pub kv_put_trims_only :
    (m : Media) (st : Store) (caps : Capabilities) (i : PutInput) (q : IsQuiet m) (ws : Writes m q)
    (held : List ℕ) (w : m.World) (itr trim_len : ℕ) (trim : Iov)
    → Fits m st caps i
    → (put_plan m st caps i).iov_count ≡ 1
    → first_usable (q.contents w) st i.key i.pool_id ≡ some itr
    → outcome st (gen_args m st caps i 0) q.now (q.contents w (probe_lba st i.key i.pool_id itr))
      ≡ (success, trim_len)
    → kv_process_for_trim caps (length i.value) trim_len (probe_lba st i.key i.pool_id itr)
      ≡ ok (some trim)
    → let r = kv_put m st caps i none held w in
      (x : Prepared) × (w' : m.World) × (q.contents w' ≡ q.contents w)
      × (r.0 ≡ put_result i ((m.nvm_writev x i.value (trim ∷ []) w').0))
      × (q.contents r.1.world ≡ q.contents ((m.nvm_writev x i.value (trim ∷ []) w').1))
unfolding kv_put
kv_put_trims_only m st caps i q ws held w itr trim_len trim fits one first allowed some_trim =
    let lba = probe_lba st i.key i.pool_id itr in
    let (g, found, len, kept) = chosen m st caps i q ws fits held w itr trim_len first allowed in
    let x = Stored.prepared m st caps i q ws fits held w lba g in
    let s = Stored.located m st caps i q ws fits held w lba g in
    let t = m.time g.world in
    let trims = ap (λ (n : ℕ). kv_process_for_trim caps (length i.value) n lba) len ∙ some_trim in
    let body =
      body_written m st caps i q ws fits held w (some trim) lba g found trims
      ∙ ap
          (λ (n : ℕ).
            on_written m st caps i (missed zero_context) (t.0)
              (m.nvm_writev x i.value (submitted m st caps i n (some trim) x.iovec) (t.1)) s)
          one in
    let (returned, left_world) =
      result-on_written m st caps i q (missed zero_context) (t.0)
        (m.nvm_writev x i.value (trim ∷ []) (t.1)) s in
    (
      x,
      t.1,
      q.time_keep g.world ∙ kept,
      ap (λ (r : Result ℕ × Putting m.World). r.0) body ∙ returned,
      contents-put_exit m st caps i q ws fits held w
            ((put_body m st caps i (Stored.begun m st caps i q ws fits held w)).1)
          ∙ ap (λ (r : Result ℕ × Putting m.World). q.contents (r.1.world)) body
          ∙ ap (λ (v : m.World). q.contents v) left_world,
    )
