-- ===== src/Put/Release.antt =====
-- Which LBAs kv_put of src/kv_store_mgr.cpp leaves taken when it returns.
use mathlib.Core.Path.{subst}
use nvmkv.Prelude.{
  ℕ, ◌≡◌, ◌⊎◌, Bool, true, false, not, ◌&&◌, Option, none, some, List, ◌∷◌, ltb, if◌then◌else◌,
  length, Bool-cases, inl, inr, refl, sym, ◌∙◌, ap,
}
use nvmkv.Error.{ErrorCode, Status, success, failure, Result, ok, err}
use nvmkv.SyncList.{erase}
use nvmkv.SyncList.Exclusion.{erase-cons_self}
use nvmkv.Cache.{
  CacheContext, EntryState, entry_found, entry_empty, entry_delete, entry_not_found, KvCache,
}
use nvmkv.Cache.Get.{kv_cache_get, zero_context}
use nvmkv.Write.{Capabilities, Iov, Allocation, kv_process_for_trim, kv_alloc_for_write}
use nvmkv.Media.{Media, Store}
use nvmkv.Gen.{Generated, kv_gen_lba}
use nvmkv.Gen.Held.{owned}
use nvmkv.Gen.Ends.{Ends, kv_gen_lba-Ends}
use nvmkv.Put.{
  PutInput, Putting, Hit, and_then, mode_number, on_hit, on_get, use_cache, alloc, gen_args,
  on_generated, locate, on_written, write_out, put_at, put_plan, put_body, put_exit, kv_put,
}

-- The LBA of the put is taken where the flag says so, and no other.
abbrev PutOwns : {W : Type 0} → List ℕ → Putting W → Type 0
PutOwns held s = s.held ≡ owned s.insert_lba s.key_hash_val held

false_ne_true : false ≡ true → ⊥
false_ne_true h = cc

module _ (m : Media) (st : Store) (caps : Capabilities) (i : PutInput) (held : List ℕ)
    (cache0 : Option KvCache) (w0 : m.World) where
  open m use {World}

  -- A hit in the cache whose LBA the put takes without a wait, in the world `w`.
  abbrev TakesHit : CacheContext → World → Type 0
  TakesHit ctx w =
      (c : KvCache) × (cache0 ≡ some c)
      × (kv_cache_get c (mode_number st.expiry_mode) ((m.time w0).0) i.key i.pool_id ≡ (true, ctx))
      × (ctx.context_state ≡ entry_found)
      × ((m.acquire ctx.context_entry.lba ((m.time w0).1)).0 ≡ false)
      × (w ≡ (m.acquire ctx.context_entry.lba ((m.time w0).1)).1)

  -- `kv_alloc_for_write` in the world `w`.
  abbrev allocated : World → Result (Allocation × ℕ)
  allocated w =
      kv_alloc_for_write caps (length i.key) i.value_address (length i.value) 0
        (λ n. (m.get_buf ((put_plan m st caps i).buf_len) w).0)

  -- A hit is taken, without its LBA being that of the put yet.
  abbrev HitOwns : Result Hit × Putting World → Type 0
  HitOwns (err c, s) = PutOwns held s
  HitOwns (ok hit, s) =
      (s.insert_lba ≡ hit.exists_in_cache)
      × (s.key_hash_val ≡ 0)
      × (s.held ≡ owned hit.exists_in_cache hit.context.context_entry.lba held)
      × (hit.exists_in_cache ≡ true → TakesHit hit.context s.world)

  -- The put took the LBA of a hit, could not allocate its buffer, and fails with that error.
  abbrev FailsOnHit : CacheContext → ErrorCode → Type 0
  FailsOnHit ctx e = (w : World) × TakesHit ctx w × (allocated w ≡ err e)

  -- Everything that the put took is released; or it failed to allocate a buffer after a hit, and what
  -- is erased is the LBA 0.
  abbrev pub Releases : Result ℕ × Putting World → Type 0
  Releases r =
      (r.1.held ≡ held)
      ⊎ ((ctx : CacheContext) × (e : ErrorCode) × FailsOnHit ctx e
          × (r.0 ≡ err e)
          × (r.1.held ≡ erase (ctx.context_entry.lba ∷ held) 0))

  abbrev beginning : Option KvCache → World → Putting World
  beginning cache w = record {
    cache = cache;
    insert_lba = false;
    key_hash_val = 0;
    buf_len = 0;
    held = held;
    world = w;
  }

  no_hit : (ctx : CacheContext) (w : World) → false ≡ true → TakesHit ctx w
  no_hit ctx w h = absurd (false_ne_true h)

  on_hit-HitOwns :
      (e : EntryState) (ctx : CacheContext) (c : KvCache)
      → cache0 ≡ some c
      → kv_cache_get c (mode_number st.expiry_mode) ((m.time w0).0) i.key i.pool_id ≡ (true, ctx)
      → ctx.context_state ≡ e
      → HitOwns (on_hit m st caps i e ctx (beginning (some c) ((m.time w0).1)))
  unfolding on_hit
  on_hit-HitOwns entry_not_found ctx c is got state = (refl, refl, refl, no_hit ctx _)
  on_hit-HitOwns entry_empty ctx c is got state = (refl, refl, refl, no_hit ctx _)
  on_hit-HitOwns entry_delete ctx c is got state = (refl, refl, refl, no_hit ctx _)
  on_hit-HitOwns entry_found ctx c is got state =
      let lba = ctx.context_entry.lba in
      elim (Bool-cases ((m.acquire lba ((m.time w0).1)).0)) [
        | inl waited ↦ rw waited (refl, refl, erase-cons_self lba held, no_hit zero_context _)
        | inr free ↦
            let took : TakesHit ctx ((m.acquire lba ((m.time w0).1)).1) =
              (c, is, got, state, free, refl) in
            rw free (refl, refl, refl, λ h. took)
      ]

  on_get-HitOwns :
      (r : Bool × CacheContext) (c : KvCache)
      → cache0 ≡ some c
      → kv_cache_get c (mode_number st.expiry_mode) ((m.time w0).0) i.key i.pool_id ≡ r
      → HitOwns (on_get m st caps i r (beginning (some c) ((m.time w0).1)))
  unfolding on_get
  on_get-HitOwns (false, ctx) c is got = (refl, refl, refl, no_hit ctx _)
  on_get-HitOwns (true, ctx) c is got = elim (Bool-cases (not i.replace && not ctx.expired)) [
    | inl exists ↦ rw exists refl
    | inr allowed ↦ rw allowed (on_hit-HitOwns ctx.context_state ctx c is got refl)
  ]

  use_cache-HitOwns :
      (cache : Option KvCache)
      → cache0 ≡ cache
      → HitOwns (use_cache m st caps i cache (beginning cache w0))
  unfolding use_cache
  use_cache-HitOwns none is = (refl, refl, refl, no_hit zero_context _)
  use_cache-HitOwns (some c) is =
      on_get-HitOwns (kv_cache_get c (mode_number st.expiry_mode) ((m.time w0).0) i.key i.pool_id) c
        is refl

  -- What a later stage leaves alone.
  abbrev Keeps : Putting World → Putting World → Type 0
  Keeps s s' =
      (s'.insert_lba ≡ s.insert_lba) × (s'.key_hash_val ≡ s.key_hash_val) × (s'.held ≡ s.held)

  alloc-Keeps : (s : Putting World) → Keeps s ((alloc m st caps i s).1)
  unfolding alloc
  alloc-Keeps s = elim (Bool-cases (ltb caps.nvm_max_num_iovs ((put_plan m st caps i).iov_count))) [
    | inl many ↦ rw many (refl, refl, refl)
    | inr few ↦ rw few (refl, refl, refl)
  ]

  alloc-allocated : (s : Putting World) → allocated s.world ≡ (alloc m st caps i s).0
  unfolding alloc
  alloc-allocated s = refl

  on_written-Keeps :
      (hit : Hit) (now : ℕ) (r : Status × World) (s : Putting World)
      → Keeps s ((on_written m st caps i hit now r s).1)
  unfolding on_written
  on_written-Keeps hit now (failure c, w) s = (refl, refl, refl)
  on_written-Keeps hit now (success, w) s = (refl, refl, refl)

  write_out-Keeps :
      (hit : Hit) (planned : Allocation × ℕ) (r : Result (Option Iov)) (s : Putting World)
      → Keeps s ((write_out m st caps i hit planned r s).1)
  unfolding write_out
  write_out-Keeps hit planned (err c) s = (refl, refl, refl)
  write_out-Keeps hit planned (ok trim) s = on_written-Keeps hit _ _ s

  on_generated-PutOwns :
      (r : Generated World) (s : Putting World)
      → Ends held r
      → PutOwns held ((on_generated m st caps i (some r) s).1)
  unfolding on_generated
  on_generated-PutOwns (success, lba, g) s (taken, same) =
      same ∙ sym (ap (λ (b : Bool). owned b lba held) taken)
  on_generated-PutOwns (failure c, lba, g) s same = same

  locate-PutOwns :
      (ctx : CacheContext) (b : Bool) (address : ℕ) (s : Putting World)
      → s.insert_lba ≡ b
      → s.held ≡ owned b ctx.context_entry.lba held
      → PutOwns held
          ((locate m st caps i (record { context = ctx; exists_in_cache = b }) address s).1)
  unfolding locate
  locate-PutOwns ctx true address s taken same =
      same ∙ sym (ap (λ (b : Bool). owned b ctx.context_entry.lba held) taken)
  locate-PutOwns ctx false address s fresh same =
      let args = gen_args m st caps i address in
      let (r, ends, owns) = kv_gen_lba-Ends m st args held s.world in
      let called : kv_gen_lba m st args none s.insert_lba s.held s.world ≡ some r =
        (λ j. kv_gen_lba m st args none (fresh j) (same j) s.world) ∙ ends in
      subst (λ (o : Option (Generated World)). PutOwns held ((on_generated m st caps i o s).1))
        (sym called) (on_generated-PutOwns r s owns)

  held-put_exit :
      (s : Putting World)
      → (put_exit m st caps i s).held
        ≡ (if s.insert_lba then erase s.held s.key_hash_val else s.held)
  unfolding put_exit
  held-put_exit s = elim (Bool-cases s.insert_lba) [
    | inl taken ↦ rw taken refl
    | inr fresh ↦ rw fresh refl
  ]

  exit_owned :
      (s : Putting World) (b : Bool)
      → s.insert_lba ≡ b
      → s.held ≡ owned b s.key_hash_val held
      → (put_exit m st caps i s).held ≡ held
  exit_owned s true taken same =
      held-put_exit s
      ∙ (λ j. if taken j then erase (same j) s.key_hash_val else same j)
      ∙ erase-cons_self s.key_hash_val held
  exit_owned s false fresh same =
      held-put_exit s ∙ (λ j. if fresh j then erase (same j) s.key_hash_val else same j)

  -- An exit after a stage that keeps what is owned.
  abbrev Exits : Result ℕ × Putting World → Type 0
  Exits r = Releases (r.0, put_exit m st caps i (r.1))

  put_at-Exits :
      (hit : Hit) (planned : Allocation × ℕ) (trim_len : ℕ) (s : Putting World)
      → PutOwns held s
      → Exits (put_at m st caps i hit planned trim_len s)
  unfolding put_at
  put_at-Exits hit planned trim_len s owns =
      let r = kv_process_for_trim caps (length i.value) trim_len s.key_hash_val in
      let s' = (write_out m st caps i hit planned r s).1 in
      let (insert, key, same) = write_out-Keeps hit planned r s in
      inl (
        exit_owned s' s'.insert_lba refl (same ∙ owns ∙ λ j. owned (sym insert j) (sym key j) held))

  after_locate :
      (hit : Hit) (planned : Allocation × ℕ) (r : Result ℕ × Putting World)
      → PutOwns held (r.1)
      → Exits (and_then m r (put_at m st caps i hit planned))
  after_locate hit planned (err c, s) owns = inl (exit_owned s s.insert_lba refl owns)
  after_locate hit planned (ok trim_len, s) owns = put_at-Exits hit planned trim_len s owns

  abbrev from_alloc : Hit → Result (Allocation × ℕ) × Putting World → Result ℕ × Putting World
  from_alloc hit r = and_then m r λ planned.
      λ s. and_then m (locate m st caps i hit (planned.1) s) (put_at m st caps i hit planned)

  after_alloc :
      (ctx : CacheContext) (b : Bool) (r : Result (Allocation × ℕ) × Putting World)
      → r.1.insert_lba ≡ b
      → r.1.key_hash_val ≡ 0
      → r.1.held ≡ owned b ctx.context_entry.lba held
      → ((e : ErrorCode) → b ≡ true → r.0 ≡ err e → FailsOnHit ctx e)
      → Exits (from_alloc (record { context = ctx; exists_in_cache = b }) r)
  after_alloc ctx false (err c, s) fresh key same fails = inl (exit_owned s false fresh same)
  after_alloc ctx true (err c, s) taken key same fails = inr (
    ctx,
    c,
    fails c refl refl,
    refl,
    held-put_exit s ∙ λ j. if taken j then erase (same j) (key j) else same j,
  )
  after_alloc ctx b (ok planned, s) insert key same fails =
      after_locate _ planned _ (locate-PutOwns ctx b (planned.1) s insert same)

  after_cache :
      (r : Result Hit × Putting World)
      → HitOwns r
      → Exits (and_then m r λ hit. λ s. from_alloc hit (alloc m st caps i s))
  after_cache (err c, s) owns = inl (exit_owned s s.insert_lba refl owns)
  after_cache (ok hit, s) (insert, key, same, took) =
      let (insert', key', same') = alloc-Keeps s in
      after_alloc hit.context hit.exists_in_cache (alloc m st caps i s) (insert' ∙ insert)
        (key' ∙ key) (same' ∙ same)
        (λ e. λ taken. λ failed. (s.world, took taken, alloc-allocated s ∙ failed))

-- However the media and the other threads act, kv_put returns with exactly those LBAs taken that the
-- thread had taken before, but for one case: where the cache has the key, the put takes the LBA of that
-- entry without a wait and kv_alloc_for_write then fails, it returns that error and releases the LBA 0
-- in place of that one.
pub kv_put-Releases :
    (m : Media) (st : Store) (caps : Capabilities) (i : PutInput) (cache : Option KvCache)
    (held : List ℕ) (w : m.World)
    → Releases m st caps i held cache w (kv_put m st caps i cache held w)
unfolding kv_put put_body
kv_put-Releases m st caps i cache held w =
    after_cache m st caps i held cache w (use_cache m st caps i cache _)
      (use_cache-HitOwns m st caps i held cache w cache refl)
