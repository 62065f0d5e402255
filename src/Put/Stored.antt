-- ===== src/Put/Stored.antt =====
-- What kv_put of src/kv_store_mgr.cpp writes while no other thread acts on the media.
use mathlib.Core.Path.{subst}
use nvmkv.Prelude.{
  ℕ, suc, ◌-◌, ◌^◌, ◌<◌, ◌≡◌, true, false, Option, none, some, List, ◌∷◌, ltb, ◌==◌, length, take,
  Bool-cases, inl, inr, refl, ◌∙◌, ap, arith,
}
use nvmkv.Error.{Status, success, Result, ok}
use nvmkv.Write.{Capabilities, Iov, Prepared, Allocation, kv_process_for_trim, kv_process_for_write}
use nvmkv.Write.Head.{
  StartsAt, kv_process_for_write-StartsAt, kv_process_for_write_header, kv_alloc_for_write-ok,
}
use nvmkv.Cache.Get.{zero_context}
use nvmkv.Media.{Media, Store, starts_with}
use nvmkv.Media.Quiet.{Pair, IsQuiet, Writes, put_pair}
use nvmkv.Gen.{Gen, Generated, kv_gen_lba}
use nvmkv.Put.{
  PutInput, Putting, and_then, alloc, put_plan, use_cache, gen_args, locate, on_generated, put_at,
  write_args, write_out, on_written, missed, submitted, put_body, put_exit, kv_put,
}

-- Of the IOVs of a device and a put: there are not too many, and at least one.
pub record Fits (m : Media) (st : Store) (caps : Capabilities) (i : PutInput) : Type 0 where
  pub few : ltb caps.nvm_max_num_iovs (put_plan m st caps i).iov_count ≡ false
  pub some_iovs : ((put_plan m st caps i).iov_count == 0) ≡ false
  pub sector : 0 < caps.nvm_sector_size

-- The pair that a put writes.
abbrev pub IsPutPair : PutInput → Pair → Type 0
IsPutPair i p =
    (p.header.key_len ≡ length i.key)
    × (p.header.value_len ≡ length i.value)
    × (p.header.pool_id ≡ i.pool_id)
    × (p.header.gen_count ≡ i.gen_count)
    × (starts_with p.body i.key ≡ true)

module _ (m : Media) (st : Store) (caps : Capabilities) (i : PutInput) (q : IsQuiet m)
    (ws : Writes m q) (fits : Fits m st caps i) (held : List ℕ) (w : m.World) where
  open m use {World}

  abbrev pub plan : Allocation
  plan = put_plan m st caps i

  abbrev pub address : ℕ
  address = ws.address plan.buf_len w

  -- The variables when the buffer is there, and the world then.
  abbrev pub buffered : World
  buffered = (m.get_buf plan.buf_len w).1

  abbrev pub begun : Putting World
  begun = record {
    cache = none;
    insert_lba = false;
    key_hash_val = 0;
    buf_len = 0;
    held = held;
    world = w;
  }

  abbrev pub allocated : Putting World
  allocated = record begun { buf_len = ws.size plan.buf_len w; world = buffered }

  alloc-allocated : alloc m st caps i begun ≡ (ok (plan, address), allocated)
  unfolding alloc
  alloc-allocated =
      rw (fits.few, ws.buffer plan.buf_len w)
        (ap (λ (r : Result (Allocation × ℕ)). (r, allocated))
          (kv_alloc_for_write-ok caps (length i.key) i.value_address (length i.value) address
            (ws.size plan.buf_len w) fits.few (ws.buffer_fits plan.buf_len w)))

  -- The put behind the allocation.
  body_located :
      (r : Generated World)
      → kv_gen_lba m st (gen_args m st caps i address) none false held buffered ≡ some r
      → put_body m st caps i begun
        ≡ and_then m
            (on_generated m st caps i (some r) allocated)
            (put_at m st caps i (missed zero_context) (plan, address))
  unfolding put_body use_cache locate
  body_located r found =
      ap
        (λ (x : Result (Allocation × ℕ) × Putting World). and_then m x λ planned. λ s.
          and_then m (locate m st caps i (missed zero_context) (planned.1) s)
            (put_at m st caps i (missed zero_context) planned))
        alloc-allocated
      ∙ ap
          (λ (o : Option (Generated World)).
            and_then m (on_generated m st caps i o allocated)
              (put_at m st caps i (missed zero_context) (plan, address)))
          found

  -- The variables when the LBA is chosen, and what is written then.
  abbrev pub located : ℕ → Gen World → Putting World
  located lba g = record allocated {
    insert_lba = g.insert_lba;
    key_hash_val = lba;
    held = g.held;
    world = g.world;
  }

  abbrev pub prepared : ℕ → Gen World → Prepared
  prepared lba g =
      kv_process_for_write caps (write_args m st caps i (plan, address) lba) ((m.time g.world).0)

  pub body_written :
      (trim : Option Iov) (lba : ℕ) (g : Gen World)
      → kv_gen_lba m st (gen_args m st caps i address) none false held buffered
        ≡ some (success, lba, g)
      → kv_process_for_trim caps (length i.value) g.trim_len lba ≡ ok trim
      → put_body m st caps i begun
        ≡ on_written m st caps i
            (missed zero_context)
            ((m.time g.world).0)
            (m.nvm_writev
              (prepared lba g)
              i.value
              (submitted m st caps i plan.iov_count trim (prepared lba g).iovec)
              ((m.time g.world).1))
            (located lba g)
  unfolding on_generated put_at write_out
  body_written trim lba g found the_trim =
      body_located (success, lba, g) found
      ∙ ap
          (λ (r : Result (Option Iov)).
            write_out m st caps i (missed zero_context) (plan, address) r (located lba g))
          the_trim

  -- The batch that is submitted writes the header first.
  batch-StartsAt :
      (lba : ℕ) (g : Gen World)
      → lba < 2 ^ 64
      → StartsAt lba (take plan.iov_count (prepared lba g).iovec)
  unfolding write_args
  batch-StartsAt lba g small =
      let (iov, rest, e, opcode, at) =
        kv_process_for_write-StartsAt caps (write_args m st caps i (plan, address) lba)
          ((m.time g.world).0) fits.sector small in
      let n : plan.iov_count ≡ suc (plan.iov_count - 1) = ground (arith, fits.some_iovs) in
      (iov, take (plan.iov_count - 1) rest, (λ j. take (n j) (e j)), opcode, at)

  pub contents-put_exit :
      (s : Putting World) → q.contents (put_exit m st caps i s).world ≡ q.contents s.world
  unfolding put_exit
  contents-put_exit s = elim (Bool-cases (s.buf_len == 0)) [
    | inl no_buffer ↦ elim (Bool-cases s.insert_lba) [
      | inl taken ↦ rw (no_buffer, taken) (ws.release_keep s.key_hash_val s.world)
      | inr fresh ↦ rw (no_buffer, fresh) refl
    ]
    | inr buffer ↦ elim (Bool-cases s.insert_lba) [
      | inl taken ↦
          rw (buffer, taken)
            (ws.release_keep s.key_hash_val (m.release_buf s.buf_len s.world)
              ∙ ws.release_buf_keep s.buf_len s.world)
      | inr fresh ↦ rw (buffer, fresh) (ws.release_buf_keep s.buf_len s.world)
    ]
  ]

  abbrev pub Stores : ℕ → Result ℕ × Putting World → Type 0
  Stores lba r =
      (p : Pair) × IsPutPair i p
      × (r.0 ≡ ok (length i.value))
      × (q.contents (r.1.world) ≡ put_pair (q.contents w) lba p)

  pair_of-IsPutPair : (lba : ℕ) (g : Gen World) → IsPutPair i (ws.pair_of (prepared lba g) i.value)
  unfolding write_args
  pair_of-IsPutPair lba g =
      let x = prepared lba g in
      let args = write_args m st caps i (plan, address) lba in
      let (key, key_len, value_len, pool, gen) =
        kv_process_for_write_header caps args ((m.time g.world).0) in
      rw (ws.header_of x i.value) (
        key_len,
        value_len,
        pool,
        gen,
        subst (λ (k : List ℕ). starts_with (ws.pair_of x i.value).body k ≡ true) key
            (ws.key_of x i.value),
      )

  pub kv_put-Stores :
      (lba : ℕ) (g : Gen World)
      → kv_gen_lba m st (gen_args m st caps i address) none false held buffered
        ≡ some (success, lba, g)
      → kv_process_for_trim caps (length i.value) g.trim_len lba ≡ ok none
      → lba < 2 ^ 64
      → q.contents g.world ≡ q.contents w
      → Stores lba (kv_put m st caps i none held w)
  unfolding kv_put on_written
  kv_put-Stores lba g found no_trim small kept =
      let x = prepared lba g in
      let t = m.time g.world in
      let (iov, rest, e, opcode, at) = batch-StartsAt lba g small in
      let (wrote, there) = ws.written x i.value iov rest (t.1) opcode in
      let hit = missed zero_context in
      let body =
        body_written none lba g found no_trim
        ∙ ap
            (λ (iovs : List Iov).
              on_written m st caps i hit (t.0) (m.nvm_writev x i.value iovs (t.1)) (located lba g))
            e
        ∙ ap
            (λ (r : Status).
              on_written m st caps i hit (t.0) (r, (m.nvm_writev x i.value (iov ∷ rest) (t.1)).1)
                (located lba g))
            wrote in
      let before : q.contents (t.1) ≡ q.contents w = q.time_keep g.world ∙ kept in
      (
        ws.pair_of x i.value,
        pair_of-IsPutPair lba g,
        ap (λ (r : Result ℕ × Putting World). r.0) body,
        contents-put_exit ((put_body m st caps i begun).1)
            ∙ ap (λ (r : Result ℕ × Putting World). q.contents (r.1.world)) body
            ∙ there
            ∙ λ j. put_pair (before j) (at j) (ws.pair_of x i.value),
      )
