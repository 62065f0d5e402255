-- ===== src/Put.antt =====
-- src/kv_store_mgr.cpp: kv_put behind its validation. The cache changes only by the operation itself.
pub mod Release
pub mod Found
pub mod Stored
pub mod RoundTrip
pub mod Lost
use nvmkv.Prelude.{
  ℕ, ◌+◌, Bool, true, false, not, ◌&&◌, Option, none, some, List, [], ◌∷◌, ◌++◌, ltb, ◌==◌,
  if◌then◌else◌, length, take,
}
use nvmkv.Error.{
  ErrorCode, internal_failure, object_exists, Status, success, failure, Result, ok, err,
}
use nvmkv.SyncList.{erase}
use nvmkv.Cache.{
  CacheContext, EntryState, entry_found, entry_empty, entry_delete, entry_not_found, KvCache,
  PutArgs, kv_cache_put,
}
use nvmkv.Cache.Get.{kv_cache_get, zero_context}
use nvmkv.Write.{
  Capabilities, Iov, Prepared, Allocation, WriteArgs, plan_write, kv_alloc_for_write,
  kv_process_for_trim, kv_process_for_write, abs_expiry,
}
use nvmkv.Media.{Media, Store, ExpiryMode, kv_disable_expiry, kv_arbitrary_expiry, kv_global_expiry}
use nvmkv.Gen.{GenArgs, Generated, kv_gen_lba}

pub record PutInput : Type 0 where
  pub pool_id : ℕ
  pub key : List ℕ
  pub value : List ℕ
  pub value_address : ℕ
  pub expiry : ℕ
  pub replace : Bool
  pub gen_count : ℕ

-- The variables of `kv_put` that its exit reads, with the cache and the LBAs that the thread has taken
-- and not yet released.
pub record Putting (W : Type 0) : Type 0 where
  pub cache : Option KvCache
  pub insert_lba : Bool
  pub key_hash_val : ℕ
  pub buf_len : ℕ
  pub held : List ℕ
  pub world : W

-- What the look into the cache gives to the rest.
pub record Hit : Type 0 where
  pub context : CacheContext
  pub exists_in_cache : Bool

abbrev pub missed : CacheContext → Hit
missed ctx = record { context = ctx; exists_in_cache = false }

abbrev pub mode_number : ExpiryMode → ℕ
mode_number kv_disable_expiry = 0
mode_number kv_arbitrary_expiry = 1
mode_number kv_global_expiry = 2

-- The expiry that is written.
abbrev pub put_expiry : Store → PutInput → ExpiryMode → ℕ
put_expiry st i kv_disable_expiry = i.expiry
put_expiry st i kv_arbitrary_expiry = i.expiry
put_expiry st i kv_global_expiry = st.global_expiry

abbrev pub trim_iovs : Option Iov → List Iov
trim_iovs none = []
trim_iovs (some iov) = iov ∷ []

module _ (m : Media) where
  open m use {World}

  abbrev pub PutM : Type 0 → Type 0
  PutM A = Putting World → Result A × Putting World

  abbrev pub and_then :
      {A B : Type 0} → Result A × Putting World → (A → PutM B) → Result B × Putting World
  and_then (ok a, s) f = f a s
  and_then (err c, s) f = (err c, s)

module _ (m : Media) (st : Store) (caps : Capabilities) (i : PutInput) where
  open m use {World, acquire, release, time, get_buf, release_buf, nvm_writev}

  -- A hit: the LBA of the entry is taken. After a wait it is left again and the hit is forgotten.
  pub on_hit : EntryState → CacheContext → PutM m Hit
  on_hit entry_found ctx s =
      let lba = ctx.context_entry.lba in
      let got = acquire lba s.world in
      if got.0
      then (
        ok (missed zero_context),
        record s { held = erase (lba ∷ s.held) lba; world = release lba (got.1) },
      )
      else (
        ok (record { context = ctx; exists_in_cache = true }),
        record s { insert_lba = true; held = lba ∷ s.held; world = got.1 },
      )
  on_hit entry_not_found ctx s = (ok (missed ctx), s)
  on_hit entry_empty ctx s = (ok (missed ctx), s)
  on_hit entry_delete ctx s = (ok (missed ctx), s)

  pub on_get : Bool × CacheContext → PutM m Hit
  unfolding on_hit
  on_get (false, ctx) s = (ok (missed ctx), s)
  on_get (true, ctx) s =
      if not i.replace && not ctx.expired
      then (err object_exists, s)
      else on_hit ctx.context_state ctx s

  pub use_cache : Option KvCache → PutM m Hit
  unfolding on_get
  use_cache none s = (ok (missed zero_context), s)
  use_cache (some c) s =
      let t = time s.world in
      on_get (kv_cache_get c (mode_number st.expiry_mode) (t.0) i.key i.pool_id)
        (record s { world = t.1 })

  abbrev pub put_plan : Allocation
  put_plan = plan_write caps (length i.key) i.value_address (length i.value) 0

  abbrev pub size_of : Option (ℕ × ℕ) → ℕ
  size_of none = 0
  size_of (some (address, size)) = size

  -- `kv_alloc_for_write`, which asks for a buffer only if there are not too many IOVs.
  pub alloc : PutM m (Allocation × ℕ)
  alloc s =
      let got = get_buf put_plan.buf_len s.world in
      (
        kv_alloc_for_write caps (length i.key) i.value_address (length i.value) 0 (λ n. got.0),
        if ltb caps.nvm_max_num_iovs put_plan.iov_count
            then s
            else record s { buf_len = size_of (got.0); world = got.1 },
      )

  abbrev pub gen_args : ℕ → GenArgs
  gen_args address = record {
    key = i.key;
    pool_id = i.pool_id;
    value_len = length i.value;
    buf = address;
    replace = i.replace;
  }

  -- The outputs of `kv_gen_lba`, which always ends.
  pub on_generated : Option (Generated World) → PutM m ℕ
  on_generated none s = (err internal_failure, s)
  on_generated (some (success, lba, g)) s = (
    ok g.trim_len,
    record s { insert_lba = g.insert_lba; key_hash_val = lba; held = g.held; world = g.world },
  )
  on_generated (some (failure c, lba, g)) s = (
    err c,
    record s { insert_lba = g.insert_lba; key_hash_val = lba; held = g.held; world = g.world },
  )

  -- The LBA, and the length to trim behind it.
  pub locate : Hit → ℕ → PutM m ℕ
  unfolding on_generated
  locate hit address s =
      let entry = hit.context.context_entry in
      if hit.exists_in_cache
      then (
        ok (if ltb (length i.value) entry.value_len then entry.value_len else 0),
        record s { key_hash_val = entry.lba },
      )
      else on_generated (kv_gen_lba m st (gen_args address) none s.insert_lba s.held s.world) s

  pub write_args : Allocation × ℕ → ℕ → WriteArgs
  write_args (plan, address) lba = record {
    pool_id = i.pool_id;
    key = i.key;
    value = i.value;
    value_address = i.value_address;
    buf = address;
    user_buffer_usage = plan.uses_user_buffer;
    expiry = put_expiry st i st.expiry_mode;
    gen_count = i.gen_count;
    key_hash_val = lba;
    value_offset = plan.offset;
  }

  -- The first `num_iovs` IOVs of the array, whose first `iovec_index` ones trim.
  abbrev pub submitted : ℕ → Option Iov → List Iov → List Iov
  submitted num_iovs trim writes = take num_iovs (trim_iovs trim ++ writes)

  update_cache : Hit → ℕ → ℕ → Option KvCache → Option KvCache
  update_cache hit lba now none = none
  update_cache hit lba now (some c) = some (
      kv_cache_put c
        (record {
          key = i.key;
          pool_id = i.pool_id;
          value_len = length i.value;
          abs_expiry = abs_expiry (put_expiry st i st.expiry_mode) now;
          gen_count = i.gen_count;
          lba = lba;
        })
        (some hit.context) now)

  -- Behind `nvm_writev`: the entry of the cache is written, and the length of the value returned.
  pub on_written : Hit → ℕ → Status × World → PutM m ℕ
  unfolding update_cache
  on_written hit now (failure c, w) s = (err c, record s { world = w })
  on_written hit now (success, w) s = (
    ok (length i.value),
    record s { cache = update_cache hit s.key_hash_val now s.cache; world = w },
  )

  pub write_out : Hit → Allocation × ℕ → Result (Option Iov) → PutM m ℕ
  unfolding on_written write_args
  write_out hit planned (err c) s = (err c, s)
  write_out hit planned (ok trim) s =
      let t = time s.world in
      let x = kv_process_for_write caps (write_args planned s.key_hash_val) (t.0) in
      on_written hit (t.0)
        (nvm_writev x i.value (submitted (planned.0.iov_count) trim x.iovec) (t.1)) s

  pub put_at : Hit → Allocation × ℕ → ℕ → PutM m ℕ
  unfolding write_out
  put_at hit planned trim_len s =
      write_out hit planned (kv_process_for_trim caps (length i.value) trim_len s.key_hash_val) s

  pub put_body : PutM m ℕ
  unfolding use_cache alloc locate put_at
  put_body s = and_then m (use_cache s.cache s) λ hit. λ s'.
      and_then m (alloc s')
        λ planned. λ s''. and_then m (locate hit (planned.1) s'') (put_at hit planned)

  -- `end_kv_put`: the buffer is given back, and the LBA is left where one was taken.
  pub put_exit : Putting World → Putting World
  put_exit s =
      let w = if s.buf_len == 0 then s.world else release_buf s.buf_len s.world in
      if s.insert_lba
      then record s { held = erase s.held s.key_hash_val; world = release s.key_hash_val w }
      else record s { world = w }

  -- The result is the length of the value, or the error that `errno` is set to.
  pub kv_put : Option KvCache → List ℕ → World → Result ℕ × Putting World
  unfolding put_body put_exit
  kv_put cache held w =
      let r = put_body (record {
        cache = cache;
        insert_lba = false;
        key_hash_val = 0;
        buf_len = 0;
        held = held;
        world = w;
      }) in
      (r.0, put_exit (r.1))
