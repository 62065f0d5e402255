-- ===== src/Gen.antt =====
-- src/kv_store_mgr.cpp: kv_gen_lba, which looks for the LBA that a put writes to and takes it in the
-- list of busy LBAs.
pub mod Held
pub mod Ends
pub mod AtKey
pub mod Choice
pub mod Batch
use nvmkv.Prelude.{
  ℕ, zero, suc, ◌+◌, ◌-◌, Bool, true, false, ◌&&◌, Option, none, some, List, [], ◌∷◌, ltb, ◌==◌,
  if◌then◌else◌, Bool-cases,
}
use nvmkv.Error.{
  ErrorCode, internal_failure, object_exists, object_not_found, Status, success, failure, Result,
  ok, err,
}
use nvmkv.Cache.{bytes_eq}
use nvmkv.SyncList.{erase}
use nvmkv.Write.{KvHeader}
use nvmkv.Media.{
  ReadIov, Reading, Media, Store, max_collision, probe_lba, holds_key, is_not_found, kv_expire,
}

pub record GenArgs : Type 0 where
  pub key : List ℕ
  pub pool_id : ℕ
  pub value_len : ℕ
  pub buf : ℕ
  pub replace : Bool

-- `lba_list` of a batch: the key at each LBA that the batch uses already.
abbrev pub LbaList : Type 0
LbaList = List (ℕ × List ℕ)

abbrev pub lba_find : LbaList → ℕ → Option (List ℕ)
lba_find [] lba = none
lba_find ((l, key) ∷ rest) lba = if l == lba then some key else lba_find rest lba

-- Where the walk over `lba_list` ends: at a round whose LBA the batch gave to the same key, or at the
-- round from which the search goes on.
pub data Start : Type 0 where
  duplicate : ℕ → Start
  start : ℕ → Start

-- The loop over `lba_list`, for at most `n` more rounds. `hash_itr` of the code is `itr + 1`.
pub walk_list : Store → GenArgs → LbaList → ℕ → ℕ → Start
walk_list st a lbas zero itr = start itr
walk_list st a lbas (suc n) itr = elim (lba_find lbas (probe_lba st a.key a.pool_id itr)) [
  | none ↦ start itr
  | some key ↦ elim (bytes_eq key a.key) [
    | true ↦ duplicate itr
    | false ↦ walk_list st a lbas n (itr + 1)
  ]
]

-- The outputs, with the LBAs that this thread has taken and not yet released.
pub record Gen (W : Type 0) : Type 0 where
  pub trim_len : ℕ
  pub insert_lba : Bool
  pub held : List ℕ
  pub world : W

-- How a round of the inner loop ends: with the function, with a `break`, or with the `continue` that
-- reads again.
pub data ReadEnd : Type 0 where
  returned : Status → ReadEnd
  left again : ReadEnd

-- How the range test goes on: with the function, or to the read.
pub data Reached (W : Type 0) : Type 0 where
  stop : Status → Gen W → Reached W
  go : Gen W → Reached W

-- The result with `key_hash_val`.
abbrev pub Generated : Type 0 → Type 0
Generated W = Status × ℕ × Gen W

module _ (m : Media) (st : Store) (a : GenArgs) where
  open m use {World, kv_range_exists, nvm_readv, acquire, release}

  abbrev pub take_lba : ℕ → Gen World → Bool × Gen World
  take_lba lba g =
      let got = acquire lba g.world in
      (got.0, record g { insert_lba = true; held = lba ∷ g.held; world = got.1 })

  abbrev pub note_trim : KvHeader → Gen World → Gen World
  note_trim hdr g =
      if ltb a.value_len hdr.value_len then record g { trim_len = hdr.value_len } else g

  pub on_expired : ℕ → Gen World → ReadEnd × Gen World
  on_expired lba g =
      let t = take_lba lba g in
      if g.insert_lba
      then (returned success, g)
      else if t.0
      then (again, t.1)
      else (returned success, t.1)

  pub on_replace : ℕ → KvHeader → Gen World → ReadEnd × Gen World
  on_replace lba hdr g =
      let t = take_lba lba g in
      if g.insert_lba
      then (left, note_trim hdr g)
      else if t.0
      then (again, t.1)
      else (left, note_trim hdr (t.1))

  -- Behind `kv_expire`, which is not to delete.
  pub on_key : ℕ → KvHeader → Status → Gen World → ReadEnd × Gen World
  unfolding on_expired on_replace
  on_key lba hdr (failure c) g =
      if is_not_found c then on_expired lba g else (returned (failure c), g)
  on_key lba hdr success g =
      if a.replace then on_replace lba hdr g else (returned (failure object_exists), g)

  pub on_other : ℕ → Gen World → ReadEnd × Gen World
  on_other lba g =
      if g.insert_lba
      then (
        left,
        record g { insert_lba = false; held = erase g.held lba; world = release lba g.world },
      )
      else (left, g)

  pub on_reading : ℕ → Gen World → Result Reading × World → ReadEnd × Gen World
  unfolding on_key on_other
  on_reading lba g (err c, w) = (returned (failure c), record g { world = w })
  on_reading lba g (ok r, w) =
      let checked = kv_expire m st.expiry_mode r.header lba false w in
      if holds_key r a.key a.pool_id
      then on_key lba r.header (checked.0) (record g { world = checked.1 })
      else on_other lba (record g { world = w })

  -- A round of the inner loop.
  pub gen_read : ℕ → Gen World → ReadEnd × Gen World
  unfolding on_reading
  gen_read lba g = on_reading lba g (
      nvm_readv (record { iov_base = a.buf; iov_len = st.sector_size; iov_lba = lba } ∷ []) g.world)

  -- How the inner loop goes on behind a round.
  abbrev pub settle :
      (Gen World → Option (ReadEnd × Gen World))
      → ReadEnd × Gen World
      → Option (ReadEnd × Gen World)
  settle next (again, g) = next g
  settle next (returned s, g) = some (returned s, g)
  settle next (left, g) = some (left, g)

  -- The inner loop: `none` where the fuel ran out.
  pub gen_reads : ℕ → ℕ → Gen World → Option (ReadEnd × Gen World)
  unfolding gen_read
  gen_reads zero lba g = none
  gen_reads (suc n) lba g = settle (gen_reads n lba) (gen_read lba g)

  pub on_range : ℕ → Gen World → Result ℕ × World → Reached World
  on_range lba g (ok found, w) = go (record g { world = w })
  on_range lba g (err c, w) =
      let t = take_lba lba (record g { world = w }) in
      if is_not_found c
      then if t.0 then go (t.1) else stop success (t.1)
      else stop (failure internal_failure) (record g { world = w })

  -- How the outer loop goes on behind the reads at an LBA: with the LBA taken it ends.
  abbrev pub on_left :
      (Gen World → Option (Generated World)) → ℕ → Gen World → Bool → Option (Generated World)
  on_left next lba g true = some (success, lba, g)
  on_left next lba g false = next g

  abbrev pub after_reads :
      (Gen World → Option (Generated World))
      → ℕ
      → Option (ReadEnd × Gen World)
      → Option (Generated World)
  after_reads next lba none = none
  after_reads next lba (some (again, g)) = none
  after_reads next lba (some (returned s, g)) = some (s, lba, g)
  after_reads next lba (some (left, g)) = on_left next lba g g.insert_lba

  -- There is fuel for two reads at an LBA.
  abbrev pub after_range :
      (Gen World → Option (Generated World)) → ℕ → Reached World → Option (Generated World)
  after_range next lba (stop s g) = some (s, lba, g)
  after_range next lba (go g) = after_reads next lba (gen_reads 2 lba g)

  -- The outer loop, with `n` rounds left from `itr` on.
  pub gen_loop : ℕ → ℕ → Gen World → Option (Generated World)
  unfolding on_range gen_reads
  gen_loop zero itr g = some (failure internal_failure, probe_lba st a.key a.pool_id itr, g)
  gen_loop (suc n) itr g =
      let lba = probe_lba st a.key a.pool_id itr in
      after_range (gen_loop n (itr + 1)) lba
        (on_range lba g (kv_range_exists lba st.max_search_range g.world))

  pub gen_from : Start → Gen World → Option (Generated World)
  unfolding gen_loop
  gen_from (duplicate itr) g = some (success, probe_lba st a.key a.pool_id itr, g)
  gen_from (start itr) g =
      if itr == max_collision - 1
      then some (failure internal_failure, probe_lba st a.key a.pool_id itr, g)
      else gen_loop (max_collision - itr) itr g

  -- `insert` is what the caller left in `insert_lba`.
  pub kv_gen_lba : Option LbaList → Bool → List ℕ → World → Option (Generated World)
  unfolding gen_from walk_list
  kv_gen_lba none insert held w =
      gen_loop max_collision 0
        (record { trim_len = 0; insert_lba = insert; held = held; world = w })
  kv_gen_lba (some lbas) insert held w =
      gen_from (walk_list st a lbas (max_collision - 1) 0)
        (record { trim_len = 0; insert_lba = insert; held = held; world = w })
