-- ===== src/Get.antt =====
-- src/kv_store_mgr.cpp: kv_get behind its validation.
pub mod Reports
use nvmkv.Prelude.{ℕ, Bool, true, Option, none, some, List, ltb, if◌then◌else◌}
use nvmkv.Error.{out_of_memory, Status, success, failure, Result, ok, err}
use nvmkv.Write.{KvHeader}
use nvmkv.Media.{Media, Store, kv_expire}
use nvmkv.Read.{ReadArgs, Found, kv_read_media}

-- The arguments but for the ids: the address of the value's buffer and its length.
pub record GetArgs : Type 0 where
  pub key : List ℕ
  pub pool_id : ℕ
  pub value : ℕ
  pub value_len : ℕ
  pub read_exact : Bool

-- `nvm_kv_key_info_t`
pub record KeyInfo : Type 0 where
  pub pool_id : ℕ
  pub key_len : ℕ
  pub value_len : ℕ
  pub expiry : ℕ
  pub gen_count : ℕ

-- What `kv_get` leaves where it succeeds: `key_info`, where it leaves the pool's id as it was, the
-- offset and the length of the bytes that it copies from the buffer of the pool to `value`, if it does,
-- and what it returns.
pub record Got : Type 0 where
  pub key_info : KeyInfo
  pub copied : Option (ℕ × ℕ)
  pub ret_read_len : ℕ

module _ (m : Media) (st : Store) (a : GetArgs) where
  open m use {World, get_buf, release_buf}

  abbrev pub get_args : ℕ → ReadArgs
  get_args address = record {
    key = a.key;
    pool_id = a.pool_id;
    value = a.value;
    value_len = a.value_len;
    buf = address;
    read_exact = a.read_exact;
  }

  pub fill_result : KeyInfo → KvHeader → Got
  fill_result info hdr = record {
    key_info = record info {
      gen_count = hdr.gen_count;
      expiry = hdr.expiry;
      key_len = hdr.key_len;
      value_len = hdr.value_len;
    };
    copied =
        if ltb hdr.value_offset st.sector_size
        then some (hdr.value_offset, hdr.value_len)
        else none;
    ret_read_len = if ltb a.value_len hdr.value_len then a.value_len else hdr.value_len;
  }

  -- Behind `kv_expire`.
  pub on_expiry : KeyInfo → KvHeader → Status → Result Got
  unfolding fill_result
  on_expiry info hdr success = ok (fill_result info hdr)
  on_expiry info hdr (failure c) = err c

  -- Behind `kv_read_media`. What has expired is queued for its deletion.
  pub on_found : KeyInfo → Result Found × World → Result Got × World
  unfolding on_expiry
  on_found info (err c, w) = (err c, w)
  on_found info (ok f, w) =
      let checked = kv_expire m st.expiry_mode f.reading.header f.lba true w in
      (on_expiry info f.reading.header (checked.0), checked.1)

  -- The buffer, and its release at the exit.
  pub with_buffer : KeyInfo → Option (ℕ × ℕ) × World → Result Got × World
  unfolding on_found
  with_buffer info (none, w) = (err out_of_memory, w)
  with_buffer info (some (address, size), w) =
      let r = on_found info (kv_read_media m st (get_args address) w) in
      if ltb size st.sector_size then (err out_of_memory, w) else (r.0, release_buf size (r.1))

  pub kv_get : KeyInfo → World → Result Got × World
  unfolding with_buffer
  kv_get info w = with_buffer info (get_buf st.sector_size w)
