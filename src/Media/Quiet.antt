-- ===== src/Media/Quiet.antt =====
-- The media as src/kv_store_mgr.cpp relies on it while no other thread acts on it: pairs at LBAs, the
-- documented results of the device library for them, and the search of a probe sequence.
use nvmkv.Prelude.{
  ℕ, zero, suc, ◌+◌, ◌≤◌, ◌≡◌, arith, [], Bool, true, false, ◌&&◌, Option, none, some, List, ◌∷◌,
  ◌==◌, length, refl, not, ap, ◌∙◌, ltb, if◌then◌else◌, Bool-cases, inl, inr,
}
use nvmkv.Error.{object_not_found, success, failure, Result, ok, err}
use nvmkv.Write.{KvHeader, Iov, nvm_iov_write, Prepared}
use nvmkv.Media.{
  ReadIov, Reading, Media, is_aligned, nvm_readable, Store, ExpiryMode, kv_disable_expiry,
  kv_arbitrary_expiry, kv_global_expiry, expire_at, kv_expire, starts_with, holds_key, probe_lba,
  max_collision,
}

-- A pair at an LBA: the length of its range in sectors, its header, and the bytes behind it in the
-- first sector.
pub record Pair : Type 0 where
  pub sectors : ℕ
  pub header : KvHeader
  pub body : List ℕ

abbrev pub range_of : Option Pair → Result ℕ
range_of none = err object_not_found
range_of (some p) = ok (p.sectors)

-- The calls of the media when nothing else changes it: a range exists where there is a pair, a read that
-- passes the checks of the wrapper succeeds, gives the pair's first sector and reads nothing where there
-- is none, an LBA is taken without a wait, the clock stands, and none of these changes the pairs. The
-- device takes two IOVs at least in a call.
pub record IsQuiet (m : Media) : Type 0 where
  pub contents : m.World → ℕ → Option Pair
  pub ranges :
      (lba len : ℕ) (w : m.World) → (m.kv_range_exists lba len w).0 ≡ range_of (contents w lba)
  pub ranges_keep :
      (lba len : ℕ) (w : m.World) → contents ((m.kv_range_exists lba len w).1) ≡ contents w
  pub reading : List ReadIov → m.World → Reading
  pub sector_size : ℕ
  pub max_iovs : ℕ
  pub two_iovs : 2 ≤ max_iovs
  pub reads :
      (iovs : List ReadIov) (w : m.World)
      → nvm_readable sector_size max_iovs iovs ≡ true
      → (m.nvm_readv iovs w).0 ≡ ok (reading iovs w)
  pub reads_keep :
      (iovs : List ReadIov) (w : m.World) → contents ((m.nvm_readv iovs w).1) ≡ contents w
  pub hole :
      (iov : ReadIov) (rest : List ReadIov) (w : m.World)
      → contents w (iov.iov_lba) ≡ none
      → (reading (iov ∷ rest) w).read_len ≡ 0
  pub pair :
      (iov : ReadIov) (rest : List ReadIov) (w : m.World) (p : Pair)
      → contents w (iov.iov_lba) ≡ some p
      → (((reading (iov ∷ rest) w).read_len == 0) ≡ false)
        × ((reading (iov ∷ rest) w).header ≡ p.header)
        × ((reading (iov ∷ rest) w).body ≡ p.body)
  pub no_wait : (lba : ℕ) (w : m.World) → (m.acquire lba w).0 ≡ false
  pub acquire_keep : (lba : ℕ) (w : m.World) → contents ((m.acquire lba w).1) ≡ contents w
  pub now : ℕ
  pub clock : (w : m.World) → (m.time w).0 ≡ now
  pub time_keep : (w : m.World) → contents ((m.time w).1) ≡ contents w

-- One or two IOVs with aligned buffers pass the checks of the wrapper.
pub readable_one :
    {m : Media} (q : IsQuiet m) (iov : ReadIov)
    → is_aligned q.sector_size iov.iov_base ≡ true
    → nvm_readable q.sector_size q.max_iovs (iov ∷ []) ≡ true
readable_one q iov first =
    let room : ltb q.max_iovs 1 ≡ false = ground (arith, q.two_iovs) in rw (room, first) refl

pub readable_two :
    {m : Media} (q : IsQuiet m) (iov iov' : ReadIov)
    → is_aligned q.sector_size iov.iov_base ≡ true
    → is_aligned q.sector_size iov'.iov_base ≡ true
    → nvm_readable q.sector_size q.max_iovs (iov ∷ iov' ∷ []) ≡ true
readable_two q iov iov' first second =
    let room : ltb q.max_iovs 2 ≡ false = ground (arith, q.two_iovs) in
    rw (room, first, second) refl

-- Whether a pair is the key's.
abbrev pub pair_holds : Option Pair → List ℕ → ℕ → Bool
pair_holds none key pool_id = false
pair_holds (some p) key pool_id =
    p.header.key_len == length key && starts_with p.body key && p.header.pool_id == pool_id

pub holds_key-pair :
    (r : Reading) (p : Pair) (key : List ℕ) (pool_id : ℕ)
    → r.header ≡ p.header
    → r.body ≡ p.body
    → holds_key r key pool_id ≡ pair_holds (some p) key pool_id
unfolding holds_key
holds_key-pair r p key pool_id h b = rw (h, b) refl

-- Whether a pair has expired at a time.
abbrev pub pair_expired : ExpiryMode → KvHeader → ℕ → Bool
pair_expired kv_disable_expiry hdr now = false
pair_expired kv_arbitrary_expiry hdr now = ltb hdr.expiry now && not (hdr.expiry == 0)
pair_expired kv_global_expiry hdr now = ltb hdr.expiry now && not (hdr.expiry == 0)

expire_at_lem :
    (m : Media) (hdr : KvHeader) (lba : ℕ) (curtime : ℕ) (w : m.World)
    → expire_at m hdr lba false (curtime, w) ≡ (
      if ltb hdr.expiry curtime && not (hdr.expiry == 0) then failure object_not_found else success,
      w,
    )
unfolding expire_at
expire_at_lem m hdr lba curtime w =
    elim (Bool-cases (ltb hdr.expiry curtime && not (hdr.expiry == 0))) [
      | inl old ↦ rw old refl
      | inr fresh ↦ rw fresh refl
    ]

expire_now :
    (m : Media) (q : IsQuiet m) (hdr : KvHeader) (lba : ℕ) (w : m.World)
    → expire_at m hdr lba false (m.time w) ≡ (
      if pair_expired kv_global_expiry hdr q.now then failure object_not_found else success,
      (m.time w).1,
    )
expire_now m q hdr lba w =
    expire_at_lem m hdr lba ((m.time w).0) ((m.time w).1)
    ∙ ap
        (λ (t : ℕ). (
          if pair_expired kv_global_expiry hdr t then failure object_not_found else success,
          (m.time w).1,
        ))
        (q.clock w)

-- The check that deletes nothing.
pub kv_expire-pair_expired :
    (m : Media) (q : IsQuiet m) (mode : ExpiryMode) (hdr : KvHeader) (lba : ℕ) (w : m.World)
    → (w' : m.World) × (kv_expire m mode hdr lba false w
        ≡ (if pair_expired mode hdr q.now then failure object_not_found else success, w'))
      × (q.contents w' ≡ q.contents w)
unfolding kv_expire
kv_expire-pair_expired m q kv_disable_expiry hdr lba w = (w, refl, refl)
kv_expire-pair_expired m q kv_arbitrary_expiry hdr lba w =
    ((m.time w).1, expire_now m q hdr lba w, q.time_keep w)
kv_expire-pair_expired m q kv_global_expiry hdr lba w =
    ((m.time w).1, expire_now m q hdr lba w, q.time_keep w)

false_ne_true : false ≡ true → ⊥
false_ne_true h = cc

expire_at_live :
    (m : Media) (hdr : KvHeader) (lba curtime : ℕ) (del_exp : Bool) (w : m.World)
    → (ltb hdr.expiry curtime && not (hdr.expiry == 0)) ≡ false
    → (expire_at m hdr lba del_exp (curtime, w)).0 ≡ success
unfolding expire_at
expire_at_live m hdr lba curtime del_exp w live = rw live refl

pub kv_expire-live :
    (m : Media) (q : IsQuiet m) (mode : ExpiryMode) (hdr : KvHeader) (lba : ℕ) (w : m.World)
    → pair_expired mode hdr q.now ≡ false
    → (kv_expire m mode hdr lba true w).0 ≡ success
unfolding kv_expire
kv_expire-live m q kv_disable_expiry hdr lba w live = refl
kv_expire-live m q kv_arbitrary_expiry hdr lba w live =
    expire_at_live m hdr lba ((m.time w).0) true ((m.time w).1)
      (ap (λ (t : ℕ). ltb hdr.expiry t && not (hdr.expiry == 0)) (q.clock w) ∙ live)
kv_expire-live m q kv_global_expiry hdr lba w live =
    expire_at_live m hdr lba ((m.time w).0) true ((m.time w).1)
      (ap (λ (t : ℕ). ltb hdr.expiry t && not (hdr.expiry == 0)) (q.clock w) ∙ live)

-- The first of `n` rounds from `itr` on that passes a test.
unfoldable pub first_round : (ℕ → Bool) → ℕ → ℕ → Option ℕ
first_round test zero itr = none
first_round test (suc n) itr = elim (test itr) [
  | true ↦ some itr
  | false ↦ first_round test n (itr + 1)
]

-- The first round of a key's probe sequence whose LBA holds the key.
unfoldable pub first_match : (ℕ → Option Pair) → Store → List ℕ → ℕ → Option ℕ
unfolding first_round
first_match pairs st key pool_id =
    first_round (λ itr. pair_holds (pairs (probe_lba st key pool_id itr)) key pool_id) max_collision
      0

pub first_round-passed :
    (test : ℕ → Bool) (n itr : ℕ)
    → test itr ≡ false
    → first_round test (suc n) itr ≡ first_round test n (itr + 1)
unfolding first_round
first_round-passed test n itr h = rw (h, first_round) refl

pub first_round-matched :
    (test : ℕ → Bool) (n itr : ℕ) → test itr ≡ true → first_round test (suc n) itr ≡ some itr
unfolding first_round
first_round-matched test n itr h = rw (h, first_round) refl

-- The pairs after a pair was written.
abbrev pub put_pair : (ℕ → Option Pair) → ℕ → Pair → ℕ → Option Pair
put_pair pairs lba p l = if l == lba then some p else pairs l

-- What a put relies on beside: a buffer that is aligned and large enough, and a batch that succeeds. A batch whose
-- first IOV writes to an LBA puts the pair there whose header and key the buffer holds; the slots of
-- the pairs are disjoint, so that it changes no other.
pub record Writes (m : Media) (q : IsQuiet m) : Type 0 where
  pub address : ℕ → m.World → ℕ
  pub size : ℕ → m.World → ℕ
  pub buffer : (n : ℕ) (w : m.World) → (m.get_buf n w).0 ≡ some (address n w, size n w)
  pub buffer_fits : (n : ℕ) (w : m.World) → ltb (size n w) n ≡ false
  pub buffer_aligned : (n : ℕ) (w : m.World) → is_aligned q.sector_size (address n w) ≡ true
  pub buffer_keep : (n : ℕ) (w : m.World) → q.contents ((m.get_buf n w).1) ≡ q.contents w
  pub release_buf_keep : (n : ℕ) (w : m.World) → q.contents (m.release_buf n w) ≡ q.contents w
  pub release_keep : (lba : ℕ) (w : m.World) → q.contents (m.release lba w) ≡ q.contents w
  pub pair_of : Prepared → List ℕ → Pair
  pub header_of : (x : Prepared) (value : List ℕ) → (pair_of x value).header ≡ x.header
  pub key_of :
      (x : Prepared) (value : List ℕ) → starts_with (pair_of x value).body x.key_bytes ≡ true
  pub written :
      (x : Prepared) (value : List ℕ) (iov : Iov) (rest : List Iov) (w : m.World)
      → iov.iov_opcode ≡ nvm_iov_write
      → ((m.nvm_writev x value (iov ∷ rest) w).0 ≡ success)
        × (q.contents ((m.nvm_writev x value (iov ∷ rest) w).1)
            ≡ put_pair (q.contents w) iov.iov_lba (pair_of x value))
