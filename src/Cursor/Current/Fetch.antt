-- ===== src/Cursor/Current/Fetch.antt =====
-- src/kv_store_mgr.cpp: which pair kv_get_current gives out.
use nvmkv.Prelude.{
  ℕ, zero, suc, ◌+◌, ◌-◌, ◌*◌, ◌%◌, ◌^◌, ◌<◌, ◌≤◌, ◌≡◌, true, false, ◌||◌, Option, none, some, List,
  [], ◌∷◌, length, ltb, ◌==◌, if◌then◌else◌, refl, sym, ap, ◌∙◌, arith, inl, inr, Bool-cases,
  Option-cases,
}
use nvmkv.Error.{object_not_found, success, Result, ok, err}
use nvmkv.Pool.{PoolMgr, PoolId}
use nvmkv.Write.{KvHeader}
use nvmkv.Media.{Media, ReadIov, Store, ExpiryMode, kv_expire, is_aligned, nvm_readable}
use nvmkv.Media.Quiet.{Pair, IsQuiet, readable_one, readable_two, pair_expired, kv_expire-live}
use nvmkv.Media.Expiry.{kv_expire-queued}
use nvmkv.Ranges.{BlockRange, RangeIter, Lister, IsLister}
use nvmkv.Iterator.{BatchIter, at, IterTable, current, get_iter_loc, validate_iter, kv_regular_iter}
use nvmkv.Iterator.Walk.{IterState}
use nvmkv.Iterator.Walk.Pending.{IsOpen, validate_iter-IsOpen, pending}
use nvmkv.Iterator.Walk.Visits.{of_pool, stopped, ran_out, iter_over_pool-Walks}
use nvmkv.Cursor.Current.{
  CurrentArgs, CurrentPair, current_pair, current_iovs, value_part, value_iov, Round, move_on,
  on_current, on_current_buf, current_loop,
}

-- What the media holds whatever the calls of this operation do: the same pairs and ranges in each state,
-- a buffer that is aligned and large enough, and an expiry queue that takes what has expired.
pub record IsFixed (m : Media) (q : IsQuiet m) (lister : Lister m) (lib : IsLister m lister)
    (pairs : ℕ → Option Pair) : Type 0 where
  pub holds : (w : m.World) → q.contents w ≡ pairs
  pub listed : (it : RangeIter) (v w : m.World) → lib.upcoming it v ≡ lib.upcoming it w
  pub address : ℕ → m.World → ℕ
  pub size : ℕ → m.World → ℕ
  pub buffer : (n : ℕ) (w : m.World) → (m.get_buf n w).0 ≡ some (address n w, size n w)
  pub buffer_fits : (n : ℕ) (w : m.World) → ltb (size n w) n ≡ false
  pub buffer_aligned : (n : ℕ) (w : m.World) → is_aligned q.sector_size (address n w) ≡ true
  pub queued :
      (lba : ℕ) (hdr : KvHeader) (w : m.World) → (m.update_expiry_queue lba hdr w).0 ≡ success

abbrev pub shown_pair : ExpiryMode → ℕ → Option Pair → Option Pair
shown_pair mode now none = none
shown_pair mode now (some p) =
    if p.header.key_len == 0 || ltb 128 p.header.key_len
    then none
    else if pair_expired mode p.header now
    then none
    else some p

-- The first of the ranges at which a key stands that has not expired.
abbrev pub first_shown : ExpiryMode → ℕ → (ℕ → Option Pair) → List BlockRange → Option Pair
first_shown mode now pairs [] = none
first_shown mode now pairs (r ∷ rs) =
    let rest = first_shown mode now pairs rs in
    elim (shown_pair mode now (pairs r.start_lba)) [ none ↦ rest | some p ↦ some p ]

module _ (m : Media) (q : IsQuiet m) (lister : Lister m) (lib : IsLister m lister)
    (pairs : ℕ → Option Pair) (fixed : IsFixed m q lister lib pairs) (mgr : PoolMgr) (st : Store)
    (a : CurrentArgs) (i : ℕ) (id : PoolId) (hash : ℕ) where
  abbrev pub outcome : Option Pair → Result CurrentPair
  outcome none = err object_not_found
  outcome (some p) = ok (current_pair m lister mgr st a p.header p.body)

  abbrev pub Gives : List BlockRange → Option (Result CurrentPair × IterState m.World) → Type 0
  Gives todo o =
      (s' : IterState m.World) × (o
        ≡ some (outcome (first_shown st.expiry_mode q.now pairs todo), s'))

  abbrev to_come : BatchIter → m.World → List BlockRange
  to_come b w = of_pool st id hash (pending m lister lib b w)

  pending_fixed :
      (b : BatchIter) (v w : m.World) → pending m lister lib b v ≡ pending m lister lib b w
  pending_fixed b v w = rw (fixed.listed (record b.it { filter_expiry = 0 }) v w) refl

  abbrev position_of : Result (ℕ × BatchIter) → Result BlockRange
  position_of (err c) = err c
  position_of (ok (j, b)) = ok (current b)

  position :
      (t : IterTable) (b : BatchIter)
      → IsOpen mgr i t b
      → get_iter_loc mgr t (at i) kv_regular_iter ≡ ok (current b)
  unfolding get_iter_loc validate_iter
  position t b h =
      ap (λ (x : Result (ℕ × BatchIter)). position_of x) (validate_iter-IsOpen mgr i t b h)

  -- What is given from a later round on.
  abbrev Later : Round m lister mgr st a → ℕ → Type 0
  Later next n =
      (held : Option ℕ) (s : IterState m.World) (b : BatchIter)
      → b.pool_id ≡ id
      → b.pool_hash ≡ hash
      → IsOpen mgr i (s.table) b
      → length (pending m lister lib b s.world) < n
      → Gives (current b ∷ to_come b s.world) (next held s)

  move_on-Gives :
      (next : Round m lister mgr st a) (fuel size : ℕ) (s : IterState m.World) (b : BatchIter)
      → st.max_pools ≤ 2 ^ (st.val_bits - 1)
      → b.pool_id ≡ id
      → b.pool_hash ≡ hash
      → IsOpen mgr i (s.table) b
      → length (pending m lister lib b s.world) < fuel
      → Later next (length (pending m lister lib b s.world))
      → Gives (to_come b s.world) (move_on m lister mgr st a next fuel (at i) size s)
  move_on-Gives next fuel size s b few is_id is_hash h enough later =
      elim (iter_over_pool-Walks m lister lib mgr st i id hash fuel s b few is_id is_hash h
        enough) [
          | stopped s' b' e h' id' hash' kept less ↦
              let back = record s' { world = m.release_buf size s'.world } in
              rw (e, kept, pending_fixed b' s'.world back.world)
                (later (some size) back b' id' hash' h'
                  (omega (arith, less, ap length (pending_fixed b' back.world s'.world))))
          | ran_out s' e nothing ↦
              rw (e, nothing) (record s' { world = m.release_buf size s'.world }, refl)
        ]

  abbrev shown_or : List BlockRange → Option Pair → Option Pair
  shown_or rest none = first_shown st.expiry_mode q.now pairs rest
  shown_or rest (some p) = some p

  skip :
      (r : BlockRange) (rest : List BlockRange)
      (o : Option (Result CurrentPair × IterState m.World))
      → shown_pair st.expiry_mode q.now (pairs r.start_lba) ≡ none
      → Gives rest o
      → Gives (r ∷ rest) o
  skip r rest o h (s', e) =
      (s', e ∙ ap (λ (x : Option Pair). some (outcome (shown_or rest x), s')) (sym h))

  take :
      (r : BlockRange) (rest : List BlockRange) (p : Pair)
      (o : Option (Result CurrentPair × IterState m.World)) (s' : IterState m.World)
      → shown_pair st.expiry_mode q.now (pairs r.start_lba) ≡ some p
      → o ≡ some (outcome (some p), s')
      → Gives (r ∷ rest) o
  take r rest p o s' h e =
      (s', e ∙ ap (λ (x : Option Pair). some (outcome (shown_or rest x), s')) (sym h))

  readable_current :
      (address : ℕ) (r : BlockRange)
      → is_aligned q.sector_size address ≡ true
      → is_aligned q.sector_size a.value ≡ true
      → nvm_readable q.sector_size q.max_iovs (current_iovs m lister mgr st a address r) ≡ true
  readable_current address r buf value =
      let len = r.sectors * st.sector_size % 2 ^ 64 in
      let first : ReadIov = record {
        iov_base = address;
        iov_len = st.sector_size;
        iov_lba = r.start_lba;
      } in
      let second : ReadIov = record {
        iov_base = a.value;
        iov_len = value_part m lister mgr st a len;
        iov_lba = (r.start_lba + 1) % 2 ^ 64;
      } in
      elim (Bool-cases (ltb st.sector_size (r.sectors * st.sector_size % 2 ^ 64))) [
        | inl long ↦ rw long (readable_two q first second buf value)
        | inr short ↦ rw short (readable_one q first buf)
      ]

  on_current-Gives :
      (next : Round m lister mgr st a) (fuel size address : ℕ) (r : BlockRange)
      (rest : List BlockRange) (w : m.World) (t : IterTable)
      → is_aligned q.sector_size address ≡ true
      → is_aligned q.sector_size a.value ≡ true
      → ((v : m.World)
          → Gives rest
              (move_on m lister mgr st a next fuel (at i) size (record { table = t; world = v })))
      → Gives (r ∷ rest) (
          on_current m lister mgr st a next fuel
            (at i)
            size
            r
            (m.nvm_readv (current_iovs m lister mgr st a address r) w)
            t)
  unfolding on_current
  on_current-Gives next fuel size address r rest w t buf value moved =
      let iovs = current_iovs m lister mgr st a address r in
      let w' = (m.nvm_readv iovs w).1 in
      let first : ReadIov = record {
        iov_base = address;
        iov_len = st.sector_size;
        iov_lba = r.start_lba;
      } in
      let behind = value_iov m lister mgr st a (r.sectors * st.sector_size % 2 ^ 64) r in
      let passes = readable_current address r buf value in
      elim (Option-cases (pairs r.start_lba)) [
        | inl nothing ↦
            let empty =
              q.hole first behind w
                (ap (λ (f : ℕ → Option Pair). f r.start_lba) (fixed.holds w) ∙ nothing) in
            skip r rest _ (rw nothing refl) (rw (q.reads iovs w passes, empty) (moved w'))
        | inr (p, there) ↦
            let (some_bytes, hdr, body) =
              q.pair first behind w p
                (ap (λ (f : ℕ → Option Pair). f r.start_lba) (fixed.holds w) ∙ there) in
            elim (Bool-cases (p.header.key_len == 0 || ltb 128 p.header.key_len)) [
              | inl bad ↦
                  skip r rest _ (rw (there, bad) refl)
                    (rw (q.reads iovs w passes, some_bytes, hdr, bad) (moved w'))
              | inr good ↦ elim (Bool-cases (pair_expired st.expiry_mode p.header q.now)) [
                | inl old ↦ skip r rest _ (rw (there, good, old) refl) (
                    rw
                      (
                        q.reads iovs w passes,
                        some_bytes,
                        hdr,
                        good,
                        kv_expire-queued m q fixed.queued st.expiry_mode p.header r.start_lba w'
                            old,
                      )
                      (moved ((kv_expire m st.expiry_mode p.header r.start_lba true w').1)))
                | inr live ↦
                    take r rest p _
                      (record {
                        table = t;
                        world =
                            m.release_buf size
                              ((kv_expire m st.expiry_mode p.header r.start_lba true w').1);
                      })
                      (rw (there, good, live) refl)
                      (rw
                        (
                          q.reads iovs w passes,
                          some_bytes,
                          hdr,
                          body,
                          good,
                          kv_expire-live m q st.expiry_mode p.header r.start_lba w' live,
                        )
                        refl)
              ]
            ]
      ]

  pub current_loop-Gives :
      (n fuel : ℕ) (held : Option ℕ) (s : IterState m.World) (b : BatchIter)
      → is_aligned q.sector_size a.value ≡ true
      → st.max_pools ≤ 2 ^ (st.val_bits - 1)
      → b.pool_id ≡ id
      → b.pool_hash ≡ hash
      → IsOpen mgr i (s.table) b
      → length (pending m lister lib b s.world) < fuel
      → length (pending m lister lib b s.world) < n
      → Gives (current b ∷ to_come b s.world) (current_loop m lister mgr st a n fuel (at i) held s)
  unfolding current_loop on_current_buf
  current_loop-Gives zero fuel held s b value few is_id is_hash h enough rounds =
      absurd (omega arith)
  current_loop-Gives (suc n) fuel held s b value few is_id is_hash h enough rounds =
      let w = (m.get_buf st.sector_size s.world).1 in
      let n_fixed = λ (v : m.World). ap length (pending_fixed b v s.world) in
      rw
        (
          position s.table b h,
          current_loop,
          fixed.buffer st.sector_size s.world,
          fixed.buffer_fits st.sector_size s.world,
        )
        (on_current-Gives (current_loop m lister mgr st a n fuel (at i)) fuel _ _ (current b)
          (to_come b s.world) w (s.table) (fixed.buffer_aligned st.sector_size s.world) value
          (λ v. rw (pending_fixed b s.world v) (
            move_on-Gives _ fuel _ (record { table = s.table; world = v }) b few is_id is_hash h
              (omega (arith, enough, n_fixed v))
              (λ held' s' b' id' hash' h' less.
                current_loop-Gives n fuel held' s' b' value few id' hash' h'
                  (omega (arith, less, enough, n_fixed v))
                  (omega (arith, less, rounds, n_fixed v))))))
