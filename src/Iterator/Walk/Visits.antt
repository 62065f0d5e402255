-- ===== src/Iterator/Walk/Visits.antt =====
-- src/kv_iterator.cpp: what iter_over_pool comes to, and the keys that repeated calls of it visit.
use nvmkv.Prelude.{
  ℕ, zero, suc, ◌-◌, ◌^◌, ◌<◌, ◌≤◌, ◌≡◌, Bool, true, false, ◌||◌, Option, none, some, List, [], ◌∷◌,
  length, bit_and, leb, ◌==◌, if◌then◌else◌, refl, ap, ◌∙◌, arith, inl, inr, Bool-cases,
}
use nvmkv.Error.{object_not_found, Status, success, failure}
use nvmkv.Pool.{PoolMgr, PoolId}
use nvmkv.Validate.{is_all}
use nvmkv.Media.{Media, Store}
use nvmkv.Ranges.{BlockRange, Lister, IsLister}
use nvmkv.Iterator.{BatchIter, at, IterTable, kv_regular_iter, current, slot, pool_mask}
use nvmkv.Iterator.Walk.{
  IterState, at_pool, after_step, walk_on, key_loc_at, walk, iter_over_pool, iterate,
}
use nvmkv.Iterator.Walk.Pending.{
  IsOpen, validate_iter-IsOpen, pending, Steps, arrived, ended, iterate-Steps,
}

-- Whether a range is one of the pool: the low bits of its LBA are the pool's.
abbrev pub in_pool : Store → PoolId → ℕ → BlockRange → Bool
in_pool st id hash r = hash == bit_and r.start_lba (pool_mask st) || is_all id

abbrev pub of_pool : Store → PoolId → ℕ → List BlockRange → List BlockRange
of_pool st id hash [] = []
of_pool st id hash (r ∷ rs) =
    let rest = of_pool st id hash rs in if in_pool st id hash r then r ∷ rest else rest

abbrev pub range_at : IterTable → ℕ → BlockRange
range_at t i = elim (slot t i) [ none ↦ record { start_lba = 0; sectors = 0 } | some b ↦ current b ]

abbrev pub visit_on :
    {W : Type 0}
    → ℕ
    → (IterState W → List BlockRange)
    → Option (Status × IterState W)
    → List BlockRange
visit_on i next none = []
visit_on i next (some (failure c, s)) = []
visit_on i next (some (success, s)) = range_at s.table i ∷ next s

module _ (m : Media) (lister : Lister m) (lib : IsLister m lister) (mgr : PoolMgr) (st : Store)
    (i : ℕ) (id : PoolId) (hash : ℕ) where
  -- What the walk comes to: the next range of the pool, or the end.
  pub data Walks (todo : List BlockRange) (o : Option (Status × IterState m.World)) : Type 0 where
    stopped :
        (s' : IterState m.World) (b' : BatchIter)
        → o ≡ some (success, s')
        → IsOpen mgr i (s'.table) b'
        → b'.pool_id ≡ id
        → b'.pool_hash ≡ hash
        → of_pool st id hash todo
          ≡ current b' ∷ of_pool st id hash (pending m lister lib b' s'.world)
        → length (pending m lister lib b' s'.world) < length todo
        → Walks todo o
    ran_out :
        (s' : IterState m.World)
        → o ≡ some (failure object_not_found, s')
        → of_pool st id hash todo ≡ []
        → Walks todo o

  -- With few pools the bits of the LBA decide.
  at_pool-few :
      (key_loc : ℕ) (s : IterState m.World)
      → leb st.max_pools (2 ^ (st.val_bits - 1)) ≡ true
      → at_pool m lister mgr st id hash key_loc s
        ≡ (if hash == bit_and key_loc (pool_mask st) || is_all id then some success else none, s)
  unfolding at_pool
  at_pool-few key_loc s few = ground (arith, few)

  of_pool_head :
      (r : BlockRange) (todo rest : List BlockRange)
      → todo ≡ r ∷ rest
      → of_pool st id hash todo
        ≡ (if in_pool st id hash r then r ∷ of_pool st id hash rest else of_pool st id hash rest)
  of_pool_head r todo rest split = ap (of_pool st id hash) split

  -- A range that is not of the pool is passed over.
  passed_over :
      (o : Option (Status × IterState m.World)) (r : BlockRange) (todo rest : List BlockRange)
      → todo ≡ r ∷ rest
      → in_pool st id hash r ≡ false
      → Walks rest o
      → Walks todo o
  passed_over o r todo rest split other (stopped s2 b2 e h2 id2 hash2 kept less) =
      stopped s2 b2 e h2 id2 hash2 (of_pool_head r todo rest split ∙ rw other kept)
        (omega (arith, less, ap length split))
  passed_over o r todo rest split other (ran_out s2 e nothing) =
      ran_out s2 e (of_pool_head r todo rest split ∙ rw other nothing)

  round-Walks :
      (next : IterState m.World → Option (Status × IterState m.World)) (b : BatchIter)
      (todo : List BlockRange) (r : Status × IterState m.World)
      → leb st.max_pools (2 ^ (st.val_bits - 1)) ≡ true
      → b.pool_id ≡ id
      → b.pool_hash ≡ hash
      → Steps m lister lib mgr st i b todo r
      → ((b' : BatchIter)
          → IsOpen mgr i (r.1.table) b'
          → length (pending m lister lib b' (r.1.world)) < length todo
          → b'.pool_id ≡ id
          → b'.pool_hash ≡ hash
          → Walks (pending m lister lib b' (r.1.world)) (next (r.1)))
      → Walks todo (walk_on m lister mgr st next (after_step m lister mgr st id hash i r))
  round-Walks next b todo (status, s') few is_id is_hash (arrived b' e h' same_id same_hash split)
        later =
      let rest = pending m lister lib b' s'.world in
      let shorter : length rest < length todo = omega (arith, ap length split) in
      let here : key_loc_at s'.table i ≡ (current b').start_lba =
        ap (λ (o : Option BatchIter). elim o [ none ↦ 0 | some c ↦ (current c).start_lba ])
          (h'.stands) in
      elim (Bool-cases (in_pool st id hash (current b'))) [
        | inl own ↦
            rw (e, at_pool-few (key_loc_at s'.table i) s' few, here, own)
              (stopped s' b' refl h' (same_id ∙ is_id) (same_hash ∙ is_hash)
                (of_pool_head (current b') todo rest split ∙ rw own refl) shorter)
        | inr other ↦
            rw (e, at_pool-few (key_loc_at s'.table i) s' few, here, other)
              (passed_over _ (current b') todo rest split other
                (later b' h' shorter (same_id ∙ is_id) (same_hash ∙ is_hash)))
      ]
  round-Walks next b todo (status, s') few is_id is_hash (ended all e) later =
      rw e (ran_out s' refl (ap (of_pool st id hash) all))

  walk-Walks :
      (n : ℕ) (s : IterState m.World) (b : BatchIter)
      → leb st.max_pools (2 ^ (st.val_bits - 1)) ≡ true
      → b.pool_id ≡ id
      → b.pool_hash ≡ hash
      → IsOpen mgr i (s.table) b
      → length (pending m lister lib b s.world) < n
      → Walks
          (pending m lister lib b s.world)
          (walk m lister mgr st n (at i) kv_regular_iter id hash i s)
  unfolding walk
  walk-Walks zero s b few is_id is_hash h enough = absurd (omega arith)
  walk-Walks (suc n) s b few is_id is_hash h enough =
      round-Walks _ b _ (iterate m lister mgr st (at i) kv_regular_iter s) few is_id is_hash
        (iterate-Steps m lister lib mgr st i s b h)
        (λ b' h' less id' hash'. walk-Walks n _ b' few id' hash' h' (omega (arith, less, enough)))

  pub iter_over_pool-Walks :
      (fuel : ℕ) (s : IterState m.World) (b : BatchIter)
      → st.max_pools ≤ 2 ^ (st.val_bits - 1)
      → b.pool_id ≡ id
      → b.pool_hash ≡ hash
      → IsOpen mgr i (s.table) b
      → length (pending m lister lib b s.world) < fuel
      → Walks
          (pending m lister lib b s.world)
          (iter_over_pool m lister mgr st fuel (at i) kv_regular_iter s)
  unfolding iter_over_pool
  iter_over_pool-Walks fuel s b few is_id is_hash h enough =
      rw (validate_iter-IsOpen mgr i s.table b h, iter_over_pool, is_id, is_hash)
        (walk-Walks fuel s b (ground (arith, few)) is_id is_hash h enough)

  -- What a caller sees that calls iter_over_pool again and again until it fails.
  pub visited : ℕ → ℕ → IterState m.World → List BlockRange
  visited zero fuel s = []
  visited (suc n) fuel s =
      visit_on i (visited n fuel) (iter_over_pool m lister mgr st fuel (at i) kv_regular_iter s)

  visit_on-of_pool :
      (next : IterState m.World → List BlockRange) (todo : List BlockRange)
      (o : Option (Status × IterState m.World))
      → Walks todo o
      → ((s' : IterState m.World) (b' : BatchIter)
          → IsOpen mgr i (s'.table) b'
          → length (pending m lister lib b' s'.world) < length todo
          → b'.pool_id ≡ id
          → b'.pool_hash ≡ hash
          → next s' ≡ of_pool st id hash (pending m lister lib b' s'.world))
      → visit_on i next o ≡ of_pool st id hash todo
  visit_on-of_pool next todo o (stopped s' b' e h id' hash' kept less) later =
      rw (e, kept, later s' b' h less id' hash')
        (ap
          (λ (x : Option BatchIter).
            elim x [ none ↦ record { start_lba = 0; sectors = 0 } | some c ↦ current c ]
            ∷ of_pool st id hash (pending m lister lib b' s'.world))
          (h.stands))
  visit_on-of_pool next todo o (ran_out s' e nothing) later = rw (e, nothing) refl

  -- Where no more pools than low bits of an LBA can tell apart are allowed, while nothing else changes
  -- the media: repeated calls of iter_over_pool for a regular iterator on a pool in use, or on all
  -- pools, end, and visit in order exactly those of the ranges still to come that are of the pool.
  pub visited-of_pool :
      (n fuel : ℕ) (s : IterState m.World) (b : BatchIter)
      → st.max_pools ≤ 2 ^ (st.val_bits - 1)
      → b.pool_id ≡ id
      → b.pool_hash ≡ hash
      → IsOpen mgr i (s.table) b
      → length (pending m lister lib b s.world) < fuel
      → length (pending m lister lib b s.world) < n
      → visited n fuel s ≡ of_pool st id hash (pending m lister lib b s.world)
  unfolding visited
  visited-of_pool zero fuel s b few is_id is_hash h enough rounds = absurd (omega arith)
  visited-of_pool (suc n) fuel s b few is_id is_hash h enough rounds =
      visit_on-of_pool _ _ _ (iter_over_pool-Walks fuel s b few is_id is_hash h enough)
        (λ s' b' h' less id' hash'.
          visited-of_pool n fuel s' b' few id' hash' h' (omega (arith, less, enough))
            (omega (arith, less, rounds)))
