-- ===== src/BufferPool/Exclusive.antt =====
-- util/kv_buffer_pool.cpp: that no buffer is lost or given out twice, and what a failing allocation leaves.
use nvmkv.Prelude.{
  ℕ, suc, ◌+◌, ◌≤◌, ◌≡◌, true, false, Option, none, some, List, [], ◌∷◌, ◌++◌, length, ltb, ◌==◌,
  if◌then◌else◌, refl, ap, ◌∙◌, arith, Bool-cases, inl, inr, length-append,
}
use nvmkv.Error.{out_of_memory, failure}
use nvmkv.Cache.Delete.{contains}
use nvmkv.BufferPool.{
  Buffer, BufferPool, addresses, free_all, delete_all_buffers, fill_pool, ready, initialize_pool,
  count_of, max_buffers, got, get_buf, take_back, on_alloc, release_buf,
}

-- How often an address stands in a list of buffers.
abbrev pub times : ℕ → List Buffer → ℕ
times x [] = 0
times x ((a, n) ∷ bs) = let rest = times x bs in if x == a then suc rest else rest

times-append : (x : ℕ) (bs cs : List Buffer) → times x (bs ++ cs) ≡ times x bs + times x cs
times-append x [] cs = omega arith
times-append x ((a, n) ∷ bs) cs = ground (arith, times-append x bs cs)

-- The pool, and the buffers that callers hold.
pub record Lent : Type 0 where
  pub pool : BufferPool
  pub held : List Buffer

-- What callers do: one takes a buffer, where a new address is of no buffer that is there or held, or
-- gives one back that it holds.
pub data LendStep : Lent → Lent → Type 0 where
  take_step :
      (s : Lent) (size : ℕ) (alloc : Option ℕ) (b : Buffer) (p : BufferPool)
      → get_buf size alloc s.pool ≡ got b p
      → ((a : ℕ) → alloc ≡ some a → times a s.pool.buffers + times a s.held ≡ 0)
      → LendStep s (record { pool = p; held = b ∷ s.held })
  give_step :
      (s : Lent) (b : Buffer) (before after : List Buffer)
      → s.held ≡ before ++ b ∷ after
      → LendStep s (record { pool = release_buf b s.pool; held = before ++ after })

pub data LendReach (s : Lent) : Lent → Type 0 where
  here : LendReach s s
  then_step : {t u : Lent} → LendReach s t → LendStep t u → LendReach s u

-- Every address at most once, and `n` buffers in all.
pub record IsLent (n : ℕ) (s : Lent) : Type 0 where
  pub once : (x : ℕ) → times x s.pool.buffers + times x s.held ≤ 1
  pub whole : length s.pool.buffers + length s.held ≡ n

-- A buffer that `get_buf` gave out.
handed :
    (n : ℕ) (b b' : Buffer) (p p' : BufferPool) (held : List Buffer)
    → IsLent n (record { pool = p'; held = b' ∷ held })
    → got b' p' ≡ got b p
    → IsLent n (record { pool = p; held = b ∷ held })
handed n b b' p p' held good e =
    let same_buffer : b' ≡ b = cc in
    let same_pool : p' ≡ p = cc in rw (← same_buffer, ← same_pool) good

taken :
    (n size : ℕ) (alloc : Option ℕ) (p q : BufferPool) (b : Buffer) (held bs : List Buffer)
    → take_back size alloc p bs ≡ got b q
    → ((a : ℕ) → alloc ≡ some a → times a bs + times a held ≡ 0)
    → ((x : ℕ) → times x bs + times x held ≤ 1)
    → length bs + length held ≡ n
    → IsLent n (record { pool = q; held = b ∷ held })
taken n size alloc p q b held [] e fresh once whole = cc
taken n size alloc p q b held ((c, k) ∷ bs) e fresh once whole = elim (Bool-cases (ltb k size)) [
  | inr fits ↦
      handed n b (c, k) q (record p { buffers = bs }) held
        (record { once = λ x. ground (arith, once x); whole = omega (arith, whole) }) (rw fits at e)
  | inl small ↦ replaced alloc fresh (rw small at e)
]
  where
    replaced :
        (o : Option ℕ)
        → ((a : ℕ) → o ≡ some a → times a ((c, k) ∷ bs) + times a held ≡ 0)
        → on_alloc size c bs p o ≡ got b q
        → IsLent n (record { pool = q; held = b ∷ held })
    replaced none new e' = cc
    replaced (some a) new e' =
        handed n b (a, size) q (record p { buffers = bs; freed = c ∷ p.freed }) held
          (record { once = λ x. ground (arith, once x, new a refl); whole = omega (arith, whole) })
          e'

LendStep-IsLent : (n : ℕ) {s t : Lent} → LendStep s t → IsLent n s → IsLent n t
unfolding get_buf release_buf
LendStep-IsLent n (take_step s size alloc b p e fresh) good =
    taken n size alloc s.pool p b s.held s.pool.buffers e fresh (good.once) (good.whole)
LendStep-IsLent n (give_step s (a, k) before after e) good = record {
  once = λ x. ground (
    arith,
    good.once x,
    ap (times x) e,
    times-append x before ((a, k) ∷ after),
    times-append x before after,
  );
  whole = omega (
    arith,
    good.whole,
    ap (λ (l : List Buffer). length l) e,
    length-append before ((a, k) ∷ after),
    length-append before after,
  );
}

-- However callers take buffers and give back those that they hold, where malloc gives no address that
-- is in use: no buffer is held twice, or held and in the pool, and as many buffers are in the pool and
-- held together as at first.
pub LendReach-IsLent : (n : ℕ) {s t : Lent} → LendReach s t → IsLent n s → IsLent n t
LendReach-IsLent n here good = good
LendReach-IsLent n (then_step r step) good = LendStep-IsLent n step (LendReach-IsLent n r good)

-- The buffers that an initialization allocates before one fails.
abbrev pub allocated : List ℕ → ℕ → List Buffer → List Buffer
allocated [] limit bs = bs
allocated (a ∷ rest) limit bs = allocated rest limit ((a, limit) ∷ bs)

abbrev pub then_fails : List ℕ → List (Option ℕ) → List (Option ℕ)
then_fails [] rest = none ∷ rest
then_fails (a ∷ more) rest = some a ∷ then_fails more rest

fill_pool_fails :
    (limit : ℕ) (good : List ℕ) (rest : List (Option ℕ)) (p : BufferPool)
    → fill_pool limit (then_fails good rest) p ≡ (
      failure out_of_memory,
      record p {
        buffers = allocated good limit p.buffers;
        freed = free_all (addresses (allocated good limit p.buffers)) p.freed;
      },
    )
unfolding fill_pool delete_all_buffers
fill_pool_fails limit [] rest p = refl
fill_pool_fails limit (a ∷ more) rest p =
    fill_pool_fails limit more rest (record p { buffers = (a, limit) ∷ p.buffers })

allocated_last :
    (good : List ℕ) (limit a : ℕ) (bs : List Buffer)
    → (c : ℕ) × (rest : List Buffer) × (allocated good limit ((a, limit) ∷ bs) ≡ (c, limit) ∷ rest)
allocated_last [] limit a bs = (a, bs, refl)
allocated_last (b ∷ more) limit a bs = allocated_last more limit b ((a, limit) ∷ bs)

-- The pool gives out its last buffer, also one that was freed.
gives_freed :
    (limit size c : ℕ) (alloc : Option ℕ) (p : BufferPool) (bs rest : List Buffer) (freed : List ℕ)
    → size ≤ limit
    → bs ≡ (c, limit) ∷ rest
    → (b : Buffer) × (q : BufferPool) × (get_buf size alloc
          (record p { buffers = bs; freed = free_all (addresses bs) freed })
        ≡ got b q)
      × (contains q.freed b.0 ≡ true)
unfolding get_buf
gives_freed limit size c alloc p bs rest freed fits e =
    let large : ltb limit size ≡ false = ground (arith, fits) in
    let left = record p { buffers = rest; freed = c ∷ free_all (addresses rest) freed } in
    ((c, limit), left, rw (e, large) refl, ground arith)

initialize_pool_fills :
    (limit alignment : ℕ) (allocs : List (Option ℕ)) (p : BufferPool)
    → p.initialized ≡ false
    → ltb max_buffers (count_of allocs) ≡ false
    → initialize_pool allocs limit alignment p ≡ ready limit alignment (fill_pool limit allocs p)
unfolding initialize_pool
initialize_pool_fills limit alignment allocs p fresh short = ground (arith, fresh, short)

-- Where an allocation fails behind at least one that succeeds, the initialization of a pool that is not
-- initialized fails, and the pool keeps the buffers that it has freed: the next request for a buffer that
-- is not larger than these gets a freed one.
pub initialize_pool_dangling :
    (limit alignment a size : ℕ) (good : List ℕ) (rest : List (Option ℕ)) (alloc : Option ℕ)
    (p : BufferPool)
    → p.initialized ≡ false
    → count_of (then_fails (a ∷ good) rest) ≤ max_buffers
    → size ≤ limit
    → let failed = initialize_pool (then_fails (a ∷ good) rest) limit alignment p in
      (failed.0 ≡ failure out_of_memory)
      × ((b : Buffer) × (q : BufferPool) × (get_buf size alloc (failed.1) ≡ got b q)
          × (contains q.freed b.0 ≡ true))
initialize_pool_dangling limit alignment a size good rest alloc p fresh few fits =
    let short : ltb max_buffers (count_of (then_fails (a ∷ good) rest)) ≡ false =
      ground (arith, few) in
    let (c, others, last) = allocated_last good limit a p.buffers in
    rw
      (initialize_pool_fills limit alignment (then_fails (a ∷ good) rest) p fresh short
        ∙ ap (ready limit alignment) (fill_pool_fails limit (a ∷ good) rest p))
      (refl, gives_freed limit size c alloc p _ others p.freed fits last)
