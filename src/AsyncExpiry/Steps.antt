-- ===== src/AsyncExpiry/Steps.antt =====
-- The steps of the queue of src/kv_async_expiry.cpp, what they keep, and what an update adds.
use mathlib.Core.List.{append-nil, append_assoc}
use nvmkv.Prelude.{
  ℕ, ◌≡◌, ◌<◌, Bool, true, false, ◌||◌, Option, some, [], ◌∷◌, ◌++◌, if◌then◌else◌, ltb, ◌==◌,
  length, Bool-cases, inl, inr, refl, sym, ◌∙◌, ap, arith,
}
use nvmkv.Write.{KvHeader}
use nvmkv.AsyncExpiry.{
  Block, Queue, iovec_present, expired_iov, add_iov, update_expiry_queue, pop_block,
}
use nvmkv.AsyncExpiry.Blocks.{DistinctLbas, IsQueue, joined, open_block, waits, add_iov-Adds}

-- One block behind another, in front of which nothing changes.
fresh_block :
    (max sector_size key_loc : ℕ) (hdr : KvHeader)
    → 0 < max
    → IsQueue max (add_iov sector_size key_loc hdr [] ∷ [])
fresh_block max sector_size key_loc hdr pos =
    let adds = add_iov-Adds sector_size key_loc hdr [] tt in
    (adds.pos, omega (arith, adds.grows), adds.distinct)

-- A queue that is not empty, behind a full block.
behind :
    (max : ℕ) (block : Block) (blocks : Queue)
    → length block ≡ max
    → DistinctLbas block
    → (0 < length blocks)
    → IsQueue max blocks
    → IsQueue max (block ∷ blocks)
behind max block [] full d some_block q = absurd (omega arith)
behind max block (next ∷ blocks) full d some_block q = (full, d, q)

update_some :
    (max sector_size key_loc : ℕ) (hdr : KvHeader) (queue : Queue)
    → 0 < length (update_expiry_queue max sector_size key_loc hdr queue)
unfolding update_expiry_queue
update_some max sector_size key_loc hdr [] = omega arith
update_some max sector_size key_loc hdr (block ∷ []) = elim (Bool-cases (length block == max)) [
  | inl full ↦ rw full (omega arith)
  | inr room ↦ rw room (omega arith)
]
update_some max sector_size key_loc hdr (block ∷ next ∷ blocks) = omega arith

update-IsQueue :
    (max sector_size key_loc : ℕ) (hdr : KvHeader) (queue : Queue)
    → 0 < max
    → IsQueue max queue
    → IsQueue max (update_expiry_queue max sector_size key_loc hdr queue)
unfolding update_expiry_queue
update-IsQueue max sector_size key_loc hdr [] pos q = fresh_block max sector_size key_loc hdr pos
update-IsQueue max sector_size key_loc hdr (block ∷ []) pos (some_iov, le, d) =
    elim (Bool-cases (length block == max)) [
      | inl full ↦ rw full (ground (arith, full), d, fresh_block max sector_size key_loc hdr pos)
      | inr room ↦
          let adds = add_iov-Adds sector_size key_loc hdr block d in
          let less : length block < max = ground (arith, room) in
          rw room (adds.pos, omega (arith, adds.grows), adds.distinct)
    ]
update-IsQueue max sector_size key_loc hdr (block ∷ next ∷ blocks) pos (full, d, q) =
    behind max block _ full d (update_some max sector_size key_loc hdr (next ∷ blocks))
      (update-IsQueue max sector_size key_loc hdr (next ∷ blocks) pos q)

popped :
    (front : Block) (rest : Queue) {block : Block} {blocks : Queue}
    → ◌≡◌ {A = Option (Block × Queue)} (some (front, rest)) (some (block, blocks))
    → (front ≡ block) × (rest ≡ blocks)
popped front rest h = (cc, cc)

pop-IsQueue :
    (max : ℕ) (queue blocks : Queue) (block : Block)
    → IsQueue max queue
    → pop_block max queue ≡ some (block, blocks)
    → (length block ≡ max) × IsQueue max blocks
unfolding pop_block
pop-IsQueue max [] blocks block q h = absurd (ground (arith, h))
pop-IsQueue max (front ∷ []) blocks block (some_iov, le, d) h =
    elim (Bool-cases (ltb (length front) max)) [
      | inl room ↦ absurd (ground (arith, room, h))
      | inr full ↦
          let e = popped front [] (rw full at h) in
          (ap (λ (b : Block). length b) (sym (e.0)) ∙ ground (arith, full, le), rw (← e.1) tt)
    ]
pop-IsQueue max (front ∷ next ∷ rest) blocks block (exact, d, q) h =
    elim (Bool-cases (ltb (length front) max)) [
      | inl room ↦ absurd (ground (arith, room, h))
      | inr full ↦
          let e = popped front (next ∷ rest) (rw full at h) in
          (ap (λ (b : Block). length b) (sym (e.0)) ∙ exact, rw (← e.1) q)
    ]

or_block : (a k : Bool) → (a || (k || false)) ≡ ((a || false) || k)
or_block true k = refl
or_block false true = refl
or_block false false = refl

or_rest : (a b k : Bool) → (a || (b || k)) ≡ ((a || b) || k)
or_rest true b k = refl
or_rest false b k = refl

or_false : (a k : Bool) → ((a || k) || false) ≡ ((a || false) || k)
or_false true k = refl
or_false false true = refl
or_false false false = refl

-- What waits after an update: what waited before, and the LBA.
waits-update :
    (max sector_size key_loc : ℕ) (hdr : KvHeader) (queue : Queue) (lba : ℕ)
    → IsQueue max queue
    → waits (update_expiry_queue max sector_size key_loc hdr queue) lba
      ≡ (waits queue lba || key_loc == lba)
unfolding waits update_expiry_queue iovec_present
waits-update max sector_size key_loc hdr [] lba q =
    let adds = add_iov-Adds sector_size key_loc hdr [] tt in
    rw (adds.holds lba) (or_false false (key_loc == lba))
waits-update max sector_size key_loc hdr (block ∷ []) lba (some_iov, le, d) =
    elim (Bool-cases (length block == max)) [
      | inl full ↦
          let adds = add_iov-Adds sector_size key_loc hdr [] tt in
          rw (full, adds.holds lba) (or_block (iovec_present block lba) (key_loc == lba))
      | inr room ↦
          let adds = add_iov-Adds sector_size key_loc hdr block d in
          rw (room, adds.holds lba) (or_false (iovec_present block lba) (key_loc == lba))
    ]
waits-update max sector_size key_loc hdr (block ∷ next ∷ blocks) lba (full, d, q) =
    rw (waits-update max sector_size key_loc hdr (next ∷ blocks) lba q)
      (or_rest (iovec_present block lba) (waits (next ∷ blocks) lba) (key_loc == lba))

-- The IOVs that wait after an update.
joined-update :
    (max sector_size key_loc : ℕ) (hdr : KvHeader) (queue : Queue)
    → joined (update_expiry_queue max sector_size key_loc hdr queue) ≡ (
        if iovec_present (open_block max queue) key_loc
        then joined queue
        else joined queue ++ expired_iov sector_size key_loc hdr ∷ [])
unfolding update_expiry_queue add_iov iovec_present
joined-update max sector_size key_loc hdr [] = refl
joined-update max sector_size key_loc hdr (block ∷ []) = elim (Bool-cases (length block == max)) [
  | inl full ↦ rw (full, append-nil block) refl
  | inr room ↦ elim (Bool-cases (iovec_present block key_loc)) [
    | inl present ↦ rw (room, present) refl
    | inr fresh ↦
        rw
          (
            room,
            fresh,
            append-nil block,
            append-nil (block ++ expired_iov sector_size key_loc hdr ∷ []),
          )
          refl
  ]
]
joined-update max sector_size key_loc hdr (block ∷ next ∷ blocks) =
    let rest = joined-update max sector_size key_loc hdr (next ∷ blocks) in
    elim (Bool-cases (iovec_present (open_block max (next ∷ blocks)) key_loc)) [
      | inl present ↦ rw present (ap (λ (b : Block). block ++ b) (rw present at rest))
      | inr fresh ↦ rw fresh (
          ap (λ (b : Block). block ++ b) (rw fresh at rest)
          ∙ sym (
              append_assoc block (joined (next ∷ blocks))
                (expired_iov sector_size key_loc hdr ∷ [])))
    ]

-- What the threads do to the queue: a reader queues an expired key, and the deleting thread takes a
-- block.
pub data QueueStep (max sector_size : ℕ) (queue : Queue) : Queue → Type 0 where
  update_step :
      (key_loc : ℕ) (hdr : KvHeader)
      → QueueStep max sector_size queue (update_expiry_queue max sector_size key_loc hdr queue)
  pop_step :
      (block : Block) (blocks : Queue)
      → pop_block max queue ≡ some (block, blocks)
      → QueueStep max sector_size queue blocks

pub data QueueReach (max sector_size : ℕ) : Queue → Type 0 where
  empty_queue : QueueReach max sector_size []
  then_queue :
      {queue queue' : Queue}
      → QueueReach max sector_size queue
      → QueueStep max sector_size queue queue'
      → QueueReach max sector_size queue'

-- For a device that takes at least one IOV, in every state that updates and takings of blocks reach,
-- each block but the last is full, the last has at least one IOV and no more than the device takes,
-- and no LBA stands twice in a block.
pub QueueReach-IsQueue :
    {max sector_size : ℕ} {queue : Queue}
    → 0 < max
    → QueueReach max sector_size queue
    → IsQueue max queue
QueueReach-IsQueue pos empty_queue = tt
QueueReach-IsQueue {max} {sector_size} pos (then_queue {queue} before (update_step key_loc hdr)) =
    update-IsQueue max sector_size key_loc hdr queue pos (QueueReach-IsQueue pos before)
QueueReach-IsQueue {max} pos (then_queue {queue} before (pop_step block blocks took)) =
    (pop-IsQueue max queue blocks block (QueueReach-IsQueue pos before) took).1

-- For a device that takes at least one IOV, in every reachable state update_expiry_queue puts the IOV
-- that trims the pair behind all that wait, unless the LBA stands in the last block and that has room,
-- and then it changes nothing that waits: the LBA waits afterwards in both cases, and the others that
-- wait are the same.
pub waits-update_expiry_queue :
    {max sector_size : ℕ} {queue : Queue}
    → 0 < max
    → QueueReach max sector_size queue
    → (key_loc : ℕ) (hdr : KvHeader)
    → (joined (update_expiry_queue max sector_size key_loc hdr queue) ≡ (
        if iovec_present (open_block max queue) key_loc
        then joined queue
        else joined queue ++ expired_iov sector_size key_loc hdr ∷ []))
      × ((lba : ℕ)
          → waits (update_expiry_queue max sector_size key_loc hdr queue) lba
            ≡ (waits queue lba || key_loc == lba))
waits-update_expiry_queue {max} {sector_size} {queue} pos reach key_loc hdr = (
  joined-update max sector_size key_loc hdr queue,
  λ lba. waits-update max sector_size key_loc hdr queue lba (QueueReach-IsQueue pos reach),
)
