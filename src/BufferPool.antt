-- ===== src/BufferPool.antt =====
-- util/kv_buffer_pool.cpp: the pool of aligned buffers. A buffer is an address and a size; the two vectors
-- of the pool are one list, its last element first. What posix_memalign returns is an argument, and a
-- wait for a buffer is a call that returns nothing and changes nothing.
pub mod Exclusive
use nvmkv.Prelude.{
  ℕ, zero, suc, ◌+◌, Bool, true, false, Option, none, some, List, [], ◌∷◌, ltb, if◌then◌else◌,
}
use nvmkv.Error.{out_of_memory, max_limit_reached, Status, success, failure}

abbrev pub Buffer : Type 0
Buffer = ℕ × ℕ

-- `freed` are the addresses that the pool has given back to malloc.
pub record BufferPool : Type 0 where
  pub buffers : List Buffer
  pub buffer_limit : ℕ
  pub buffer_alignment : ℕ
  pub initialized : Bool
  pub freed : List ℕ

-- M_MAX_BUFFERS
abbrev pub max_buffers : ℕ
max_buffers = 4096

abbrev pub addresses : List Buffer → List ℕ
addresses [] = []
addresses ((a, n) ∷ bs) = a ∷ addresses bs

abbrev pub free_all : List ℕ → List ℕ → List ℕ
free_all [] freed = freed
free_all (a ∷ rest) freed = a ∷ free_all rest freed

-- The buffers are freed, and stay in the vectors.
pub delete_all_buffers : BufferPool → BufferPool
delete_all_buffers p = record p { freed = free_all (addresses p.buffers) p.freed }

-- The loop of `initialize`: for each buffer what posix_memalign gives, NULL where it fails.
pub fill_pool : ℕ → List (Option ℕ) → BufferPool → Status × BufferPool
unfolding delete_all_buffers
fill_pool limit [] p = (success, p)
fill_pool limit (none ∷ rest) p = (failure out_of_memory, delete_all_buffers p)
fill_pool limit (some a ∷ rest) p =
    fill_pool limit rest (record p { buffers = (a, limit) ∷ p.buffers })

abbrev pub ready : ℕ → ℕ → Status × BufferPool → Status × BufferPool
ready limit alignment (failure c, p) = (failure c, p)
ready limit alignment (success, p) =
    (success, record p { buffer_limit = limit; buffer_alignment = alignment; initialized = true })

abbrev pub count_of : List (Option ℕ) → ℕ
count_of [] = 0
count_of (a ∷ rest) = suc (count_of rest)

-- `allocs` has an element for each of the `num_buffers` buffers.
pub initialize_pool : List (Option ℕ) → ℕ → ℕ → BufferPool → Status × BufferPool
unfolding fill_pool
initialize_pool allocs limit alignment p =
    if p.initialized
    then (success, p)
    else if ltb max_buffers (count_of allocs)
    then (failure max_limit_reached, p)
    else ready limit alignment (fill_pool limit allocs p)

-- What `get_buf` comes to.
pub data Got : Type 0 where
  waits : Got
  no_buffer : Got
  got : Buffer → BufferPool → Got

abbrev pub on_alloc : ℕ → ℕ → List Buffer → BufferPool → Option ℕ → Got
on_alloc size old rest p none = no_buffer
on_alloc size old rest p (some a) =
    got (a, size) (record p { buffers = rest; freed = old ∷ p.freed })

abbrev pub take_back : ℕ → Option ℕ → BufferPool → List Buffer → Got
take_back size alloc p [] = waits
take_back size alloc p ((a, n) ∷ rest) =
    if ltb n size then on_alloc size a rest p alloc else got (a, n) (record p { buffers = rest })

-- The last buffer, or a larger one in its place.
unfoldable pub get_buf : ℕ → Option ℕ → BufferPool → Got
get_buf size alloc p = take_back size alloc p p.buffers

pub release_buf : Buffer → BufferPool → BufferPool
release_buf b p = record p { buffers = b ∷ p.buffers }
