-- ===== src/Hash.antt =====
-- util/kv_hash_func.cpp: FNV-1a over a key and its pool, folded and aligned, and the probe
-- sequences. A key is the list of its `key_len` bytes; NULL and a key of length 0, which the code
-- treats alike, are both []. A shift by 64 bits or more, undefined in the source, gives 0 here. The
-- bytes of the pool id are those of a little-endian machine.
pub mod Fold
pub mod Probe
use nvmkv.Prelude.{
  ℕ, zero, suc, ◌+◌, ◌-◌, ◌*◌, ◌/◌, ◌%◌, ◌^◌, Bool, true, false, List, [], ◌∷◌, bit_and, bit_xor,
  ltb, ◌==◌, if◌then◌else◌,
}

pub data HashType : Type 0 where
  fnv1a_hash : HashType

pub data ColType : Type 0 where
  sequential_probe_type polynomial_probe_type : ColType

pub record HashFunc : Type 0 where
  pub hash_fun_type : HashType
  pub col_handle_type : ColType
  pub alignment_addr : ℕ
  pub slice_addr : ℕ

-- NVM_KV_Hash_Func::initialize
abbrev pub initialize : HashType → ColType → ℕ → ℕ → HashFunc
initialize hash_type col_type align_addr_bits slice_addr = record {
  hash_fun_type = hash_type;
  col_handle_type = col_type;
  alignment_addr = align_addr_bits;
  slice_addr = slice_addr;
}

abbrev pub fnv_basis : ℕ
fnv_basis = 14695981039346656037

abbrev pub fnv_prime : ℕ
fnv_prime = 1099511628211

abbrev pub tiny_hash_len : ℕ
tiny_hash_len = 32

-- `x << k` on `uint64_t`.
abbrev pub shl64 : ℕ → ℕ → ℕ
shl64 x k = x * 2 ^ k % 2 ^ 64

-- `a - b` on `uint32_t`.
abbrev pub sub32 : ℕ → ℕ → ℕ
sub32 a b = (a + 2 ^ 32 - b) % 2 ^ 32

-- The loop `h ^= byte; h *= M_FNV_PRIME`.
fnv_bytes : ℕ → List ℕ → ℕ
fnv_bytes h [] = h
fnv_bytes h (b ∷ bs) = fnv_bytes (bit_xor h b * fnv_prime % 2 ^ 64) bs

pool_bytes : ℕ → List ℕ
pool_bytes p = p % 256 ∷ p / 256 % 256 ∷ p / 65536 % 256 ∷ p / 16777216 % 256 ∷ []

pub fnv1a : HashFunc → List ℕ → ℕ → ℕ
fnv1a f key pool_id =
    let h = fnv_bytes fnv_basis key in
    let h' = if pool_id == 0 then h else fnv_bytes h (pool_bytes pool_id) in
    if ltb h' f.slice_addr then (h' + f.slice_addr) % 2 ^ 64 else h'

-- The XOR fold of `key_hash` to `hash_len` bits.
fold : ℕ → ℕ → ℕ
fold hash hash_len =
    if ltb tiny_hash_len hash_len
    then bit_xor (hash / 2 ^ hash_len) (bit_and hash (2 ^ hash_len - 1))
    else bit_and (bit_xor (hash / 2 ^ hash_len) hash) (2 ^ hash_len - 1)

-- The hash of a key that is not empty, before it is aligned.
pub folded : HashFunc → List ℕ → ℕ → ℕ → ℕ
folded f key pool_id hash_len = fold (fnv1a f key pool_id) hash_len

pub key_hash : HashFunc → List ℕ → ℕ → ℕ → Bool → ℕ
key_hash f [] pool_id hash_len align = 0
key_hash f (b ∷ bs) pool_id hash_len align =
    if hash_len == 0
    then 0
    else let hash = folded f (b ∷ bs) pool_id hash_len in
      if align then shl64 hash (sub32 f.alignment_addr hash_len) else hash

pub sequential_probe : HashFunc → ℕ → ℕ → ℕ → ℕ
sequential_probe f prev_hash ntimes align_left =
    (prev_hash + shl64 ntimes align_left) % 2 ^ 64 % shl64 1 (sub32 f.alignment_addr align_left)

pub polynom_probe : HashFunc → ℕ → ℕ → ℕ → ℕ
polynom_probe f prev_hash ntimes align_left =
    (prev_hash + shl64 (ntimes * ntimes) align_left)
    % 2 ^ 64
    % shl64 1 (sub32 f.alignment_addr align_left)

-- The switch of `resolve_coll`.
probe : ColType → HashFunc → ℕ → ℕ → ℕ → ℕ
probe sequential_probe_type = sequential_probe
probe polynomial_probe_type = polynom_probe

pub resolve_coll : HashFunc → List ℕ → ℕ → ℕ → ℕ → ℕ → Bool → ℕ
unfolding probe
resolve_coll f [] pool_id prev_hash ntimes hash_len align = 0
resolve_coll f (b ∷ bs) pool_id prev_hash ntimes hash_len align =
    if hash_len == 0
    then 0
    else let align_left : ℕ = if align then sub32 f.alignment_addr hash_len else 0 in
      probe f.col_handle_type f prev_hash ntimes align_left

-- What a test of this module unfolds.
unfoldable pub program : Unit {0}
unfolding fnv_bytes pool_bytes fnv1a fold folded key_hash sequential_probe polynom_probe probe
    resolve_coll
program = tt
