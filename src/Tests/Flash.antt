-- ===== src/Tests/Flash.antt =====
-- A media that meets the laws of Media.Quiet: a list of pairs by LBA.
use nvmkv.Prelude.{
  ℕ, ◌≡◌, true, false, Option, none, some, List, [], ◌∷◌, ltb, ◌==◌, if◌then◌else◌, refl, arith, ap,
}
use nvmkv.Error.{success, Status, ok}
use nvmkv.Hash.{fnv1a_hash, sequential_probe_type}
use nvmkv.Write.{KvHeader, Iov, IovOpcode, nvm_iov_write, nvm_iov_trim, Prepared}
use nvmkv.Media.{Media, Store, starts_with, Reading, ReadIov, kv_disable_expiry}
use nvmkv.Media.Quiet.{Pair, IsQuiet, Writes, range_of, put_pair}

abbrev pub Pairs : Type 0
Pairs = List (ℕ × Pair)

abbrev pub pair_at : Pairs → ℕ → Option Pair
pair_at [] lba = none
pair_at ((l, p) ∷ w) lba = if lba == l then some p else pair_at w lba

abbrev pub blank : KvHeader
blank = record {
  metadata_len = 0;
  key_len = 0;
  value_len = 0;
  value_offset = 0;
  pool_id = 0;
  gen_count = 0;
  expiry = 0;
}

abbrev pub reading_of : Option Pair → Reading
reading_of none = record { read_len = 0; header = blank; body = []; value = [] }
reading_of (some p) = record { read_len = 512; header = p.header; body = p.body; value = [] }

abbrev pub read_pairs : List ReadIov → Pairs → Reading
read_pairs [] w = reading_of none
read_pairs (iov ∷ rest) w = reading_of (pair_at w iov.iov_lba)

abbrev pub written_pair : Prepared → List ℕ → Pair
written_pair x value = record { sectors = 1; header = x.header; body = x.key_bytes }

abbrev pub write_at : IovOpcode → ℕ → Pair → Pairs → Pairs
write_at nvm_iov_write lba p w = (lba, p) ∷ w
write_at nvm_iov_trim lba p w = w

abbrev pub write_pairs : Prepared → List ℕ → List Iov → Pairs → Pairs
write_pairs x value [] w = w
write_pairs x value (iov ∷ rest) w = write_at iov.iov_opcode iov.iov_lba (written_pair x value) w

abbrev pub flash : Media
flash = record {
  World = Pairs;
  kv_range_exists = λ lba len w. (range_of (pair_at w lba), w);
  nvm_readv = λ iovs w. (ok (read_pairs iovs w), w);
  nvm_writev = λ x value iovs w. (success, write_pairs x value iovs w);
  acquire = λ lba w. (false, w);
  release = λ lba w. w;
  time = λ w. (100, w);
  update_expiry_queue = λ lba hdr w. (success, w);
  get_buf = λ n w. (some (4096, n), w);
  release_buf = λ n w. w;
}

pub read_hole :
    (iov : ReadIov) (rest : List ReadIov) (w : Pairs)
    → pair_at w iov.iov_lba ≡ none
    → (read_pairs (iov ∷ rest) w).read_len ≡ 0
read_hole iov rest w h = ap (λ (o : Option Pair). (reading_of o).read_len) h

pub read_pair :
    (iov : ReadIov) (rest : List ReadIov) (w : Pairs) (p : Pair)
    → pair_at w iov.iov_lba ≡ some p
    → (((read_pairs (iov ∷ rest) w).read_len == 0) ≡ false)
      × ((read_pairs (iov ∷ rest) w).header ≡ p.header)
      × ((read_pairs (iov ∷ rest) w).body ≡ p.body)
read_pair iov rest w p h = (
  ap (λ (o : Option Pair). (reading_of o).read_len == 0) h,
  ap (λ (o : Option Pair). (reading_of o).header) h,
  ap (λ (o : Option Pair). (reading_of o).body) h,
)

abbrev pub flash-IsQuiet : IsQuiet flash
flash-IsQuiet = record {
  contents = pair_at;
  ranges = λ lba len w. refl;
  ranges_keep = λ lba len w. refl;
  reading = read_pairs;
  sector_size = 512;
  max_iovs = 16;
  two_iovs = omega arith;
  reads = λ iovs w readable. refl;
  reads_keep = λ iovs w. refl;
  hole = read_hole;
  pair = read_pair;
  no_wait = λ lba w. refl;
  acquire_keep = λ lba w. refl;
  now = 100;
  clock = λ w. refl;
  time_keep = λ w. refl;
}

pub large_enough : (n : ℕ) (w : Pairs) → ltb n n ≡ false
large_enough n w = ground arith

pub starts_with_self : (bytes : List ℕ) → starts_with bytes bytes ≡ true
starts_with_self [] = refl
starts_with_self (b ∷ bytes) = ground (arith, starts_with_self bytes)

pub write_first :
    (x : Prepared) (value : List ℕ) (iov : Iov) (rest : List Iov) (w : Pairs)
    → iov.iov_opcode ≡ nvm_iov_write
    → (◌≡◌ {A = Status} success success)
      × (pair_at (write_pairs x value (iov ∷ rest) w)
          ≡ put_pair (pair_at w) iov.iov_lba (written_pair x value))
write_first x value iov rest w h =
    (refl, ap (λ (o : IovOpcode). pair_at (write_at o iov.iov_lba (written_pair x value) w)) h)

abbrev pub flash-Writes : Writes flash flash-IsQuiet
flash-Writes = record {
  address = λ n w. 4096;
  size = λ n w. n;
  buffer = λ n w. refl;
  buffer_fits = large_enough;
  buffer_aligned = λ n w. refl;
  buffer_keep = λ n w. refl;
  release_buf_keep = λ n w. refl;
  release_keep = λ lba w. refl;
  pair_of = written_pair;
  header_of = λ x value. refl;
  key_of = λ x value. starts_with_self x.key_bytes;
  written = write_first;
}

-- Hashes of 36 bits over slots of 2^12 sectors, and pools that fit below.
abbrev pub small_store : Store
small_store = record {
  hash_func = record {
    hash_fun_type = fnv1a_hash;
    col_handle_type = sequential_probe_type;
    alignment_addr = 48;
    slice_addr = 4096;
  };
  key_bits = 36;
  val_bits = 12;
  max_search_range = 2048;
  sector_size = 512;
  max_pools = 16;
  expiry_mode = kv_disable_expiry;
  global_expiry = 0;
}
