-- ===== src/Bitmap.antt =====
-- util/kv_bitmap.cpp: bit maps in 32-bit words, and the search for the first clear or set bit.
-- A bit map is the list of its words. The code never tests an index against the allocation: here a
-- read beyond it gives 0 and a write beyond it changes nothing.
pub mod Access
pub mod Search
pub mod FirstSet
use nvmkv.Prelude.{
  ℕ, zero, suc, ◌+◌, ◌-◌, ◌*◌, ◌/◌, ◌%◌, ◌^◌, Bool, true, false, not, ◌&&◌, Option, none, some,
  List, [], ◌∷◌, bit_and, bit_or, ltb, ◌==◌, if◌then◌else◌, get_or, set, replicate,
}
use nvmkv.Util.{round_upto_blk, round32, bits_per_uint8, bits_per_uint32, bit_mask}

-- `kv_bitmap_t *`
abbrev pub KvBitmap : Type 0
KvBitmap = List ℕ

-- The sector of the bit map on the media that holds the bit of a pool.
unfoldable pub bit_index_sector : ℕ → ℕ → ℕ
bit_index_sector pool_id sector_bits = pool_id / 2 ^ (sector_bits + 3)

-- `calloc` and `memset` give words of 0; an allocation that fails is not modelled.
unfoldable pub bitmap_alloc : ℕ → KvBitmap
unfolding bits_per_uint32 round32
bitmap_alloc nbits = replicate (bits_per_uint32 (round32 nbits)) 0

unfoldable pub bitmap_alloc_aligned : ℕ → ℕ → KvBitmap
unfolding bits_per_uint8 round32 round_upto_blk
bitmap_alloc_aligned nbits alignment =
    replicate (round_upto_blk (bits_per_uint8 (round32 nbits)) alignment / 4) 0

unfoldable pub bitmap_set : KvBitmap → ℕ → KvBitmap
unfolding bits_per_uint32 bit_mask
bitmap_set pbm index =
    let i = bits_per_uint32 index in set pbm i (bit_or (get_or pbm i 0) (bit_mask index))

unfoldable pub bitmap_clear : KvBitmap → ℕ → KvBitmap
unfolding bits_per_uint32 bit_mask
bitmap_clear pbm index =
    let i = bits_per_uint32 index in
    set pbm i (bit_and (get_or pbm i 0) (2 ^ 32 - 1 - bit_mask index))

unfoldable pub bitmap_test : KvBitmap → ℕ → ℕ
unfolding bits_per_uint32 bit_mask
bitmap_test pbm index = bit_and (get_or pbm (bits_per_uint32 index) 0) (bit_mask index)

-- The actions of `bitmap_helper`.
pub data Action : Type 0 where
  find_first_clear find_first_set find_first_clear_and_set : Action

-- Does the inner loop stop at a bit whose masked word is `is_set`?
hit : Action → ℕ → Bool
hit find_first_clear is_set = is_set == 0
hit find_first_set is_set = not (is_set == 0)
hit find_first_clear_and_set is_set = is_set == 0

-- The inner loop, with `n` rounds left, from bit `j` of the word `w`.
pub scan_word : ℕ → ℕ → ℕ → Action → Option ℕ
unfolding hit bit_mask
scan_word zero j w action = none
scan_word (suc n) j w action =
    if hit action (bit_and w (bit_mask j)) then some j else scan_word n (j + 1) w action

-- `return (done && (idx < nbits)) ? idx : BM_FULL`, where `none` is BM_FULL.
in_range : ℕ → ℕ → Option ℕ
in_range idx nbits = if ltb idx nbits then some idx else none

-- What the outer loop does where the inner loop stopped at bit `j` of word `i`.
stop_at : Action → ℕ → ℕ → ℕ → ℕ → List ℕ → Option ℕ × List ℕ
unfolding in_range bit_mask
stop_at find_first_clear_and_set i j nbits w ws =
    let idx = i * 32 + j in
    if ltb idx nbits then (some idx, bit_or w (bit_mask j) ∷ ws) else (none, w ∷ ws)
stop_at _ i j nbits w ws = (in_range (i * 32 + j) nbits, w ∷ ws)

is_find_first_set : Action → Bool
is_find_first_set find_first_set = true
is_find_first_set _ = false

keep_word : ℕ → Option ℕ × List ℕ → Option ℕ × List ℕ
keep_word w r = (r.0, w ∷ r.1)

-- The outer loop, with `n` rounds left, at word `i`; `j` is what the last run of the inner loop left
-- in the variable. A full word is skipped, but ends the search for a set bit.
scan : ℕ → List ℕ → ℕ → ℕ → ℕ → Action → Option ℕ × List ℕ
unfolding in_range stop_at is_find_first_set keep_word
scan zero ws i j nbits action = (none, ws)
scan (suc n) [] i j nbits action = (none, [])
scan (suc n) (w ∷ ws) i j nbits action = elim (w == 0xffffffff) [
  | true ↦ elim (is_find_first_set action) [
    | true ↦ (in_range (i * 32 + j) nbits, w ∷ ws)
    | false ↦ keep_word w (scan n ws (i + 1) j nbits action)
  ]
  | false ↦ elim (scan_word 32 0 w action) [
    | some k ↦ stop_at action i k nbits w ws
    | none ↦ keep_word w (scan n ws (i + 1) 32 nbits action)
  ]
]

unfoldable pub bitmap_helper : KvBitmap → ℕ → Action → Option ℕ × KvBitmap
unfolding scan scan_word bits_per_uint32 round32
bitmap_helper pbm nbits action = scan (bits_per_uint32 (round32 nbits)) pbm 0 0 nbits action

unfoldable pub bitmap_ffc : KvBitmap → ℕ → Option ℕ
unfolding bitmap_helper
bitmap_ffc pbm nbits = (bitmap_helper pbm nbits find_first_clear).0

unfoldable pub bitmap_ffs : KvBitmap → ℕ → Option ℕ
unfolding bitmap_helper
bitmap_ffs pbm nbits = (bitmap_helper pbm nbits find_first_set).0

-- The only search that writes: the bit that it finds is set.
unfoldable pub bitmap_ffa : KvBitmap → ℕ → Option ℕ × KvBitmap
unfolding bitmap_helper
bitmap_ffa pbm nbits = bitmap_helper pbm nbits find_first_clear_and_set
