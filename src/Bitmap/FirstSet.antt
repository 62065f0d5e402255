-- ===== src/Bitmap/FirstSet.antt =====
-- `bitmap_ffs` of util/kv_bitmap.cpp. The inner loop leaves 32 in its variable when it finds
-- nothing, and a full word ends the search with what is left there.
use nvmkv.Prelude.{
  ℕ, zero, suc, ◌+◌, ◌-◌, ◌*◌, ◌^◌, ◌≤◌, ◌<◌, ◌≡◌, ◌≢◌, true, false, Option, none, some, [], ◌∷◌,
  ◌++◌, arith, ◌==◌, ltb, if◌then◌else◌, length, replicate, Bool-cases, Option-cases, inl, inr,
  refl, ap, ◌∙◌,
}
use nvmkv.Prelude.Bits.{test_bit}
use nvmkv.Util.{bits_per_uint32, round32}
use nvmkv.Util.Round.{bits_per_uint32-round32}
use nvmkv.Bitmap.{KvBitmap, find_first_set, in_range, scan_word, scan, bitmap_ffs}
use nvmkv.Bitmap.Access.{member, member-cons-lt, member-cons-add}
use nvmkv.Bitmap.Search.{ScanWord, scan_word-ScanWord, Holds}

abbrev pub NoneFull : KvBitmap → Type 0
NoneFull [] = Unit
NoneFull (w ∷ ws) = (w ≢ 0xffffffff) × NoneFull ws

-- The first set bit `k` of the words.
abbrev pub IsFirstSet : KvBitmap → ℕ → Type 0
IsFirstSet ws k = (member ws k ≡ true) × ((m : ℕ) → m < k → member ws m ≡ false)

abbrev Seen : ℕ → KvBitmap → ℕ → ℕ → Option ℕ → Type 0
Seen n ws i nbits (some idx) =
    (k : ℕ) × (idx ≡ i * 32 + k) × (k < n * 32) × (idx < nbits) × IsFirstSet ws k
Seen n ws i nbits none = (m : ℕ) → m < n * 32 → i * 32 + m < nbits → member ws m ≡ false

pass-Seen :
    (n w : ℕ) (ws : KvBitmap) (i nbits : ℕ) (r : Option ℕ)
    → ((m : ℕ) → m < 32 → test_bit m w ≡ false)
    → Seen n ws (i + 1) nbits r
    → Seen (suc n) (w ∷ ws) i nbits r
pass-Seen n w ws i nbits none empty rest = λ m p q. elim (Bool-cases (ltb m 32)) [
  | inl low ↦ member-cons-lt w ws m (ground arith) ∙ empty m (ground arith)
  | inr high ↦
      let e : m ≡ 32 + (m - 32) = ground arith in
      rw e (member-cons-add w ws (m - 32) ∙ rest (m - 32) (omega arith) (omega arith))
]
pass-Seen n w ws i nbits (some idx) empty (k, at, room, lt, (set, before)) = (
  32 + k,
  omega arith,
  omega arith,
  lt,
  (
    member-cons-add w ws k ∙ set,
    λ m p. elim (Bool-cases (ltb m 32)) [
      | inl low ↦ member-cons-lt w ws m (ground arith) ∙ empty m (ground arith)
      | inr high ↦
          let e : m ≡ 32 + (m - 32) = ground arith in
          rw e (member-cons-add w ws (m - 32) ∙ before (m - 32) (omega arith))
    ],
  ),
)

in_range-Seen :
    (n k w : ℕ) (ws : KvBitmap) (i nbits : ℕ)
    → ScanWord find_first_set 32 0 w (some k)
    → Seen (suc n) (w ∷ ws) i nbits (in_range (i * 32 + k) nbits)
unfolding in_range
in_range-Seen n k w ws i nbits (low, high, set, before) =
    let first : IsFirstSet (w ∷ ws) k = (
      member-cons-lt w ws k high ∙ set,
      λ m p. member-cons-lt w ws m (omega arith) ∙ before m (omega arith) p,
    ) in
    elim (Bool-cases (ltb (i * 32 + k) nbits)) [
      | inl fits ↦ rw fits (k, refl, omega arith, ground arith, first)
      | inr over ↦ rw over (λ m p q. first.1 m (ground arith))
    ]

scan-Seen :
    (n : ℕ) (ws : KvBitmap) (i j nbits : ℕ)
    → n ≤ length ws
    → NoneFull ws
    → Seen n ws i nbits (scan n ws i j nbits find_first_set).0
unfolding scan
scan-Seen zero ws i j nbits h good = λ m p. absurd (omega arith)
scan-Seen (suc n) [] i j nbits h good = absurd (omega arith)
scan-Seen (suc n) (w ∷ ws) i j nbits h good =
    let other : (w == 0xffffffff) ≡ false = ground (arith, good.0) in
    let found = scan_word-ScanWord find_first_set 32 0 w (omega arith) in
    elim (Option-cases (scan_word 32 0 w find_first_set)) [
      | inl e ↦
          rw (other, e, scan)
            (pass-Seen n w ws i nbits (scan n ws (i + 1) 32 nbits find_first_set).0
              (λ m p. (rw e at found) m (omega arith) (omega arith))
              (scan-Seen n ws (i + 1) 32 nbits (omega arith) good.1))
      | inr (k, e) ↦ rw (other, e, scan) (in_range-Seen n k w ws i nbits (rw e at found))
    ]

abbrev pub FindsFirstSet : KvBitmap → ℕ → Option ℕ → Type 0
FindsFirstSet pbm nbits (some idx) = (idx < nbits) × IsFirstSet pbm idx
FindsFirstSet pbm nbits none = (m : ℕ) → m < nbits → member pbm m ≡ false

from_start :
    (n : ℕ) (pbm : KvBitmap) (nbits : ℕ) (r : Option ℕ)
    → nbits ≤ n * 32
    → Seen n pbm 0 nbits r
    → FindsFirstSet pbm nbits r
from_start n pbm nbits none h all = λ m p. all m (omega arith) (omega arith)
from_start n pbm nbits (some idx) h (k, at, room, lt, first) =
    let e : k ≡ idx = omega arith in
    let found : (idx < nbits) × IsFirstSet pbm k = (lt, first) in rw e at found

-- Where the words are allocated and none of them is full, bitmap_ffs returns the first set bit
-- below nbits, or BM_FULL where there is none.
pub bitmap_ffs-FindsFirstSet :
    (pbm : KvBitmap) (nbits : ℕ)
    → Holds pbm nbits
    → NoneFull pbm
    → FindsFirstSet pbm nbits (bitmap_ffs pbm nbits)
unfolding bitmap_ffs
bitmap_ffs-FindsFirstSet pbm nbits h good =
    let n = bits_per_uint32 (round32 nbits) in
    from_start n pbm nbits (scan n pbm 0 0 nbits find_first_set).0
      (bits_per_uint32-round32 nbits h.0).0 (scan-Seen n pbm 0 0 nbits h.1 good)

scan_past :
    (k n : ℕ) (ws : KvBitmap) (i nbits : ℕ)
    → k < n
    → (scan n (replicate k 0 ++ 0xffffffff ∷ ws) i 32 nbits find_first_set).0
      ≡ in_range ((i + k) * 32 + 32) nbits
unfolding scan scan_word
scan_past k zero ws i nbits h = absurd (omega arith)
scan_past zero (suc n) ws i nbits h = ap (λ (t : ℕ). in_range t nbits) (omega arith)
scan_past (suc k) (suc n) ws i nbits h =
    scan_past k n ws (i + 1) nbits (omega arith) ∙ ap (λ (t : ℕ). in_range t nbits) (omega arith)

-- Behind k + 1 empty words, bitmap_ffs misses a full word that begins below nbits, for nbits that
-- can be rounded up on 32 bits: it returns the index one word after it, or BM_FULL where that index
-- is not below nbits.
pub bitmap_ffs_past_full :
    (k : ℕ) (ws : KvBitmap) (nbits : ℕ)
    → nbits + 31 < 2 ^ 32
    → (k + 1) * 32 < nbits
    → bitmap_ffs (replicate (suc k) 0 ++ 0xffffffff ∷ ws) nbits
      ≡ (if ltb ((k + 2) * 32) nbits then some ((k + 2) * 32) else none)
unfolding bitmap_ffs
bitmap_ffs_past_full k ws nbits fits lt =
    let enough = bits_per_uint32-round32 nbits fits in
    past (bits_per_uint32 (round32 nbits)) (omega arith)
  where
    past :
        (n : ℕ)
        → suc k < n
        → (scan n (0 ∷ (replicate k 0 ++ 0xffffffff ∷ ws)) 0 0 nbits find_first_set).0
          ≡ (if ltb ((k + 2) * 32) nbits then some ((k + 2) * 32) else none)
    past zero h = absurd (omega arith)
    past (suc n) h =
        scan_past k n ws 1 nbits (omega arith) ∙ ap (λ (t : ℕ). in_range t nbits) (omega arith)
