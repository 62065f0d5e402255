-- ===== src/Bitmap/Search.antt =====
-- The searches of util/kv_bitmap.cpp: what the first bit that they return means.
use nvmkv.Prelude.{
  ℕ, zero, suc, ◌+◌, ◌-◌, ◌*◌, ◌^◌, ◌≤◌, ◌<◌, ◌≡◌, Bool, true, false, not, Option, none, some, [],
  ◌∷◌, arith, bit_and, ◌==◌, ltb, length, Bool-cases, Option-cases, inl, inr, refl, ap, sym, ◌∙◌,
}
use nvmkv.Prelude.Bits.{test_bit}
use nvmkv.Util.{bit_mask, bits_per_uint32, round32}
use nvmkv.Util.Round.{bits_per_uint32-round32}
use nvmkv.Bitmap.{
  KvBitmap, Action, find_first_clear, find_first_set, find_first_clear_and_set, hit, scan_word,
  scan, stop_at, keep_word, bitmap_set, bitmap_ffa, bitmap_ffc,
}
use nvmkv.Bitmap.Access.{
  member, member-cons-lt, member-cons-add, bitmap_set-cons-lt, bitmap_set-cons-add, masked_word,
  full_word,
}

-- The bit that each action looks for.
abbrev pub wanted : Action → Bool → Bool
wanted find_first_set b = b
wanted _ b = not b

hit-wanted :
    (action : Action) (w j : ℕ)
    → j < 32
    → hit action (bit_and w (bit_mask j)) ≡ wanted action (test_bit j w)
unfolding hit
hit-wanted find_first_set w j h = ground (arith, masked_word w j h)
hit-wanted _ w j h = ground (arith, masked_word w j h)

-- What the inner loop from bit `j` says of a word.
abbrev pub ScanWord : Action → ℕ → ℕ → ℕ → Option ℕ → Type 0
ScanWord action n j w none = (m : ℕ) → j ≤ m → m < j + n → wanted action (test_bit m w) ≡ false
ScanWord action n j w (some k) =
    (j ≤ k)
    × (k < j + n)
    × (wanted action (test_bit k w) ≡ true)
    × ((m : ℕ) → j ≤ m → m < k → wanted action (test_bit m w) ≡ false)

-- A bit that is passed over extends what is known of the rest to the left.
pass-ScanWord :
    (action : Action) (n j w : ℕ) (o : Option ℕ)
    → wanted action (test_bit j w) ≡ false
    → ScanWord action n (j + 1) w o
    → ScanWord action (suc n) j w o
pass-ScanWord action n j w none miss rest = λ m p q. elim (Bool-cases (j == m)) [
  | inl e ↦ let same : j ≡ m = ground arith in rw same at miss
  | inr ne ↦ rest m (ground arith) (omega arith)
]
pass-ScanWord action n j w (some k) miss rest = (
  omega (arith, rest.0),
  omega (arith, rest.1),
  rest.2,
  λ m p q. elim (Bool-cases (j == m)) [
    | inl e ↦ let same : j ≡ m = ground arith in rw same at miss
    | inr ne ↦ rest.3 m (ground arith) q
  ],
)

pub scan_word-ScanWord :
    (action : Action) (n j w : ℕ) → j + n ≤ 32 → ScanWord action n j w (scan_word n j w action)
unfolding scan_word
scan_word-ScanWord action zero j w h = λ m p q. absurd (omega arith)
scan_word-ScanWord action (suc n) j w h =
    let rest = scan_word-ScanWord action n (j + 1) w (omega arith) in
    let look = hit-wanted action w j (omega arith) in
    elim (Bool-cases (hit action (bit_and w (bit_mask j)))) [
      | inl found ↦
          rw found (omega arith, omega arith, sym look ∙ found, λ m p q. absurd (omega arith))
      | inr miss ↦
          rw miss (pass-ScanWord action n j w (scan_word n (j + 1) w action) (sym look ∙ miss) rest)
    ]

-- The first clear bit `k` of the words: every bit before it is set.
abbrev pub IsFirstClear : KvBitmap → ℕ → Type 0
IsFirstClear ws k = (member ws k ≡ false) × ((m : ℕ) → m < k → member ws m ≡ true)

-- What `find_first_clear_and_set` says of the words from word `i` on, with `n` words to search.
abbrev Claimed : ℕ → KvBitmap → ℕ → ℕ → Option ℕ × KvBitmap → Type 0
Claimed n ws i nbits (some idx, after) =
    (k : ℕ) × (idx ≡ i * 32 + k)
    × (k < n * 32)
    × (idx < nbits)
    × (after ≡ bitmap_set ws k)
    × IsFirstClear ws k
Claimed n ws i nbits (none, after) =
    (after ≡ ws) × ((m : ℕ) → m < n * 32 → i * 32 + m < nbits → member ws m ≡ true)

-- A word whose bits are all set extends what is known of the words behind it.
pass-Claimed :
    (n w : ℕ) (ws : KvBitmap) (i nbits : ℕ) (r : Option ℕ × KvBitmap)
    → ((m : ℕ) → m < 32 → test_bit m w ≡ true)
    → Claimed n ws (i + 1) nbits r
    → Claimed (suc n) (w ∷ ws) i nbits (keep_word w r)
unfolding keep_word
pass-Claimed n w ws i nbits (none, after) ones rest = (
  ap (◌∷◌ w) rest.0,
  λ m p q. elim (Bool-cases (ltb m 32)) [
    | inl low ↦ member-cons-lt w ws m (ground arith) ∙ ones m (ground arith)
    | inr high ↦
        let e : m ≡ 32 + (m - 32) = ground arith in
        rw e (member-cons-add w ws (m - 32) ∙ rest.1 (m - 32) (omega arith) (omega arith))
  ],
)
pass-Claimed n w ws i nbits (some idx, after) ones (k, at, room, lt, same, (clear, before)) = (
  32 + k,
  omega arith,
  omega arith,
  lt,
  ap (◌∷◌ w) same ∙ sym (bitmap_set-cons-add w ws k),
  (
    member-cons-add w ws k ∙ clear,
    λ m p. elim (Bool-cases (ltb m 32)) [
      | inl low ↦ member-cons-lt w ws m (ground arith) ∙ ones m (ground arith)
      | inr high ↦
          let e : m ≡ 32 + (m - 32) = ground arith in
          rw e (member-cons-add w ws (m - 32) ∙ before (m - 32) (omega arith))
    ],
  ),
)

-- The inner loop stopped at bit `k` of the first word.
stop_at-Claimed :
    (n k w : ℕ) (ws : KvBitmap) (i nbits : ℕ)
    → ScanWord find_first_clear_and_set 32 0 w (some k)
    → Claimed (suc n) (w ∷ ws) i nbits (stop_at find_first_clear_and_set i k nbits w ws)
unfolding stop_at
stop_at-Claimed n k w ws i nbits (low, high, clear, before) =
    let first : IsFirstClear (w ∷ ws) k = (
      member-cons-lt w ws k high ∙ ground (arith, clear),
      λ m p. member-cons-lt w ws m (omega arith) ∙ ground (arith, before m),
    ) in
    elim (Bool-cases (ltb (i * 32 + k) nbits)) [
      | inl fits ↦
          rw fits (k, refl, omega arith, ground arith, sym (bitmap_set-cons-lt w ws k high), first)
      | inr over ↦ rw over (refl, λ m p q. first.1 m (ground arith))
    ]

all_set :
    (w : ℕ) → ScanWord find_first_clear_and_set 32 0 w none → (m : ℕ) → m < 32 → test_bit m w ≡ true
all_set w none_clear m h = ground (arith, none_clear m)

scan-Claimed :
    (n : ℕ) (ws : KvBitmap) (i j nbits : ℕ)
    → n ≤ length ws
    → Claimed n ws i nbits (scan n ws i j nbits find_first_clear_and_set)
unfolding scan
scan-Claimed zero ws i j nbits h = (refl, λ m p. absurd (omega arith))
scan-Claimed (suc n) [] i j nbits h = absurd (omega arith)
scan-Claimed (suc n) (w ∷ ws) i j nbits h = elim (Bool-cases (w == 0xffffffff)) [
  | inl full ↦
      let e : w ≡ 0xffffffff = ground arith in
      rw (full, scan)
        (pass-Claimed n w ws i nbits (scan n ws (i + 1) j nbits find_first_clear_and_set)
          (λ m p. rw e (full_word m p)) (scan-Claimed n ws (i + 1) j nbits (omega arith)))
  | inr other ↦
      let found = scan_word-ScanWord find_first_clear_and_set 32 0 w (omega arith) in
      elim (Option-cases (scan_word 32 0 w find_first_clear_and_set)) [
        | inl e ↦
            rw (other, e, scan)
              (pass-Claimed n w ws i nbits (scan n ws (i + 1) 32 nbits find_first_clear_and_set)
                (all_set w (rw e at found)) (scan-Claimed n ws (i + 1) 32 nbits (omega arith)))
        | inr (k, e) ↦ rw (other, e, scan) (stop_at-Claimed n k w ws i nbits (rw e at found))
      ]
]

-- What `bitmap_ffa` promises of a bit map with `nbits` bits.
abbrev pub TakesFirstClear : KvBitmap → ℕ → Option ℕ × KvBitmap → Type 0
TakesFirstClear pbm nbits (some idx, after) =
    (idx < nbits) × (after ≡ bitmap_set pbm idx) × IsFirstClear pbm idx
TakesFirstClear pbm nbits (none, after) =
    (after ≡ pbm) × ((m : ℕ) → m < nbits → member pbm m ≡ true)

from_start :
    (n : ℕ) (pbm : KvBitmap) (nbits : ℕ) (r : Option ℕ × KvBitmap)
    → nbits ≤ n * 32
    → Claimed n pbm 0 nbits r
    → TakesFirstClear pbm nbits r
from_start n pbm nbits (none, after) h (same, all) =
    (same, λ m p. all m (omega arith) (omega arith))
from_start n pbm nbits (some idx, after) h (k, at, room, lt, same, first) =
    let e : k ≡ idx = omega arith in
    let found : (idx < nbits) × (after ≡ bitmap_set pbm k) × IsFirstClear pbm k =
      (lt, same, first) in
    rw e at found

-- The words that a search of `nbits` bits reads are all allocated.
abbrev pub Holds : KvBitmap → ℕ → Type 0
Holds pbm nbits = (nbits + 31 < 2 ^ 32) × (bits_per_uint32 (round32 nbits) ≤ length pbm)

-- Where the words are allocated, bitmap_ffa returns the first clear bit below nbits and sets that
-- bit alone, or returns BM_FULL and changes nothing where all bits below nbits are set.
pub bitmap_ffa-TakesFirstClear :
    (pbm : KvBitmap) (nbits : ℕ)
    → Holds pbm nbits
    → TakesFirstClear pbm nbits (bitmap_ffa pbm nbits)
unfolding bitmap_ffa
bitmap_ffa-TakesFirstClear pbm nbits h =
    let n = bits_per_uint32 (round32 nbits) in
    from_start n pbm nbits (scan n pbm 0 0 nbits find_first_clear_and_set)
      (bits_per_uint32-round32 nbits h.0).0 (scan-Claimed n pbm 0 0 nbits h.1)

scan_word_same :
    (n j w : ℕ) → scan_word n j w find_first_clear ≡ scan_word n j w find_first_clear_and_set
unfolding scan_word
scan_word_same zero j w = refl
scan_word_same (suc n) j w = ground (arith, scan_word_same n (j + 1) w)

scan_same :
    (n : ℕ) (ws : KvBitmap) (i j nbits : ℕ)
    → scan n ws i j nbits find_first_clear ≡ ((scan n ws i j nbits find_first_clear_and_set).0, ws)
unfolding scan
scan_same zero ws i j nbits = refl
scan_same (suc n) [] i j nbits = refl
scan_same (suc n) (w ∷ ws) i j nbits =
    ground (
      arith,
      scan_word_same 32 0 w,
      scan_same n ws (i + 1) j nbits,
      scan_same n ws (i + 1) 32 nbits,
    )

-- `bitmap_ffc` returns the bit that `bitmap_ffa` would take.
pub bitmap_ffc-eq-ffa :
    (pbm : KvBitmap) (nbits : ℕ) → bitmap_ffc pbm nbits ≡ (bitmap_ffa pbm nbits).0
unfolding bitmap_ffc bitmap_ffa
bitmap_ffc-eq-ffa pbm nbits =
    ap (λ (r : Option ℕ × KvBitmap). r.0)
      (scan_same (bits_per_uint32 (round32 nbits)) pbm 0 0 nbits)
