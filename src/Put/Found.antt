-- ===== src/Put/Found.antt =====
-- What a search of the probe sequence finds once a put has written a pair (src/kv_store_mgr.cpp).
use nvmkv.Prelude.{
  ℕ, zero, suc, ◌+◌, ◌≡◌, Bool, true, false, Option, none, some, List, ◌==◌, if◌then◌else◌,
  Bool-cases, inl, inr, refl, sym, ◌∙◌, ap, arith, ==_iff,
}
use nvmkv.Media.{Store, probe_lba}
use nvmkv.Media.Quiet.{
  Pair, pair_holds, put_pair, first_round, first_round-passed, first_round-matched, first_match,
}
use nvmkv.Gen.AtKey.{usable}
use nvmkv.Gen.Choice.{first_usable}

first_round-suc :
    (test : ℕ → Bool) (n itr : ℕ) (b : Bool)
    → test itr ≡ b
    → first_round test (suc n) itr ≡ (if b then some itr else first_round test n (itr + 1))
first_round-suc test n itr true h = first_round-matched test n itr h
first_round-suc test n itr false h = first_round-passed test n itr h

false_ne_true : false ≡ true → ⊥
false_ne_true h = cc

-- The round that a search finds passes its test.
first_round_passes :
    (test : ℕ → Bool) (n s itr : ℕ) → first_round test n s ≡ some itr → test itr ≡ true
unfolding first_round
first_round_passes test zero s itr h = cc
first_round_passes test (suc n) s itr h = elim (Bool-cases (test s)) [
  | inl here ↦ ground (arith, first_round-matched test n s here, h, here)
  | inr there ↦ first_round_passes test n (s + 1) itr (sym (first_round-passed test n s there) ∙ h)
]

-- Where the first test passes first, a test that agrees before and passes there passes first too.
first_round_same :
    (one two : ℕ → Bool) (n s itr : ℕ)
    → ((j : ℕ) → one j ≡ false → two j ≡ false)
    → two itr ≡ true
    → first_round one n s ≡ some itr
    → first_round two n s ≡ some itr
unfolding first_round
first_round_same one two zero s itr less there h = cc
first_round_same one two (suc n) s itr less there h = elim (Bool-cases (one s)) [
  | inl here ↦
      let e : s ≡ itr = ground (arith, first_round-matched one n s here, h) in
      first_round-matched two n s (ap two e ∙ there) ∙ ap (λ (j : ℕ). some j) e
  | inr away ↦
      first_round-passed two n s (less s away)
      ∙ first_round_same one two n (s + 1) itr less there
          (sym (first_round-passed one n s away) ∙ h)
]

usable-holds :
    (o : Option Pair) (key : List ℕ) (pool_id : ℕ)
    → usable o key pool_id ≡ false
    → pair_holds o key pool_id ≡ false
usable-holds none key pool_id h = refl
usable-holds (some p) key pool_id h = h

-- Once the pair of a key stands at the LBA that a put chooses, a search finds it there.
pub match_after_put :
    (pairs : ℕ → Option Pair) (st : Store) (key : List ℕ) (pool_id itr : ℕ) (p : Pair)
    → first_usable pairs st key pool_id ≡ some itr
    → pair_holds (some p) key pool_id ≡ true
    → first_match (put_pair pairs (probe_lba st key pool_id itr) p) st key pool_id ≡ some itr
unfolding first_match
match_after_put pairs st key pool_id itr p chosen holds =
    let lba = λ (j : ℕ). probe_lba st key pool_id j in
    let can = λ (l : ℕ). usable (pairs l) key pool_id in
    let has = λ (l : ℕ). pair_holds (put_pair pairs (lba itr) p l) key pool_id in
    let at : can (lba itr) ≡ true = first_round_passes (λ (j : ℕ). can (lba j)) 8 0 itr chosen in
    let here : (lba itr == lba itr) ≡ true = ground arith in
    let less : (j : ℕ) → can (lba j) ≡ false → has (lba j) ≡ false =
      λ (j : ℕ) (h : can (lba j) ≡ false). elim (Bool-cases (lba j == lba itr)) [
        | inl same ↦
            let e : lba j ≡ lba itr = (==_iff (lba j) (lba itr)).0 same in
            absurd (false_ne_true (sym h ∙ ap can e ∙ at))
        | inr other ↦ rw other (usable-holds (pairs (lba j)) key pool_id h)
      ] in
    first_round_same (λ (j : ℕ). can (lba j)) (λ (j : ℕ). has (lba j)) 8 0 itr less (rw here holds)
      chosen
