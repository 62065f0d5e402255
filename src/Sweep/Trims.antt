-- ===== src/Sweep/Trims.antt =====
-- What the loop of delete_all_keys of src/kv_store.cpp trims.
use nvmkv.Prelude.{
  ℕ, ◌≤◌, ◌≡◌, ◌⊎◌, inl, inr, Bool, true, false, List, [], ◌∷◌, ◌++◌, length, ltb, ◌==◌,
  if◌then◌else◌, refl, sym, ap, ◌∙◌, arith, Bool-cases,
}
use mathlib.Core.List.{append-nil, append_assoc}
use nvmkv.Error.{ErrorCode, Status, success, failure, Status-cases, Result, ok, err}
use nvmkv.Write.{Capabilities, Iov, max_trim_size}
use nvmkv.Media.{Media}
use nvmkv.Ranges.{BlockRange, RangeIter, Lister, IsLister}
use nvmkv.Sweep.{Swept, returned, going, trim_len, trim_of, on_sent, add_trim, and_on, sweep_ranges}

-- What batches of trims do while nothing else changes the media: a batch that succeeds is carried out,
-- and neither it nor a listing changes what an iterator has still to come to, or what was trimmed.
pub record SendsTrims (m : Media) (lister : Lister m) (lib : IsLister m lister)
    (send : List Iov → m.World → Status × m.World) : Type 0 where
  pub trimmed : m.World → List Iov
  pub sent :
      (iovs : List Iov) (w : m.World)
      → (send iovs w).0 ≡ success
      → trimmed ((send iovs w).1) ≡ trimmed w ++ iovs
  pub send_keep :
      (iovs : List Iov) (w : m.World) (it : RangeIter)
      → lib.upcoming it ((send iovs w).1) ≡ lib.upcoming it w
  pub list_keep : (it : RangeIter) (w : m.World) → trimmed ((lister it w).1) ≡ trimmed w

module _ (caps : Capabilities) (chosen : BlockRange → Bool) where
  -- The trims of the chosen ranges.
  abbrev pub trims_of : List BlockRange → List Iov
  trims_of [] = []
  trims_of (r ∷ rs) = let rest = trims_of rs in if chosen r then trim_of caps r ∷ rest else rest

  -- No chosen range is longer than a trim may be.
  abbrev pub Fit : List BlockRange → Type 0
  Fit [] = Unit {0}
  Fit (r ∷ rs) = (chosen r ≡ true → trim_len caps r ≤ max_trim_size caps) × Fit rs

  pub trims_of-append : (rs qs : List BlockRange) → trims_of (rs ++ qs) ≡ trims_of rs ++ trims_of qs
  trims_of-append [] qs = refl
  trims_of-append (r ∷ rs) qs = ground (arith, trims_of-append rs qs)

  pub Fit-append : (rs qs : List BlockRange) → Fit (rs ++ qs) → Fit rs × Fit qs
  Fit-append [] qs h = (tt, h)
  Fit-append (r ∷ rs) qs (h, hs) = let (a, b) = Fit-append rs qs hs in ((h, a), b)

module _ (m : Media) (lister : Lister m) (lib : IsLister m lister) (caps : Capabilities)
    (chosen : BlockRange → Bool) (judge : BlockRange → ℕ → m.World → Result (ℕ × Bool) × m.World)
    (send : List Iov → m.World → Status × m.World) (sends : SendsTrims m lister lib send) where
  abbrev pub Judges : Type 0
  Judges = (r : BlockRange) (ret : ℕ) (w : m.World) → judge r ret w ≡ (ok (ret, chosen r), w)

  -- What became of some ranges, where `todo` are their trims: a batch failed; or they were sent or wait
  -- behind the IOVs that waited, and `ret_code` is 0 where a batch was sent and else as it was.
  pub data Sweeps (todo : List Iov) (ret : ℕ) (iovs : List Iov) (w : m.World) (s : Swept m.World)
      : Type 0 where
    broke :
        (c : ErrorCode) (b : List Iov) (v w' : m.World)
        → s ≡ returned (err c) w'
        → (send b v).0 ≡ failure c
        → Sweeps todo ret iovs w s
    swept :
        (ret' : ℕ) (iovs' : List Iov) (w' : m.World)
        → s ≡ going ret' iovs' w'
        → sends.trimmed w' ++ iovs' ≡ (sends.trimmed w ++ iovs) ++ todo
        → ((it : RangeIter) → lib.upcoming it w' ≡ lib.upcoming it w)
        → (ret' ≡ 0) ⊎ ((ret' ≡ ret) × (iovs' ≡ iovs ++ todo))
        → Sweeps todo ret iovs w s

  on_sent-Sweeps :
      (t : Iov) (ret : ℕ) (iovs : List Iov) (w : m.World)
      → Sweeps (t ∷ []) ret iovs w (on_sent m lister caps judge send (send (iovs ++ t ∷ []) w))
  on_sent-Sweeps t ret iovs w = elim (Status-cases ((send (iovs ++ t ∷ []) w).0)) [
    | inl good ↦ rw good (
        swept 0 [] ((send (iovs ++ t ∷ []) w).1) refl
          (append-nil _
            ∙ sends.sent (iovs ++ t ∷ []) w good
            ∙ sym (append_assoc (sends.trimmed w) iovs (t ∷ [])))
          (sends.send_keep (iovs ++ t ∷ []) w) (inl refl))
    | inr (c, bad) ↦ rw bad (broke c (iovs ++ t ∷ []) w ((send (iovs ++ t ∷ []) w).1) refl bad)
  ]

  add_trim-Sweeps :
      (r : BlockRange) (ret : ℕ) (iovs : List Iov) (w : m.World)
      → trim_len caps r ≤ max_trim_size caps
      → Sweeps (trim_of caps r ∷ []) ret iovs w (add_trim m lister caps judge send r ret iovs w)
  unfolding add_trim
  add_trim-Sweeps r ret iovs w fit =
      let short : ltb (max_trim_size caps) (trim_len caps r) ≡ false = ground (arith, fit) in
      elim (Bool-cases (length (iovs ++ trim_of caps r ∷ []) == caps.nvm_max_num_iovs)) [
        | inl full ↦ rw (short, full) (on_sent-Sweeps (trim_of caps r) ret iovs w)
        | inr room ↦
            rw (short, room)
              (swept ret (iovs ++ trim_of caps r ∷ []) w refl
                (sym (append_assoc (sends.trimmed w) iovs (trim_of caps r ∷ []))) (λ it. refl)
                (inr (refl, refl)))
      ]

  and_on-Sweeps :
      (todo rest : List Iov) (ret : ℕ) (iovs : List Iov) (w : m.World) (s : Swept m.World)
      (next : ℕ → List Iov → m.World → Swept m.World)
      → Sweeps todo ret iovs w s
      → ((ret' : ℕ) (iovs' : List Iov) (w' : m.World)
          → Sweeps rest ret' iovs' w' (next ret' iovs' w'))
      → Sweeps (todo ++ rest) ret iovs w (and_on m lister caps judge send s next)
  and_on-Sweeps todo rest ret iovs w s next (broke c b v w' e bad) later =
      rw e (broke c b v w' refl bad)
  and_on-Sweeps todo rest ret iovs w s next (swept ret' iovs' w' e all keep code) later =
      rw e (joined (later ret' iovs' w'))
    where
      all_iovs :
          (i2 : List Iov) → i2 ≡ iovs' ++ rest → iovs' ≡ iovs ++ todo → i2 ≡ iovs ++ (todo ++ rest)
      all_iovs i2 e2 e1 = e2 ∙ ap (λ (x : List Iov). x ++ rest) e1 ∙ append_assoc iovs todo rest

      joined :
          {o : Swept m.World} → Sweeps rest ret' iovs' w' o → Sweeps (todo ++ rest) ret iovs w o
      joined (broke c b v w2 e2 bad) = broke c b v w2 e2 bad
      joined (swept ret2 iovs2 w2 e2 all2 keep2 code2) =
          swept ret2 iovs2 w2 e2
            (all2
              ∙ ap (λ (x : List Iov). x ++ rest) all
              ∙ append_assoc (sends.trimmed w ++ iovs) todo rest)
            (λ it. keep2 it ∙ keep it)
            (elim code2 [
              | inl zero_code ↦ inl zero_code
              | inr (same2, left2) ↦ elim code [
                | inl zero_code ↦ inl (same2 ∙ zero_code)
                | inr (same, left) ↦ inr (same2 ∙ same, all_iovs iovs2 left2 left)
              ]
            ])

  pub sweep_ranges-Sweeps :
      (rs : List BlockRange) (ret : ℕ) (iovs : List Iov) (w : m.World)
      → Judges
      → Fit caps chosen rs
      → Sweeps
          (trims_of caps chosen rs)
          ret
          iovs
          w
          (sweep_ranges m lister caps judge send rs ret iovs w)
  unfolding sweep_ranges
  sweep_ranges-Sweeps [] ret iovs w law fit =
      swept ret iovs w refl (sym (append-nil _)) (λ it. refl) (inr (refl, sym (append-nil iovs)))
  sweep_ranges-Sweeps (r ∷ rs) ret iovs w law (fit, fits) = elim (Bool-cases (chosen r)) [
    | inl taken ↦
        rw (law r ret w, taken)
          (and_on-Sweeps (trim_of caps r ∷ []) (trims_of caps chosen rs) ret iovs w _ _
            (add_trim-Sweeps r ret iovs w (fit taken))
            (λ ret' iovs' w'. sweep_ranges-Sweeps rs ret' iovs' w' law fits))
    | inr skipped ↦ rw (law r ret w, skipped) (sweep_ranges-Sweeps rs ret iovs w law fits)
  ]
