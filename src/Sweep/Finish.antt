-- ===== src/Sweep/Finish.antt =====
-- How the loop of delete_all_keys of src/kv_store.cpp ends, and what it has trimmed then.
use nvmkv.Prelude.{
  ℕ, zero, suc, ◌<◌, ◌≤◌, ◌≡◌, ◌⊎◌, inl, inr, Bool, Option, some, List, [], ◌∷◌, ◌++◌, length, ltb,
  refl, sym, ap, ◌∙◌, arith, Bool-cases, ltb→lt, length-append,
}
use mathlib.Core.List.{append-nil, append_assoc}
use nvmkv.Error.{ErrorCode, Status, failure, Status-cases, Result, ok, err}
use nvmkv.Write.{Capabilities, Iov}
use nvmkv.Media.{Media}
use nvmkv.Ranges.{BlockRange, RangeIter, Listing, Lister, moved, IsLister}
use nvmkv.Sweep.{Swept, send_rest, on_page, sweep_all}
use nvmkv.Sweep.Trims.{
  SendsTrims, trims_of, Fit, trims_of-append, Fit-append, Judges, Sweeps, broke, swept,
  sweep_ranges-Sweeps,
}

nothing_behind : (xs ys : List Iov) → [] ≡ xs ++ ys → ys ≡ []
nothing_behind [] ys h = sym h
nothing_behind (x ∷ xs) ys h = absurd (ground (arith, h))

module _ (m : Media) (lister : Lister m) (lib : IsLister m lister) (caps : Capabilities)
    (chosen : BlockRange → Bool) (judge : BlockRange → ℕ → m.World → Result (ℕ × Bool) × m.World)
    (send : List Iov → m.World → Status × m.World) (sends : SendsTrims m lister lib send) where
  -- How the outer loop ends, where `todo` are the ranges to come: a batch fails, and its error is
  -- returned; or all trims were carried out in order. The result is 0, or the number of ranges of the
  -- last listing, where none of these was trimmed.
  pub data Finishes (todo : List BlockRange) (iovs : List Iov) (w : m.World)
      (o : Option (Result ℕ × m.World)) : Type 0 where
    failed :
        (c : ErrorCode) (b : List Iov) (v w' : m.World)
        → o ≡ some (err c, w')
        → (send b v).0 ≡ failure c
        → Finishes todo iovs w o
    finished :
        (n : ℕ) (w' : m.World)
        → o ≡ some (ok n, w')
        → sends.trimmed w' ≡ (sends.trimmed w ++ iovs) ++ trims_of caps chosen todo
        → (n ≡ 0)
          ⊎ ((page : List BlockRange) × (n ≡ length page) × (trims_of caps chosen page ≡ []))
        → Finishes todo iovs w o

  -- The IOVs that wait behind the last listing, `page`.
  send_rest-Finishes :
      (page todo : List BlockRange) (ret : ℕ) (iovs' : List Iov) (iovs : List Iov) (w w' : m.World)
      → sends.trimmed w' ++ iovs' ≡ (sends.trimmed w ++ iovs) ++ trims_of caps chosen todo
      → (ret ≡ 0) ⊎ ((ret ≡ length page) × (iovs' ≡ iovs ++ trims_of caps chosen page))
      → Finishes todo iovs w (some (send_rest m lister caps judge send ret iovs' w'))
  send_rest-Finishes page todo ret [] iovs w w' all code =
      finished ret w' refl (sym (append-nil _) ∙ all) (elim code [
        | inl zero_code ↦ inl zero_code
        | inr (same, left) ↦ inr (page, same, nothing_behind iovs (trims_of caps chosen page) left)
      ])
  send_rest-Finishes page todo ret (t ∷ ts) iovs w w' all code =
      elim (Status-cases ((send (t ∷ ts) w').0)) [
        | inl good ↦
            rw good (
              finished 0 ((send (t ∷ ts) w').1) refl (sends.sent (t ∷ ts) w' good ∙ all) (inl refl))
        | inr (c, bad) ↦ rw bad (failed c (t ∷ ts) w' ((send (t ∷ ts) w').1) refl bad)
      ]

  -- Ranges that were dealt with before those that the rest of the loop finishes.
  later-Finishes :
      (found todo rest : List BlockRange) (iovs iovs' : List Iov) (w w' : m.World)
      (o : Option (Result ℕ × m.World))
      → todo ≡ found ++ rest
      → sends.trimmed w' ++ iovs' ≡ (sends.trimmed w ++ iovs) ++ trims_of caps chosen found
      → Finishes rest iovs' w' o
      → Finishes todo iovs w o
  later-Finishes found todo rest iovs iovs' w w' o split all (failed c b v w2 e bad) =
      failed c b v w2 e bad
  later-Finishes found todo rest iovs iovs' w w' o split all (finished n w2 e done code) =
      finished n w2 e
        (done
          ∙ ap (λ (x : List Iov). x ++ trims_of caps chosen rest) all
          ∙ append_assoc (sends.trimmed w ++ iovs) (trims_of caps chosen found)
              (trims_of caps chosen rest)
          ∙ ap (λ (x : List Iov). (sends.trimmed w ++ iovs) ++ x)
              (sym (trims_of-append caps chosen found rest)
                ∙ ap (trims_of caps chosen) (sym split)))
        code

  on_page-Finishes :
      (next : RangeIter → List Iov → m.World → Option (Result ℕ × m.World)) (it : RangeIter)
      (iovs : List Iov) (w w1 : m.World) (todo : List BlockRange) (l : Listing) (s : Swept m.World)
      → sends.trimmed w1 ≡ sends.trimmed w
      → todo ≡ l.found ++ lib.upcoming (moved it l) w1
      → (length (l.found) < it.max_ranges → lib.upcoming (moved it l) w1 ≡ [])
      → (it.max_ranges ≤ length (l.found)
          → (iovs' : List Iov) (w' : m.World)
          → lib.upcoming (moved it l) w' ≡ lib.upcoming (moved it l) w1
          → Finishes (lib.upcoming (moved it l) w') iovs' w' (next (moved it l) iovs' w'))
      → Sweeps m lister lib caps chosen judge send sends
          (trims_of caps chosen (l.found))
          (length (l.found))
          iovs
          w1
          s
      → Finishes todo iovs w (on_page m lister caps judge send next it l s)
  on_page-Finishes next it iovs w w1 todo l s same split last more (broke c b v w' e bad) =
      rw e (failed c b v w' refl bad)
  on_page-Finishes next it iovs w w1 todo l s same split last more
        (swept ret' iovs' w' e all keep code) =
      let before : sends.trimmed w' ++ iovs'
          ≡ (sends.trimmed w ++ iovs) ++ trims_of caps chosen l.found =
        all ∙ ap (λ (x : List Iov). (x ++ iovs) ++ trims_of caps chosen l.found) same in
      elim (Bool-cases (ltb (length l.found) it.max_ranges)) [
        | inl short ↦
            let whole : todo ≡ l.found =
              split
              ∙ ap (λ (x : List BlockRange). l.found ++ x) (last (ltb→lt _ _ short))
              ∙ append-nil _ in
            rw (e, short)
              (send_rest-Finishes l.found todo ret' iovs' iovs w w'
                (before
                  ∙ ap
                      (λ (x : List BlockRange). (sends.trimmed w ++ iovs) ++ trims_of caps chosen x)
                      (sym whole))
                code)
        | inr full ↦
            rw (e, full)
              (later-Finishes l.found todo (lib.upcoming (moved it l) w') iovs iovs' w w' _
                (split ∙ ap (λ (x : List BlockRange). l.found ++ x) (sym (keep (moved it l))))
                before (more (ground (arith, full)) iovs' w' (keep (moved it l))))
      ]

  -- Where the chosen ranges are not too long and the array of the iterator is not empty, the loop ends.
  pub sweep_all-Finishes :
      (n : ℕ) (it : RangeIter) (iovs : List Iov) (w : m.World)
      → Judges m lister lib caps chosen judge send sends
      → 0 < it.max_ranges
      → Fit caps chosen (lib.upcoming it w)
      → length (lib.upcoming it w) < n
      → Finishes (lib.upcoming it w) iovs w (sweep_all m lister caps judge send n it iovs w)
  unfolding sweep_all
  sweep_all-Finishes zero it iovs w law some_room fit enough = absurd (omega arith)
  sweep_all-Finishes (suc n) it iovs w law some_room fit enough =
      let step = lib.lists it w in
      let fits = Fit-append caps chosen (step.listing.found) _ (rw (step.next) at fit) in
      rw (step.returned) (
        on_page-Finishes (sweep_all m lister caps judge send n) it iovs w ((lister it w).1) _
          (step.listing) _ (sends.list_keep it w) (step.next) (step.ended)
          (λ full iovs' w' keep.
            sweep_all-Finishes n (moved it step.listing) iovs' w' law some_room
              (rw (sym keep) at (fits.1))
              (omega (
                arith,
                enough,
                full,
                ap length keep,
                ap length (step.next),
                length-append (step.listing.found)
                    (lib.upcoming (moved it step.listing) (lister it w).1),
              )))
          (sweep_ranges-Sweeps m lister lib caps chosen judge send sends (step.listing.found)
            (length (step.listing.found)) iovs ((lister it w).1) law (fits.0)))
