-- ===== src/App/Flow/Lists.antt =====
-- MacRTMPStreamer.cpp: what the queues of one stream keep of their frames, as lists.
use koala_streamer.Prelude.{
  ℕ, ◌≡◌, ◌<◌, refl, sym, ap, ◌∙◌, subst, inl, inr, Option, none, some, List, [], ◌∷◌, ◌++◌, arith,
  length, ltb, ◌==◌, Bool-cases,
}
use koala_streamer.Prelude.Maybe.{some_injective}
use koala_streamer.Prelude.Sublists.{IsSublist, IsSublist_refl, IsSublist_more, IsSublist_drop}
use koala_streamer.Frame.{Frame}
use koala_streamer.Fifo.Spec.{offer}
use koala_streamer.FrameQueue.{FrameQueue, get_size, CleanIt, verdict, has, flag_clean, flag_stop}
use koala_streamer.FrameQueue.Refine.{Represents}
use koala_streamer.FrameQueue.Clean.{sweep, Progresses, clean_if_lem}
use koala_streamer.App.Capture.{shorten}

-- The frames that `deal` handed on.
abbrev pub results : List (Frame × Option Frame) → List Frame
results [] = []
results ((f, none) ∷ ds) = results ds
results ((f, some g) ∷ ds) = g ∷ results ds

abbrev pub held : Option Frame → List Frame
held none = []
held (some g) = g ∷ []

abbrev pub firsts : List (Frame × Option Frame) → List Frame
firsts [] = []
firsts ((f, r) ∷ ds) = f ∷ firsts ds

pub firsts-append :
    (ds : List (Frame × Option Frame)) (f : Frame) (r : Option Frame)
    → firsts (ds ++ ((f, r) ∷ [])) ≡ firsts ds ++ (f ∷ [])
firsts-append [] f r = refl
firsts-append ((g, s) ∷ ds) f r = ap (◌∷◌ g) (firsts-append ds f r)

pub results-append :
    (ds : List (Frame × Option Frame)) (f : Frame) (r : Option Frame)
    → results (ds ++ ((f, r) ∷ [])) ≡ results ds ++ held r
results-append [] f none = refl
results-append [] f (some g) = refl
results-append ((g, none) ∷ ds) f r = results-append ds f r
results-append ((g, some h) ∷ ds) f r = ap (◌∷◌ h) (results-append ds f r)

-- An offer leaves some of the frames that were there and the new one.
pub offer-IsSublist :
    (c : ℕ) (xs : List Frame) (f : Frame) → IsSublist (offer c xs f).1 (xs ++ (f ∷ []))
unfolding offer
offer-IsSublist c xs f = elim (Bool-cases (length xs == c)) [
  | inl full ↦ rw full (IsSublist_more (f ∷ []) (IsSublist_refl xs))
  | inr room ↦ rw room (IsSublist_refl (xs ++ (f ∷ [])))
]

sweep-IsSublist :
    {S : Type 0} (func : CleanIt Frame S) (s : S) (xs : List Frame)
    → IsSublist (sweep func s xs).kept xs
unfolding sweep
sweep-IsSublist func s [] = IsSublist_refl []
sweep-IsSublist func s (x ∷ xs) =
    let (s', flag) = verdict func s x in
    elim (Bool-cases (has flag flag_clean)) [
      | inl clean ↦ elim (Bool-cases (has flag flag_stop)) [
        | inl stop ↦ rw (clean, stop) (IsSublist_drop x (IsSublist_refl xs))
        | inr goes ↦ rw (clean, goes) (IsSublist_drop x (sweep-IsSublist func s' xs))
      ]
      | inr keep ↦ rw keep (IsSublist_refl (x ∷ xs))
    ]

module _ (n : ℕ) where
  pub shorten-IsSublist :
      (limit : ℕ) (func : ℕ → Frame → ℕ × ℕ) (fuel : ℕ) (q₀ q : FrameQueue Frame)
      (xs released : List Frame)
      → Progresses (some func)
      → n < fuel
      → Represents q₀.queue n xs
      → shorten limit func fuel (some q₀) ≡ some (some q, released)
      → (ys : List Frame) × Represents q.queue n ys × IsSublist ys xs
  unfolding shorten
  shorten-IsSublist limit func fuel q₀ q xs released progress enough r h =
      let fits : length xs < fuel = omega (arith, r.valid.size_in, r.holds.sized, r.same, enough) in
      let did = clean_if_lem (some func) progress n fuel 0 q₀ xs r fits in
      let cleaned = record q₀ { queue = did.result.fifo } in
      elim (Bool-cases (ltb limit (get_size q₀))) [
        | inl over ↦
            let result : shorten limit func fuel (some q₀)
                ≡ some (some cleaned, did.result.released) =
              rw (over, did.ended) refl in
            let same = some_injective (ap (λ p. p.0) (some_injective (sym result ∙ h))) in
            (
              _,
              subst (λ x. Represents x.queue n (sweep (some func) 0 xs).kept) same did.left,
              sweep-IsSublist (some func) 0 xs,
            )
        | inr under ↦
            let result : shorten limit func fuel (some q₀) ≡ some (some q₀, []) = rw under refl in
            let same = some_injective (ap (λ p. p.0) (some_injective (sym result ∙ h))) in
            (xs, subst (λ x. Represents x.queue n xs) same r, IsSublist_refl xs)
      ]
