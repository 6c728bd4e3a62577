-- ===== src/App/Shutdown.antt =====
-- MacRTMPStreamer.cpp, the end of main: the frames of the pool are freed.
use koala_streamer.Prelude.{
  ℕ, zero, suc, ◌<◌, ◌≡◌, refl, ap, Option, none, some, List, [], ◌∷◌, length, arith,
}
use koala_streamer.Frame.{Frame}
use koala_streamer.Stack.{Stack, pop}
use koala_streamer.Stack.Refine as Pool

-- The loop that pops until the pool is empty; the result is the frames freed, none that the fuel
-- ended.
unfoldable drain : ℕ → Stack Frame → Option (List Frame)
drain zero s = none
drain (suc fuel) s =
    let (x, s') = pop s in
    let rest = drain fuel s' in
    elim x [ none ↦ some [] | some f ↦ elim rest [ none ↦ none | some fs ↦ some (f ∷ fs) ] ]

-- The loop ends after at most one round for each frame and one more, and frees exactly the frames
-- of the pool, each once.
drain_lem :
    (fuel c : ℕ) (s : Stack Frame) (xs : List Frame)
    → Pool.Represents s c xs
    → length xs < fuel
    → drain fuel s ≡ some xs
unfolding drain Pool.serve
drain_lem zero c s xs r h = absurd (omega arith)
drain_lem (suc fuel) c s [] r h =
    let popped = Pool.pop_refines [] r in
    let nothing : (pop s).0 ≡ none = ap Pool.item_of popped.0 in rw (nothing, drain) refl
drain_lem (suc fuel) c s (f ∷ fs) r h =
    let popped = Pool.pop_refines (f ∷ fs) r in
    let first : (pop s).0 ≡ some f = ap Pool.item_of popped.0 in
    let rest = drain_lem fuel c (pop s).1 fs popped.1 (omega arith) in rw (first, rest, drain) refl
