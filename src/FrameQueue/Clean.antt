-- ===== src/FrameQueue/Clean.antt =====
-- mediaFrameQueue::cleanIf: what it releases and what it leaves, and that it ends.
use koala_streamer.Prelude.{
  ℕ, zero, suc, ◌<◌, ◌≡◌, refl, ap, true, ◌||◌, Option, none, some, List, [], ◌∷◌, arith,
  if◌then◌else◌, length, Bool-cases, inl, inr,
}
use koala_streamer.Fifo.{Fifo}
use koala_streamer.Fifo
use koala_streamer.Fifo.Spec.{poll}
use koala_streamer.Fifo.Refine.{peak_refines}
use koala_streamer.FrameQueue.{
  FrameQueue, CleanIt, Cleaned, flag_clean, flag_stop, has, verdict, clean_loop, clean_if,
}
use koala_streamer.FrameQueue.Refine.{Represents, get-Represents}

-- What is released, the callback's argument afterwards, and what stays.
pub record Swept {ℓ} (A : Type ℓ) (S : Type 0) : Type ℓ where
  pub released : List A
  pub arg : S
  pub kept : List A

module _ {ℓ} {A : Type ℓ} {S : Type 0} where
  -- The callback's verdict always cleans or stops.
  abbrev pub Progresses : CleanIt A S → Type ℓ
  Progresses func =
      (s : S) (x : A)
      → has (verdict func s x).1 flag_clean || has (verdict func s x).1 flag_stop ≡ true

  -- Going through the stored frames, oldest first.
  unfoldable pub sweep : CleanIt A S → S → List A → Swept A S
  sweep func s [] = record { released = []; arg = s; kept = [] }
  sweep func s (x ∷ xs) =
      let (s', flag) = verdict func s x in
      let rest = sweep func s' xs in
      if has flag flag_clean
      then (if has flag flag_stop
          then record { released = x ∷ []; arg = s'; kept = xs }
          else record { released = x ∷ rest.released; arg = rest.arg; kept = rest.kept })
      else record { released = []; arg = s'; kept = x ∷ xs }

-- The loop ended, having done what `w` says.
pub record Did {ℓ} {A : Type ℓ} {S : Type 0} (o : Option (Cleaned A S)) (c : ℕ) (w : Swept A S)
    : Type ℓ where
  pub result : Cleaned A S
  pub ended : o ≡ some result
  pub released : result.released ≡ w.released
  pub arg : result.arg ≡ w.arg
  pub left : Represents result.fifo c w.kept

module _ {ℓ} {A : Type ℓ} {S : Type 0} (func : CleanIt A S) (progress : Progresses func)
    (c : ℕ) where
  clean_loop_lem :
      (fuel : ℕ) (s : S) (q : Fifo A) (xs : List A)
      → Represents q c xs
      → length xs < fuel
      → Did (clean_loop fuel func s q) c (sweep func s xs)
  unfolding clean_loop sweep poll
  clean_loop_lem zero s q xs r h = absurd (omega arith)
  clean_loop_lem (suc fuel) s q [] r h = record {
    result = record { released = []; arg = s; fifo = q };
    ended = ground arith;
    released = refl;
    arg = refl;
    left = r;
  }
  clean_loop_lem (suc fuel) s q (x ∷ xs) r h =
      let front = peak_refines (x ∷ xs) r.valid r.holds in
      let got = get-Represents (x ∷ xs) r in
      let (s', flag) = verdict func s x in
      let ih = clean_loop_lem fuel s' (Fifo.get q).1 xs got.1 (omega arith) in
      elim (Bool-cases (has flag flag_clean)) [
        | inl clean ↦ elim (Bool-cases (has flag flag_stop)) [
          | inl stop ↦ record {
            result = record { released = x ∷ []; arg = s'; fifo = (Fifo.get q).1 };
            ended = ground arith;
            released = rw (clean, stop);
            arg = rw (clean, stop);
            left = rw (clean, stop) got.1;
          }
          | inr go ↦ record {
            result = record ih.result { released = x ∷ ih.result.released };
            ended = ground (arith, ih.ended);
            released = rw (clean, go) (ap (◌∷◌ x) ih.released);
            arg = rw (clean, go) ih.arg;
            left = rw (clean, go) ih.left;
          }
        ]
        | inr keep ↦ record {
          result = record { released = []; arg = s'; fifo = q };
          ended = ground (arith, progress s x);
          released = rw keep;
          arg = rw keep;
          left = rw keep r;
        }
      ]

  -- `cleanIf` ends after at most one round for each stored frame and one more, if its callback
  -- always asks to clean or to stop: it goes through the frames oldest first, releases those that
  -- the callback cleans up to the first stop, and leaves the others in order.
  pub clean_if_lem :
      (fuel : ℕ) (s : S) (q : FrameQueue A) (xs : List A)
      → Represents q.queue c xs
      → length xs < fuel
      → Did (clean_if fuel func s q) c (sweep func s xs)
  unfolding clean_if
  clean_if_lem fuel s q xs r h = clean_loop_lem fuel s q.queue xs r h

module _ {ℓ} {A : Type ℓ} {S : Type 0} (func : S → A → S × ℕ) where
  clean_loop-diverges :
      (fuel c : ℕ) (x : A) (xs : List A) (s : S) (q : Fifo A)
      → ((t : S) → (func t x).1 ≡ 0)
      → Represents q c (x ∷ xs)
      → clean_loop fuel (some func) s q ≡ none
  unfolding clean_loop
  clean_loop-diverges zero c x xs s q idle r = refl
  clean_loop-diverges (suc fuel) c x xs s q idle r = ground (
    arith,
    idle s,
    peak_refines (x ∷ xs) r.valid r.holds,
    clean_loop-diverges fuel c x xs (func s x).0 q idle r,
  )

  -- The callback's contract is not checked: on a queue that is not empty, one that neither cleans
  -- nor stops at the oldest frame keeps `cleanIf` going for ever.
  pub clean_if-diverges :
      (fuel c : ℕ) (x : A) (xs : List A) (s : S) (q : FrameQueue A)
      → ((t : S) → (func t x).1 ≡ 0)
      → Represents q.queue c (x ∷ xs)
      → clean_if fuel (some func) s q ≡ none
  unfolding clean_if
  clean_if-diverges fuel c x xs s q idle r = clean_loop-diverges fuel c x xs s q.queue idle r
