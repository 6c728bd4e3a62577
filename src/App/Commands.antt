-- ===== src/App/Commands.antt =====
-- MacRTMPStreamer.cpp, main: its loop over the characters that are typed.
pub mod Laws
use koala_streamer.Prelude.{
  ℕ, ◌+◌, ◌≡◌, ◌<◌, refl, sym, ap, ◌∙◌, length-append, Bool, true, false, ◌||◌, Option, none, some,
  List, [], ◌∷◌, ◌==◌, length, arith, if◌then◌else◌, Bool-cases, Option-cases, inl, inr, ◌++◌,
}
use koala_streamer.Prelude.Maybe.{◌>>=◌}
use koala_streamer.Prelude.Int.{ℤ, pos}
use koala_streamer.FrameQueue.{FrameQueue, get_size}
use koala_streamer.Frame.{Frame}
use koala_streamer.MediaMuxer.{video, audio}
use koala_streamer.Statistics.{max_streames, get_stream_bit_rate, Statistician}
use koala_streamer.Streamer.{
  Streamer, index_of, stream_bit_rate, band_wide_factor, reset_statistician,
}
use koala_streamer.App.{StreamerCont}
use koala_streamer.App.Capture.{Others, meet, Ran, left, running}

-- The streamer as a call finds it, with the time that the call reads. Other threads count frames in it
-- meanwhile.
pub record Sight (H : Type 0) : Type 0 where
  pub streamer : Streamer H
  pub now : ℤ

-- What a round of the loop meets: what the other threads do to the shared state, `stop` included,
-- until the loop's next test; the character; what 'i' finds the streamer to be at each of its calls,
-- and the times that the reset reads.
pub record Key (H : Type 0) : Type 0 where
  pub others : Others
  pub char : ℤ
  pub for_factor : Sight H
  pub for_video : Sight H
  pub for_audio : Sight H
  pub for_reset : Streamer H
  pub clock : ℕ → ℤ

abbrev pub is_char : ℕ → ℤ → Bool
is_char n (pos m) = m == n
is_char n _ = false

-- 'q' and 'i'.
abbrev pub is_quit : {H : Type 0} → Key H → Bool
is_quit k = is_char 113 k.char

abbrev pub is_info : {H : Type 0} → Key H → Bool
is_info k = is_char 105 k.char

-- What 'i' prints: the sizes of the queues of encoded frames that are there, and the statistics.
pub record Report (F : Type 0) : Type 0 where
  pub ve_size : Option ℕ
  pub ae_size : Option ℕ
  pub factor : F
  pub video_rate : ℕ
  pub audio_rate : ℕ

-- The shared state, what was printed, and the streamers that the resets left.
pub record Commanded (H F : Type 0) : Type 0 where
  pub cont : StreamerCont
  pub reports : List (Report F)
  pub renewed : List (Streamer H)

abbrev pub size_of : Option (FrameQueue Frame) → Option ℕ
size_of none = none
size_of (some q) = some (get_size q)

-- The two quotients in floating point are arguments.
module _ {H F : Type 0} (rate : ℕ → ℤ → ℕ) (factor : ℕ → ℤ → F) where
  -- No result where an index leaves the array of streams.
  unfoldable pub info : StreamerCont → Key H → Option (Report F)
  info c k = do
    v ← stream_bit_rate rate k.for_video.streamer video k.for_video.now
    a ← stream_bit_rate rate k.for_audio.streamer audio k.for_audio.now
    some (record {
      ve_size = size_of c.ve_queue;
      ae_size = size_of c.ae_queue;
      factor = band_wide_factor factor k.for_factor.streamer k.for_factor.now;
      video_rate = v;
      audio_rate = a;
    })

  -- The case 'i' runs on into the default case, which does nothing.
  unfoldable pub command : Commanded H F → Key H → Option (Commanded H F)
  unfolding info
  command m k =
      let c = meet m.cont k.others in
      let told = info c k in
      if is_quit k
      then some (record m { cont = record c { stop = true } })
      else if is_info k
      then elim told [
        | none ↦ none
        | some r ↦ some (record {
          cont = c;
          reports = m.reports ++ r ∷ [];
          renewed = m.renewed ++ reset_statistician k.for_reset k.clock ∷ [];
        })
      ]
      else some (record m { cont = c })

  unfoldable pub commands : Commanded H F → List (Key H) → Option (Ran (Commanded H F))
  unfolding command
  commands m [] = some (if m.cont.stop then left m else running m)
  commands m (k ∷ ks) =
      let rest = command m k >>= (λ m'. commands m' ks) in
      if m.cont.stop then some (left m) else rest

  -- What should be printed: for each 'i', what it finds after all that the others did so far.
  unfoldable pub printed : StreamerCont → List (Key H) → List (Option (Report F))
  unfolding info
  printed c [] = []
  printed c (k ∷ ks) =
      let rest = printed (meet c k.others) ks in
      if is_info k then info (meet c k.others) k ∷ rest else rest

-- An index of the array of streams.
abbrev pub IsInside : ℤ → Type 0
IsInside index = (n : ℕ) × (index ≡ pos n) × (n < max_streames)

module _ {H : Type 0} where
  -- A round after which the loop is left.
  abbrev pub is_last : Key H → Bool
  is_last k = is_quit k || k.others.stops

  -- The rounds that the loop makes, and whether it is left after them.
  unfoldable pub heeded : List (Key H) → List (Key H)
  heeded [] = []
  heeded (k ∷ ks) = let rest = heeded ks in k ∷ (if is_last k then [] else rest)

  unfoldable pub quits : List (Key H) → Bool
  quits [] = false
  quits (k ∷ ks) = let rest = quits ks in if is_last k then true else rest

  -- What the other threads make of the shared state.
  unfoldable pub met_all : StreamerCont → List (Key H) → StreamerCont
  met_all c [] = c
  met_all c (k ∷ ks) = met_all (meet c k.others) ks

  -- The streamers that the resets should leave: each the one that the reset found, reset.
  unfoldable pub resets : List (Key H) → List (Streamer H)
  resets [] = []
  resets (k ∷ ks) =
      let rest = resets ks in
      if is_info k then reset_statistician k.for_reset k.clock ∷ rest else rest

  -- Both streams are counted in the array whenever a rate is read.
  abbrev pub AllInside : List (Key H) → Type 0
  AllInside [] = Unit
  AllInside (k ∷ ks) =
      IsInside k.for_video.streamer.video_index
      × IsInside k.for_audio.streamer.audio_index
      × AllInside ks
