-- ===== src/Streamer/Counting.antt =====
-- The calls that the muxer makes of a streamer's callbacks, and what they ask of its statistics.
pub mod Whole
use koala_streamer.Prelude.{
  ℕ, ◌+◌, ◌≡◌, ◌≢◌, refl, ap, ap₂, sym, subst, ◌∙◌, Bool, true, false, not, ◌&&◌, Option, none,
  some, List, [], ◌∷◌, ◌++◌, ◌==◌, if◌then◌else◌, arith, get_elem?, Bool-cases, Option-cases, inl,
  inr,
}
use koala_streamer.Prelude.Int.{ℤ, pos, negsuc, is_neg, is_zero}
use koala_streamer.Frame.{Frame}
use koala_streamer.Muxer.{is_some}
use koala_streamer.Muxer.Write.{Stream, video, audio}
use koala_streamer.Muxer.Events.{same_stream}
use koala_streamer.Streamer.{Streamer, reset_statistician}
use koala_streamer.Streamer.Callbacks.{
  CallbackCmd, get_source_meta, get_sink_meta, get_frame, Answer, Moments, counted, audio_callback,
  video_callback,
}
use koala_streamer.Statistics.{
  Statistician, StreamStatistics, on_frame_begin, on_frame_end, reset, to_u64,
}
use koala_streamer.Statistics.Account.{CountsAt}
use koala_streamer.Statistics.History.{
  Call, begins, ends, resets, call, run, sum, frames_in, bytes_in, IsValid, AllInside, run_lem,
}

-- A call of the muxer's for a stream, or a new period.
pub data Use : Type 0 where
  asks : Stream → CallbackCmd → Moments → Answer → Use
  renews : (ℕ → ℤ) → Use

unfoldable pub accepts : Stream → ℤ → Bool
accepts audio ret = not (is_neg ret)
accepts video ret = is_zero ret

-- The frames of stream `k` that a call counts, and their bytes.
unfoldable pub frames_from : Stream → Use → ℕ
unfolding accepts
frames_from k (asks s get_frame t a) =
    if same_stream k s && (accepts s a.ret && is_some a.frame) then 1 else 0
frames_from k _ = 0

abbrev size_of : Option Frame → ℕ
size_of none = 0
size_of (some f) = to_u64 f.size

unfoldable pub bytes_from : Stream → Use → ℕ
unfolding accepts
bytes_from k (asks s get_frame t a) =
    if same_stream k s && accepts s a.ret then size_of a.frame else 0
bytes_from k _ = 0

unfoldable pub total : (Use → ℕ) → List Use → ℕ
total count [] = 0
total count (u ∷ us) = count u + total count us

abbrev stated : {H R : Type 0} → Option (R × Streamer H) → Option (Streamer H)
stated none = none
stated (some (_, s)) = some s

module _ {H : Type 0} where
  unfoldable pub serve : Streamer H → Use → Option (Streamer H)
  serve s (asks audio cmd t a) = stated (audio_callback s cmd t a)
  serve s (asks video cmd t a) = stated (video_callback s cmd t a)
  serve s (renews clock) = some (reset_statistician s clock)

  -- No result where a call follows a null pointer or leaves the statistics' array.
  unfoldable pub serve_all : Streamer H → List Use → Option (Streamer H)
  serve_all s [] = some s
  serve_all s (u ∷ us) = elim (serve s u) [ none ↦ none | some s' ↦ serve_all s' us ]

-- The calls of the statistics that a use makes, where the streams have the indices `index`.
module _ (index : Stream → ℕ) where
  unfoldable pub asked : Stream → CallbackCmd → Moments → Answer → List Call
  unfolding accepts
  asked k get_frame t a =
      begins (pos (index k)) t.began t.period t.frame_began
      ∷ (if accepts k a.ret then ends (pos (index k)) a.frame t.ended ∷ [] else [])
  asked k get_source_meta t a = []
  asked k get_sink_meta t a = []

  unfoldable pub calls_of : Use → List Call
  unfolding asked
  calls_of (asks k cmd t a) = asked k cmd t a
  calls_of (renews clock) = resets clock ∷ []

  unfoldable pub all_calls : List Use → List Call
  all_calls [] = []
  all_calls (u ∷ us) = calls_of u ++ all_calls us

  AllInside-append : (cs ds : List Call) → AllInside cs → AllInside ds → AllInside (cs ++ ds)
  AllInside-append [] ds h k = k
  AllInside-append (c ∷ cs) ds h k = (h.0, AllInside-append cs ds h.1 k)

  calls_of-AllInside : (u : Use) → AllInside (calls_of u)
  unfolding calls_of
  calls_of-AllInside (asks k get_source_meta t a) = tt
  calls_of-AllInside (asks k get_sink_meta t a) = tt
  calls_of-AllInside (asks k get_frame t a) = elim (Bool-cases (accepts k a.ret)) [
    | inl e ↦ rw e (refl, (refl, tt))
    | inr e ↦ rw e (refl, tt)
  ]
  calls_of-AllInside (renews clock) = (tt, tt)

  pub all_calls-AllInside : (us : List Use) → AllInside (all_calls us)
  unfolding all_calls
  all_calls-AllInside [] = tt
  all_calls-AllInside (u ∷ us) =
      AllInside-append (calls_of u) (all_calls us) (calls_of-AllInside u) (all_calls-AllInside us)

sum-append :
    (count : Call → ℕ) (cs ds : List Call) → sum count (cs ++ ds) ≡ sum count cs + sum count ds
unfolding sum
sum-append count [] ds = omega arith
sum-append count (c ∷ cs) ds = omega (arith, sum-append count cs ds)

pub run-append :
    (st : Statistician) (cs ds : List Call)
    → run st (cs ++ ds)
      ≡ (elim (run st cs) as (λ _. Option Statistician) [ none ↦ none | some st' ↦ run st' ds ])
unfolding run
run-append st [] ds = refl
run-append st (c ∷ cs) ds = elim (Option-cases (call st c)) [
  | inl e ↦ rw (e, run) refl
  | inr (st', e) ↦ rw (e, run) (run-append st' cs ds)
]

module _ (index : Stream → ℕ) (apart : index video ≢ index audio) where
  same_index : (k s : Stream) → (index k == index s) ≡ same_stream k s
  same_index video video = ground arith
  same_index audio audio = ground arith
  same_index video audio = ground arith
  same_index audio video = ground arith

  frames_in-ends :
      (k s : Stream) (f : Option Frame) (b : Bool) (now : ℤ)
      → sum (frames_in (index k)) (if b then ends (pos (index s)) f now ∷ [] else [])
        ≡ (if same_stream k s && (b && is_some f) then 1 else 0)
  unfolding sum frames_in
  frames_in-ends k s none true now = ground arith
  frames_in-ends k s (some f) true now = ground (arith, same_index k s)
  frames_in-ends k s f false now = ground arith

  bytes_in-ends :
      (k s : Stream) (f : Option Frame) (b : Bool) (now : ℤ)
      → sum (bytes_in (index k)) (if b then ends (pos (index s)) f now ∷ [] else [])
        ≡ (if same_stream k s && b then size_of f else 0)
  unfolding sum bytes_in
  bytes_in-ends k s none true now = ground arith
  bytes_in-ends k s (some f) true now = ground (arith, same_index k s)
  bytes_in-ends k s f false now = ground arith

  pub frames_in-calls_of :
      (k : Stream) (u : Use) → sum (frames_in (index k)) (calls_of index u) ≡ frames_from k u
  unfolding calls_of sum frames_in frames_from
  frames_in-calls_of k (renews clock) = omega arith
  frames_in-calls_of k (asks s get_source_meta t a) = omega arith
  frames_in-calls_of k (asks s get_sink_meta t a) = omega arith
  frames_in-calls_of k (asks s get_frame t a) =
      omega (arith, frames_in-ends k s a.frame (accepts s a.ret) t.ended)

  pub bytes_in-calls_of :
      (k : Stream) (u : Use) → sum (bytes_in (index k)) (calls_of index u) ≡ bytes_from k u
  unfolding calls_of sum bytes_in bytes_from
  bytes_in-calls_of k (renews clock) = omega arith
  bytes_in-calls_of k (asks s get_source_meta t a) = omega arith
  bytes_in-calls_of k (asks s get_sink_meta t a) = omega arith
  bytes_in-calls_of k (asks s get_frame t a) =
      omega (arith, bytes_in-ends k s a.frame (accepts s a.ret) t.ended)

  pub sum-all_calls :
      (count : Call → ℕ) (of_use : Use → ℕ)
      → ((u : Use) → sum count (calls_of index u) ≡ of_use u)
      → (us : List Use) → sum count (all_calls index us) ≡ total of_use us
  unfolding all_calls total sum
  sum-all_calls count of_use each [] = omega arith
  sum-all_calls count of_use each (u ∷ us) = omega (
    arith,
    sum-append count (calls_of index u) (all_calls index us),
    each u,
    sum-all_calls count of_use each us,
  )
