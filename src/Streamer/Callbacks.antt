-- ===== src/Streamer/Callbacks.antt =====
-- MediaStreamer.c, audio_callback and video_callback: what the muxer calls for frames, passed on to
-- the program's callbacks and counted.
use koala_streamer.Prelude.{Bool, not, Option, none, some, if◌then◌else◌}
use koala_streamer.Prelude.Int.{ℤ, is_neg, is_zero}
use koala_streamer.Frame.{Frame}
use koala_streamer.Muxer.{is_some}
use koala_streamer.Streamer.{Streamer}
use koala_streamer.Statistics.{Statistician, on_frame_begin, on_frame_end}

-- `callback_cmd`.
pub data CallbackCmd : Type 0 where
  get_source_meta get_sink_meta get_frame : CallbackCmd

-- What the program's callback answers: its result, and the frame that it leaves.
pub record Answer : Type 0 where
  pub ret : ℤ
  pub frame : Option Frame

-- The moments that a call reads from the clock.
pub record Moments : Type 0 where
  pub began : ℤ
  pub period : ℤ
  pub frame_began : ℤ
  pub ended : ℤ

-- A frame counted: begun before the program's callback is called, ended if it accepts its result.
unfoldable pub counted : Statistician → ℤ → Moments → Bool → Option Frame → Option Statistician
counted st index t accepts frame = elim (on_frame_begin st index t.began t.period t.frame_began) [
  | none ↦ none
  | some st' ↦ if accepts then on_frame_end st' index frame t.ended else some st'
]

module _ {H : Type 0} where
  -- The result is the program's; a null callback has none.
  unfoldable pub audio_callback :
      Streamer H → CallbackCmd → Moments → Answer → Option (ℤ × Streamer H)
  unfolding counted
  audio_callback s cmd t a =
      let whole : Option Statistician = elim cmd [
        | get_frame ↦ counted s.statistics s.audio_index t (not (is_neg a.ret)) a.frame
        | _ ↦ some s.statistics
      ] in
      if is_some s.data_cb.audio_callback
      then elim whole [ none ↦ none | some st ↦ some (a.ret, record s { statistics = st }) ]
      else none

  unfoldable pub video_callback :
      Streamer H → CallbackCmd → Moments → Answer → Option (ℤ × Streamer H)
  unfolding counted
  video_callback s cmd t a =
      let whole : Option Statistician = elim cmd [
        | get_frame ↦ counted s.statistics s.video_index t (is_zero a.ret) a.frame
        | _ ↦ some s.statistics
      ] in
      if is_some s.data_cb.video_callback
      then elim whole [ none ↦ none | some st ↦ some (a.ret, record s { statistics = st }) ]
      else none
