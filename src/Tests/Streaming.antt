-- ===== src/Tests/Streaming.antt =====
-- A streamer at concrete calls.
use koala_streamer.Prelude.{ℕ, ◌+◌, ◌≡◌, refl, some, none, List, [], ◌∷◌, arith}
use koala_streamer.Prelude.Int.{pos, negsuc}
use koala_streamer.Frame.{Frame, blank}
use koala_streamer.MediaMuxer.{
  Delegate, muxer_setopt, muxer_open, hand_over, context, muxer_prepare, muxer_set_listener,
  muxer_set_callback, muxer_start,
}
use koala_streamer.MediaMuxer
use koala_streamer.Muxer.Write.{Stream, video, audio}
use koala_streamer.Statistics.{StreamStatistics, no_data, add_stream}
use koala_streamer.Statistics.Account.{CountsAt}
use koala_streamer.Streamer.{
  error, Deed, MediaStreamerCb, Streamer, create_media_streamer, prepare, prepare_internal,
  Functions, connect_audio, connect_video, connect, stop, set_in_put, notify, PreparePoint,
  beginning, called,
}
use koala_streamer.Streamer.Callbacks.{get_source_meta, get_frame, Moments}
use koala_streamer.Streamer.Counting.{
  Use, asks, renews, accepts, frames_from, bytes_from, total, serve_all,
}
use koala_streamer.Streamer.Counting.Whole.{callbacks_lem}
use koala_streamer.Streamer.Life
use koala_streamer.Streamer.Life.{
  World, Reach, here, next, sets, prepares, runs, stops, apply, input, new_world, creations_in,
  joins_in,
}
use koala_streamer.Streamer.Life.Threads.{Reach-IsValid}
use koala_streamer.Streamer.Life.Failure.{error_stays}

abbrev callbacks : MediaStreamerCb
callbacks = record {
  element = 3;
  audio_callback = some 10;
  acbarg = some 20;
  video_callback = some 11;
  vcbarg = some 20;
}

abbrev counted_stream : MediaMuxer.StreamType → StreamStatistics
counted_stream type = record {
  total = no_data;
  statistics = no_data;
  frame_start_time = pos 0;
  type = type;
}

-- Audio was added first.
abbrev index : Stream → ℕ
index video = 1
index audio = 0

abbrev pub connected : Streamer ℕ
connected = record create_media_streamer {
  data_cb = callbacks;
  statistics = record {
    streamers = counted_stream MediaMuxer.audio ∷ counted_stream MediaMuxer.video ∷ [];
    start_time = pos 0;
  };
  audio_index = pos 0;
  video_index = pos 1;
}

abbrev moments : Moments
moments = record { began = pos 1; period = pos 2; frame_began = pos 3; ended = pos 4 }

abbrev frame : Frame
frame = record blank { size = pos 700 }

-- Three accepted video frames, one of them after a new period, one refused, and one of audio.
abbrev uses : List Use
uses =
    asks video get_source_meta moments (record { ret = pos 0; frame = none })
    ∷ asks video get_frame moments (record { ret = pos 0; frame = some frame })
    ∷ asks audio get_frame moments (record { ret = pos 1; frame = some frame })
    ∷ asks video get_frame moments (record { ret = pos 1; frame = some frame })
    ∷ renews (λ i. pos (30 + i))
    ∷ asks video get_frame moments (record { ret = pos 0; frame = some frame })
    ∷ asks video get_frame moments (record { ret = pos 0; frame = some frame })
    ∷ []

callbacks_lem_example :
    (s : Streamer ℕ) × (serve_all connected uses ≡ some s)
    × CountsAt 3 2100 (counted_stream MediaMuxer.video) s.statistics.streamers 1
unfolding total frames_from bytes_from accepts
callbacks_lem_example =
    callbacks_lem index uses connected video (counted_stream MediaMuxer.video)
      (record {
        audio_at = refl;
        video_at = refl;
        apart = omega arith;
        has_audio = refl;
        has_video = refl;
      })
      (omega arith) refl

-- A delegate whose output cannot be prepared.
abbrev unprepared : Delegate ℕ ℕ
unprepared = record {
  probe = pos 0;
  open_context = λ name format elements. some 7;
  set_callback = λ h type func arg. h;
  prepare = λ h. (negsuc 0, h, 5 ∷ []);
  get_hostip = λ h. none;
  start = λ h. (pos 0, h, []);
  end = λ h. (h, []);
  close = λ h. [];
  setopt = λ h key value. (pos 0, h);
  set_listener = λ h listener arg. (pos 0, h);
}

abbrev functions : Functions
functions = record { muxer_listener = 1; audio_callback = 2; video_callback = 3; self = 4 }

abbrev after_set : World ℕ
after_set = record new_world { streamer = apply new_world.streamer (input callbacks) }

abbrev after_prepare : World ℕ
after_prepare =
    let r = prepare after_set.streamer in
    Life.did unprepared functions after_set beginning called r.0 r.1

abbrev step_of : World ℕ → PreparePoint × Streamer ℕ × List (Deed ℕ)
step_of w = elim (prepare_internal unprepared functions w.thread w.streamer) [
  | none ↦ (w.thread, w.streamer, [])
  | some r ↦ r
]

abbrev moved : World ℕ → World ℕ
moved w = let r = step_of w in Life.did unprepared functions w r.0 w.stopping r.1 r.2

abbrev stopped : World ℕ → World ℕ
stopped w =
    let r = stop unprepared w.stopping w.streamer in
    Life.did unprepared functions w w.thread r.0 r.1 r.2

-- The prepare thread sets the status error.
abbrev after_failure : World ℕ
after_failure = moved (moved (moved (moved after_prepare)))

failure-Reach : Reach unprepared functions new_world after_failure
unfolding prepare prepare_internal connect apply set_in_put muxer_open hand_over connect_audio
    connect_video muxer_prepare muxer_set_listener muxer_set_callback context add_stream
    creations_in joins_in
failure-Reach =
    next
      (next
        (next
          (next (next (next here (sets (input callbacks) refl)) (prepares refl refl))
            (runs (step_of after_prepare) refl refl))
          (runs (step_of (moved after_prepare)) refl refl))
        (runs (step_of (moved (moved after_prepare))) refl refl))
      (runs (step_of (moved (moved (moved after_prepare)))) refl refl)

-- mediaStreamer_stop is past its test before the thread sets the status.
abbrev tested : World ℕ
tested = stopped (moved (moved (moved after_prepare)))

abbrev overtaken : World ℕ
overtaken = moved tested

overtaken-Reach : Reach unprepared functions new_world overtaken
unfolding prepare prepare_internal connect apply set_in_put muxer_open hand_over connect_audio
    connect_video muxer_prepare muxer_set_listener muxer_set_callback context add_stream stop
    creations_in joins_in
overtaken-Reach =
    next
      (next
        (next
          (next
            (next (next (next here (sets (input callbacks) refl)) (prepares refl refl))
              (runs (step_of after_prepare) refl refl))
            (runs (step_of (moved after_prepare)) refl refl))
          (runs (step_of (moved (moved after_prepare))) refl refl))
        (stops (λ wrong. cc) refl))
      (runs (step_of tested) refl refl)

Reach-IsValid_example : Life.IsValid overtaken
Reach-IsValid_example = Reach-IsValid unprepared functions overtaken overtaken-Reach

abbrev after_stop : World ℕ
after_stop = stopped (moved after_failure)

stop-Reach : Reach unprepared functions after_failure after_stop
unfolding prepare prepare_internal connect apply set_in_put muxer_open hand_over connect_audio
    connect_video muxer_prepare muxer_set_listener muxer_set_callback context add_stream stop
    joins_in creations_in notify
stop-Reach = next (next here (runs (step_of after_failure) refl refl)) (stops (λ wrong. cc) refl)

after_failure-error : (after_failure.stopping ≡ called) × (after_failure.streamer.status ≡ error)
unfolding prepare prepare_internal connect apply set_in_put muxer_open hand_over connect_audio
    connect_video muxer_prepare muxer_set_listener muxer_set_callback context add_stream
after_failure-error = (refl, refl)

error_stays_example :
    (after_stop.streamer.status ≡ error)
    × (after_stop.stopping ≡ called)
    × (after_stop.creations ≡ 1)
    × (after_stop.joins ≡ 0)
error_stays_example =
    error_stays unprepared functions after_failure after_stop failure-Reach after_failure-error.0
      after_failure-error.1 stop-Reach
