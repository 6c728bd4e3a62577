-- ===== src/Tests/Counting.antt =====
-- The statistics of streams at a concrete history.
use koala_streamer.Prelude.{◌+◌, ◌≡◌, refl, some, List, [], ◌∷◌, arith}
use koala_streamer.Prelude.Int.{pos}
use koala_streamer.Frame.{Frame, blank}
use koala_streamer.MediaMuxer.{audio, video}
use koala_streamer.Statistics.{Statistician, StreamStatistics, no_data}
use koala_streamer.Statistics.Account.{CountsAt}
use koala_streamer.Statistics.History.{
  Call, adds, begins, ends, resets, rates, run, IsValid, run_lem, sum, frames_in, bytes_in,
}

abbrev video_stream : StreamStatistics
video_stream = record {
  total = no_data;
  statistics = no_data;
  frame_start_time = pos 0;
  type = video;
}

abbrev statistics : Statistician
statistics = record { streamers = video_stream ∷ []; start_time = pos 0 }

abbrev frame : Frame
frame = record blank { size = pos 700 }

-- Two frames on either side of a reset, one on a new stream, one on a stream that is not there, and
-- a rate that is read.
abbrev history : List Call
history =
    begins (pos 0) (pos 1) (pos 1) (pos 1)
    ∷ ends (pos 0) (some frame) (pos 20001)
    ∷ resets (λ i. pos (30000 + i))
    ∷ adds audio
    ∷ ends (pos 1) (some frame) (pos 40000)
    ∷ ends (pos 0) (some frame) (pos 50000)
    ∷ ends (pos 5) (some frame) (pos 60000)
    ∷ rates (λ size time. size) (pos 0) (pos 70000)
    ∷ []

run_lem_example :
    (s' : Statistician) × (run statistics history ≡ some s')
    × IsValid s'
    × CountsAt 2 1400 video_stream s'.streamers 0
unfolding sum frames_in bytes_in
run_lem_example =
    run_lem history statistics 0 video_stream (omega arith) refl
      (refl, (refl, (tt, (tt, (refl, (refl, (refl, ((0, refl, omega arith), tt))))))))
