-- ===== src/Tests/Flowing.antt =====
-- Frames on their way through the program.
use koala_streamer.Prelude.{ℕ, refl, some, List, [], ◌∷◌, replicate, length-replicate}
use koala_streamer.Prelude.Int.{pos}
use koala_streamer.Prelude.Sublists.{IsSublist}
use koala_streamer.Fifo
use koala_streamer.FrameQueue
use koala_streamer.FrameQueue.{put_signal, get_signal}
use koala_streamer.Frame.{Frame, blank}
use koala_streamer.Muxer.Write.{video, write_frame}
use koala_streamer.App.Encoder.{Packet, Encoded, answer}
use koala_streamer.App.Written.{Delivers, handed, answer-Delivers}
use koala_streamer.App.Flow.{
  Flow, new_flow, captures, times_out, deals, stores, hands_out, Reach, here, next,
}
use koala_streamer.App.Flow.Lists.{firsts, results}
use koala_streamer.App.Flow.Order.{Reach-IsSublist}
use koala_streamer.Tests.Encoding.{thread}
use koala_streamer.Tests.Muxing.{plain_av, ready_muxer}

abbrev packet : Packet
packet = record {
  address = 40;
  data_at = some 41;
  contents = 1 ∷ 2 ∷ 3 ∷ [];
  pts = pos 140;
  dts = pos 100;
  flags = 1;
  stream_index = pos 0;
}

abbrev reply : Encoded
reply = record { ret = pos 0; got = some packet }

answer-Delivers_example : Delivers plain_av video ready_muxer 8 packet (
    write_frame plain_av video ready_muxer
      (handed (answer 8 thread blank reply []).result)
      (λ p. pos 0))
answer-Delivers_example =
    answer-Delivers plain_av video ready_muxer 8 thread blank reply [] packet (λ p. pos 0) refl refl
      refl refl

abbrev cells : ℕ → List Frame
cells n = replicate n blank

abbrev stamped : ℕ → Frame
stamped t = record blank { pts = pos t }

-- Two pictures are captured, the first is encoded and handed out.
abbrev walked : (w : Flow) × Reach 3 (new_flow cells 2 3) w
unfolding put_signal get_signal FrameQueue.create Fifo.create Fifo.put Fifo.get
walked =
    let one = next here (captures (stamped 1) refl) in
    let two = next (next one (captures (stamped 2) refl)) (times_out (stamped 3) refl) in
    let made = next two (deals (stamped 1) (some (stamped 7)) refl refl refl) in
    let stored = next made (stores (stamped 7) refl refl) in
    (_, next stored (hands_out (stamped 7) refl refl))

Reach-IsSublist_example :
    IsSublist (firsts walked.0.dealt) walked.0.captured
    × IsSublist walked.0.handed_out (results walked.0.dealt)
Reach-IsSublist_example =
    Reach-IsSublist cells 2 3 walked.0 (λ k. length-replicate k blank) walked.1
