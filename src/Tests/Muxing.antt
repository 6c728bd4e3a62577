-- ===== src/Tests/Muxing.antt =====
-- KoalaPlayer/src/koala_muxer.c at concrete inputs.
use koala_streamer.Prelude.{
  ℕ, suc, ◌≡◌, refl, true, false, ◌||◌, ◌⊎◌, inr, some, List, [], ◌∷◌, ◌++◌, map, arith,
}
use koala_streamer.Prelude.Int.{ℤ, pos, negsuc, ◌-ℤ◌}
use koala_streamer.Frame.{Frame, blank}
use koala_streamer.Muxer.{Muxer, koala_get_muxer_handle}
use koala_streamer.Muxer.Write.{Ffmpeg, Stream, Event, trailer, Reply, rebase}
use koala_streamer.Muxer.Events.{packets_of, releases_of, trailers, frames_of}
use koala_streamer.Muxer.Step.{sent_as}
use koala_streamer.Muxer.Thread.{World, Loop, finished, mux_thread}
use koala_streamer.Muxer.Thread.Account.{AllUsable, source}
use koala_streamer.Muxer.Thread.Whole.{given, mux_thread_lem}
use koala_streamer.Muxer.Thread.Order.{Rises, mux_thread-Rises}

-- A rescaling that multiplies only, and an order of times for equal bases.
abbrev pub plain_av : Ffmpeg
plain_av = record {
  av_rescale = λ a b c. a;
  av_compare_ts = λ a s b t. a -ℤ b;
  av_time_base = pos 1000000;
  etimedout = negsuc 59;
  epipe = negsuc 31;
  enotrecoverable = negsuc 104;
}

abbrev pub ready_muxer : Muxer
ready_muxer = record koala_get_muxer_handle {
  opened = true;
  vcb = some 1;
  acb = some 2;
  audio_stream = 0;
  video_stream = 1;
}

abbrev at_time : ℕ → Frame
at_time t = record blank { pts = pos t; dts = pos t }

abbrev answer : ℕ → Reply
answer t = record { ret = pos 0; frame = some (at_time t) }

-- Every write succeeds and nobody sets `end`.
abbrev calm : World
calm = record { sent = λ k p. pos 0; ends = λ k. false }

abbrev videos : List Reply
videos = answer 100 ∷ answer 140 ∷ []

abbrev audios : List Reply
audios = answer 110 ∷ answer 120 ∷ answer 130 ∷ []

videos-AllUsable : AllUsable videos
videos-AllUsable = (inr (at_time 100, refl, refl, refl), (inr (at_time 140, refl, refl, refl), tt))

audios-AllUsable : AllUsable audios
audios-AllUsable = (
  inr (at_time 110, refl, refl, refl),
  (inr (at_time 120, refl, refl, refl), (inr (at_time 130, refl, refl, refl), tt)),
)

mux_thread_lem_example :
    (body : List Event) × (last : Loop) × (origin : ℤ) × (mux_thread plain_av calm 8 ready_muxer
        videos audios
      ≡ finished (body ++ trailer ∷ []) last)
    × (trailers body ≡ 0)
    × ((s : Stream)
        → packets_of s body
            ++ map (sent_as plain_av ready_muxer s origin) (frames_of (source s last))
          ≡ map
              (sent_as plain_av ready_muxer s origin)
              (frames_of (given plain_av ready_muxer calm s videos audios)))
    × ((s : Stream)
        → releases_of s body ++ map (rebase origin) (frames_of (source s last))
          ≡ map (rebase origin) (frames_of (given plain_av ready_muxer calm s videos audios)))
    × ((last.encode_video || last.encode_audio ≡ false)
        ⊎ ((k : ℕ) × (last.round ≡ suc k) × (last.muxer.ended || false ≡ true)))
mux_thread_lem_example =
    mux_thread_lem plain_av ready_muxer calm 8 videos audios refl refl videos-AllUsable
      audios-AllUsable (omega arith)

mux_thread-Rises_example :
    (es : List Event) × (last : Loop) × (mux_thread plain_av calm 8 ready_muxer videos audios
      ≡ finished es last)
    × ((s : Stream) → Rises (map (λ p. p.dts) (packets_of s es)))
unfolding frames_of
mux_thread-Rises_example =
    mux_thread-Rises plain_av ready_muxer calm 8 videos audios ((λ a b h. h), (λ a b h. h)) refl
      refl videos-AllUsable audios-AllUsable (omega arith) (omega arith) (omega arith)
