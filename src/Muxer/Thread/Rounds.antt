-- ===== src/Muxer/Thread/Rounds.antt =====
-- Each round of mux_thread's loop accounts for the frames that it takes.
use koala_streamer.Prelude.{suc, ◌≡◌, refl, ap, true, ◌||◌, ◌++◌, map, arith, Bool-cases, inl, inr}
use koala_streamer.Prelude.Int.{ℤ, is_zero}
use koala_streamer.Muxer.{Muxer}
use koala_streamer.Muxer.Write.{Ffmpeg, Stream, video, audio, rebase, write_frame}
use koala_streamer.Muxer.Events.{packets_of, releases_of, frames_of}
use koala_streamer.Muxer.Step.{Anchors, sent_as, Served, write_frame-Served}
use koala_streamer.Muxer.Thread.{
  World, Loop, next_reply, rest, selects_video, video_round, audio_round, mux_round,
}
use koala_streamer.Muxer.Thread.Account.{
  Runs, source, Rounded, next_reply-IsUsable, rest-AllUsable, map-frames_of-rest, round-less,
  callback-Ready,
}

module _ (av : Ffmpeg) (m₀ : Muxer) where
  module _ (w : World) where
    video_round-Rounded :
        (l : Loop) → Runs m₀ l → l.encode_video ≡ true → Rounded av m₀ l (video_round av w l)
    unfolding video_round
    video_round-Rounded l r on = record {
      events = s.result.events;
      next = next;
      made = rw (s.ended, video_round);
      runs = record {
        ready = s.ready;
        video_on = λ _. r.video_on on;
        audio_on = r.audio_on;
        videos = rest-AllUsable l.videos r.videos;
        audios = r.audios;
      };
      less = ground (arith, round-less l.videos s.result.ret s.stops);
      plain = s.plain;
      counted = refl;
      accounts = record { anchored = s.anchored; written = written; freed = freed };
    }
      where
        s :
            Served av m₀ video l.muxer
              (next_reply l.videos)
              (write_frame av video l.muxer (next_reply l.videos) (w.sent l.round))
        s =
            write_frame-Served av m₀ video l.muxer (next_reply l.videos) (w.sent l.round) r.ready
              (callback-Ready video r.ready (r.video_on on)) (next_reply-IsUsable l.videos r.videos)

        next : Loop
        next = record l {
          muxer = s.result.muxer;
          videos = rest l.videos;
          encode_video = is_zero s.result.ret;
          round = suc l.round;
        }

        written :
            (t : Stream) (o : ℤ)
            → Anchors o s.result.muxer
            → packets_of t s.result.events ++ map (sent_as av m₀ t o) (frames_of (source t next))
              ≡ map (sent_as av m₀ t o) (frames_of (source t l))
        written video o a = map-frames_of-rest (sent_as av m₀ video o) l.videos (s.written o a)
        written audio o a =
            ap (λ ps. ps ++ map (sent_as av m₀ audio o) (frames_of l.audios)) s.quiet

        freed :
            (t : Stream) (o : ℤ)
            → Anchors o s.result.muxer
            → releases_of t s.result.events ++ map (rebase o) (frames_of (source t next))
              ≡ map (rebase o) (frames_of (source t l))
        freed video o a = map-frames_of-rest (rebase o) l.videos (s.freed o a)
        freed audio o a = ap (λ fs. fs ++ map (rebase o) (frames_of l.audios)) s.kept

    audio_round-Rounded :
        (l : Loop) → Runs m₀ l → l.encode_audio ≡ true → Rounded av m₀ l (audio_round av w l)
    unfolding audio_round
    audio_round-Rounded l r on = record {
      events = s.result.events;
      next = next;
      made = rw (s.ended, audio_round);
      runs = record {
        ready = s.ready;
        audio_on = λ _. r.audio_on on;
        video_on = r.video_on;
        audios = rest-AllUsable l.audios r.audios;
        videos = r.videos;
      };
      less = ground (arith, round-less l.audios s.result.ret s.stops);
      plain = s.plain;
      counted = refl;
      accounts = record { anchored = s.anchored; written = written; freed = freed };
    }
      where
        s :
            Served av m₀ audio l.muxer
              (next_reply l.audios)
              (write_frame av audio l.muxer (next_reply l.audios) (w.sent l.round))
        s =
            write_frame-Served av m₀ audio l.muxer (next_reply l.audios) (w.sent l.round) r.ready
              (callback-Ready audio r.ready (r.audio_on on)) (next_reply-IsUsable l.audios r.audios)

        next : Loop
        next = record l {
          muxer = s.result.muxer;
          audios = rest l.audios;
          encode_audio = is_zero s.result.ret;
          round = suc l.round;
        }

        written :
            (t : Stream) (o : ℤ)
            → Anchors o s.result.muxer
            → packets_of t s.result.events ++ map (sent_as av m₀ t o) (frames_of (source t next))
              ≡ map (sent_as av m₀ t o) (frames_of (source t l))
        written audio o a = map-frames_of-rest (sent_as av m₀ audio o) l.audios (s.written o a)
        written video o a =
            ap (λ ps. ps ++ map (sent_as av m₀ video o) (frames_of l.videos)) s.quiet

        freed :
            (t : Stream) (o : ℤ)
            → Anchors o s.result.muxer
            → releases_of t s.result.events ++ map (rebase o) (frames_of (source t next))
              ≡ map (rebase o) (frames_of (source t l))
        freed audio o a = map-frames_of-rest (rebase o) l.audios (s.freed o a)
        freed video o a = ap (λ fs. fs ++ map (rebase o) (frames_of l.videos)) s.kept

    pub mux_round-Rounded :
        (l : Loop)
        → Runs m₀ l
        → l.encode_video || l.encode_audio ≡ true
        → Rounded av m₀ l (mux_round av w l)
    unfolding mux_round selects_video
    mux_round-Rounded l r go = elim (Bool-cases (selects_video av w l)) [
      | inl v ↦ rw (v, mux_round) (video_round-Rounded l r (ground arith))
      | inr n ↦ rw (n, mux_round) (audio_round-Rounded l r (ground arith))
    ]
