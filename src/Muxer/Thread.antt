-- ===== src/Muxer/Thread.antt =====
-- koala_muxer.c, mux_thread: the loop that interleaves the two streams. What the callbacks hand
-- back, what each write returns and when another thread sets `end` are the environment's.
pub mod Account
pub mod Rounds
pub mod Whole
pub mod Order
use koala_streamer.Prelude.{
  ℕ, zero, suc, ◌+◌, ◌≡◌, Bool, true, false, ◌&&◌, ◌||◌, not, Option, none, some, List, [], ◌∷◌,
  ◌++◌, if◌then◌else◌,
}
use koala_streamer.Prelude.Int.{ℤ, pos, negsuc, ltb_ℤ, is_zero}
use koala_streamer.Muxer.{Muxer, Rational, have_video, have_audio}
use koala_streamer.Muxer.Write.{
  Ffmpeg, Stream, video, audio, Reply, Packet, Event, trailer, Step, write_frame,
}

-- The result of each write, by the round of the loop, and whether `end` is set after a round.
pub record World : Type 0 where
  pub sent : ℕ → Packet → ℤ
  pub ends : ℕ → Bool

-- The loop's variables: the muxer, what the sources still have, `encode_video`, `encode_audio`, and
-- the number of rounds made.
pub record Loop : Type 0 where
  pub muxer : Muxer
  pub videos : List Reply
  pub audios : List Reply
  pub encode_video : Bool
  pub encode_audio : Bool
  pub round : ℕ

-- The next answer of a source; one that has no more answers that its data has ended.
unfoldable pub next_reply : List Reply → Reply
next_reply [] = record { ret = negsuc 0; frame = none }
next_reply (r ∷ rs) = r

abbrev pub rest {ℓ} : {A : Type ℓ} → List A → List A
rest [] = []
rest (x ∷ xs) = xs

-- How the thread ends: having done some events, or by an access to a null pointer; or it is still
-- going when the fuel is used up.
pub data Run : Type 0 where
  finished : List Event → Loop → Run
  crashed : Run
  out_of_fuel : Run

unfoldable pub before : List Event → Run → Run
before es (finished fs l) = finished (es ++ fs) l
before es crashed = crashed
before es out_of_fuel = out_of_fuel

module _ (av : Ffmpeg) (w : World) where
  -- Video goes first while it is not ahead of the audio.
  unfoldable pub selects_video : Loop → Bool
  selects_video l =
      let time_base : Rational = record { num = pos 1; den = av.av_time_base } in
      let order =
        av.av_compare_ts l.muxer.last_video_pts time_base l.muxer.last_audio_pts time_base in
      l.encode_video && (not l.encode_audio || not (ltb_ℤ (pos 0) order))

  video_round : Loop → Option (List Event × Loop)
  video_round l = elim (write_frame av video l.muxer (next_reply l.videos) (w.sent l.round)) [
    | none ↦ none
    | some s ↦ some (
      s.events,
      record l {
        muxer = s.muxer;
        videos = rest l.videos;
        encode_video = is_zero s.ret;
        round = suc l.round;
      },
    )
  ]

  audio_round : Loop → Option (List Event × Loop)
  audio_round l = elim (write_frame av audio l.muxer (next_reply l.audios) (w.sent l.round)) [
    | none ↦ none
    | some s ↦ some (
      s.events,
      record l {
        muxer = s.muxer;
        audios = rest l.audios;
        encode_audio = is_zero s.ret;
        round = suc l.round;
      },
    )
  ]

  unfoldable pub mux_round : Loop → Option (List Event × Loop)
  unfolding video_round audio_round
  mux_round l = if selects_video l then video_round l else audio_round l

  unfoldable pub mux_loop : ℕ → Loop → Run
  mux_loop zero l = out_of_fuel
  mux_loop (suc fuel) l =
      if l.encode_video || l.encode_audio
      then elim (mux_round l) [
        | none ↦ crashed
        | some (es, l') ↦
            let later = mux_loop fuel l' in
            before es
              (if l'.muxer.ended || w.ends l.round then finished (trailer ∷ []) l' else later)
      ]
      else finished (trailer ∷ []) l

  -- The thread on a muxer whose sources will answer with `videos` and `audios`.
  unfoldable pub mux_thread : ℕ → Muxer → List Reply → List Reply → Run
  unfolding mux_loop
  mux_thread fuel m videos audios = mux_loop fuel (record {
    muxer = m;
    videos = videos;
    audios = audios;
    encode_video = have_video m;
    encode_audio = have_audio m;
    round = 0;
  })
