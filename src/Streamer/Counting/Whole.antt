-- ===== src/Streamer/Counting/Whole.antt =====
-- What the streamer's statistics count of any calls that the muxer makes.
use koala_streamer.Prelude.{
  ℕ, ◌≡◌, ◌≢◌, refl, ap, subst, ◌∙◌, true, not, Option, none, some, List, [], ◌∷◌, arith, get_elem?,
  Option-cases, inl, inr,
}
use koala_streamer.Prelude.Int.{pos, is_neg, is_zero}
use koala_streamer.Muxer.{is_some}
use koala_streamer.Muxer.Write.{Stream, video, audio}
use koala_streamer.Streamer.{Streamer, reset_statistician}
use koala_streamer.Streamer.Callbacks.{
  get_source_meta, get_sink_meta, get_frame, Answer, Moments, counted, audio_callback,
  video_callback,
}
use koala_streamer.Statistics.{Statistician, StreamStatistics}
use koala_streamer.Statistics.Account.{CountsAt}
use koala_streamer.Statistics.History.{call, run, sum, frames_in, bytes_in, IsValid, run_lem}
use koala_streamer.Streamer.Counting.{
  Use, accepts, frames_from, bytes_from, total, serve, serve_all, calls_of, all_calls,
  all_calls-AllInside, run-append, frames_in-calls_of, bytes_in-calls_of, sum-all_calls, asks,
  renews,
}

-- The streamer with other statistics, if there are some.
abbrev restated : {H : Type 0} → Streamer H → Option Statistician → Option (Streamer H)
restated s none = none
restated s (some st) = some (record s { statistics = st })

restated_again :
    {H : Type 0} (s : Streamer H) (st : Statistician) (o : Option Statistician)
    → restated (record s { statistics = st }) o ≡ restated s o
restated_again s st none = refl
restated_again s st (some st') = refl

-- Both callbacks are there, and the streams are counted under `index`.
pub record IsWired {H : Type 0} (index : Stream → ℕ) (s : Streamer H) : Type 0 where
  pub audio_at : s.audio_index ≡ pos (index audio)
  pub video_at : s.video_index ≡ pos (index video)
  pub apart : index video ≢ index audio
  pub has_audio : is_some s.data_cb.audio_callback ≡ true
  pub has_video : is_some s.data_cb.video_callback ≡ true

counted-run :
    (index : Stream → ℕ) (st : Statistician) (k : Stream) (t : Moments) (a : Answer)
    → counted st (pos (index k)) t (accepts k a.ret) a.frame
      ≡ run st (calls_of index (asks k get_frame t a))
unfolding counted run call calls_of
counted-run index st k t a = ground arith

module _ {H : Type 0} (index : Stream → ℕ) where
  serve_frame :
      (s : Streamer H) (k : Stream) (t : Moments) (a : Answer)
      → IsWired index s
      → serve s (asks k get_frame t a)
        ≡ restated s (run s.statistics (calls_of index (asks k get_frame t a)))
  unfolding serve audio_callback video_callback accepts
  serve_frame s audio t a w =
      let e : counted s.statistics s.audio_index t (not (is_neg a.ret)) a.frame
          ≡ run s.statistics (calls_of index (asks audio get_frame t a)) =
        ap (λ i. counted s.statistics i t (not (is_neg a.ret)) a.frame) w.audio_at
        ∙ counted-run index s.statistics audio t a in
      ground (arith, e, w.has_audio)
  serve_frame s video t a w =
      let e : counted s.statistics s.video_index t (is_zero a.ret) a.frame
          ≡ run s.statistics (calls_of index (asks video get_frame t a)) =
        ap (λ i. counted s.statistics i t (is_zero a.ret) a.frame) w.video_at
        ∙ counted-run index s.statistics video t a in
      ground (arith, e, w.has_video)

  serve-run :
      (s : Streamer H) (u : Use)
      → IsWired index s
      → serve s u ≡ restated s (run s.statistics (calls_of index u))
  unfolding serve audio_callback video_callback run call calls_of reset_statistician
  serve-run s (renews clock) w = refl
  serve-run s (asks audio get_source_meta t a) w = ground (arith, w.has_audio)
  serve-run s (asks audio get_sink_meta t a) w = ground (arith, w.has_audio)
  serve-run s (asks audio get_frame t a) w = serve_frame s audio t a w
  serve-run s (asks video get_source_meta t a) w = ground (arith, w.has_video)
  serve-run s (asks video get_sink_meta t a) w = ground (arith, w.has_video)
  serve-run s (asks video get_frame t a) w = serve_frame s video t a w

  serve_all-run :
      (us : List Use) (s : Streamer H)
      → IsWired index s
      → serve_all s us ≡ restated s (run s.statistics (all_calls index us))
  unfolding serve_all all_calls run
  serve_all-run [] s w = refl
  serve_all-run (u ∷ us) s w =
      let first = serve-run s u w in
      let parts = run-append s.statistics (calls_of index u) (all_calls index us) in
      elim (Option-cases (run s.statistics (calls_of index u))) [
        | inl e ↦ rw (first ∙ ap (restated s) e, serve_all, parts, e) refl
        | inr (st, e) ↦
            let w' : IsWired index (record s { statistics = st }) = record {
              audio_at = w.audio_at;
              video_at = w.video_at;
              apart = w.apart;
              has_audio = w.has_audio;
              has_video = w.has_video;
            } in
            let rest = serve_all-run us (record s { statistics = st }) w' in
            rw (first ∙ ap (restated s) e, serve_all, parts, e)
              (rest ∙ restated_again s st (run st (all_calls index us)))
      ]

  -- Both streams of a streamer whose callbacks are there are counted under two indices within the
  -- array. Then whatever the muxer asks of either callback, in any order and with new periods in
  -- between, every call returns, and a stream's total and present period together grow by exactly
  -- the frames, and their bytes, that the program's callback left with a result that is not
  -- negative (audio) or is 0 (video), modulo 2^64.
  pub callbacks_lem :
      (us : List Use) (s : Streamer H) (k : Stream) (x : StreamStatistics)
      → IsWired index s
      → IsValid s.statistics
      → get_elem? s.statistics.streamers (index k) ≡ some x
      → (s' : Streamer H) × (serve_all s us ≡ some s')
        × CountsAt
            (total (frames_from k) us)
            (total (bytes_from k) us)
            x
            s'.statistics.streamers
            (index k)
  callbacks_lem us s k x w valid at-k =
      let (st, ran, valid', counts) =
        run_lem (all_calls index us) s.statistics (index k) x valid at-k
          (all_calls-AllInside index us) in
      (
        record s { statistics = st },
        serve_all-run us s w ∙ rw ran refl,
        subst (λ n. CountsAt n (total (bytes_from k) us) x st.streamers (index k))
            (sum-all_calls index w.apart (frames_in (index k)) (frames_from k)
              (frames_in-calls_of index w.apart k) us)
            (subst
              (λ b.
                CountsAt (sum (frames_in (index k)) (all_calls index us)) b x st.streamers
                  (index k))
              (sum-all_calls index w.apart (bytes_in (index k)) (bytes_from k)
                (bytes_in-calls_of index w.apart k) us)
              counts),
      )
