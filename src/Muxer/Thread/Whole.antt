-- ===== src/Muxer/Thread/Whole.antt =====
-- koala_muxer.c: a whole run of mux_thread.
use koala_streamer.Prelude.{
  ℕ, zero, suc, ◌+◌, ◌<◌, ◌≡◌, refl, true, false, ◌||◌, ◌⊎◌, inl, inr, List, [], ◌∷◌, ◌++◌, map,
  append_assoc, arith, length, Bool-cases,
}
use koala_streamer.Prelude.Int.{ℤ}
use koala_streamer.Muxer.{Muxer, have_video, have_audio}
use koala_streamer.Muxer.Write.{Ffmpeg, Stream, video, audio, Event, trailer, Reply, rebase}
use koala_streamer.Muxer.Events.{
  packets_of, releases_of, frames_of, trailers, packets_of-append, releases_of-append,
  trailers-append,
}
use koala_streamer.Muxer.Step.{sent_as}
use koala_streamer.Muxer.Thread.{World, Loop, Run, finished, before, mux_loop, mux_thread}
use koala_streamer.Muxer.Thread.Account.{AllUsable, Runs, source, work, Accounts}
use koala_streamer.Muxer.Thread.Rounds.{mux_round-Rounded}

module _ (av : Ffmpeg) (m₀ : Muxer) where
  Accounts-refl : (l : Loop) → Accounts av m₀ l l []
  unfolding packets_of releases_of
  Accounts-refl l = record { anchored = λ t a. a; written = λ s t a. refl; freed = λ s t a. refl }

  Accounts-trans :
      {l l' l'' : Loop} {es fs : List Event}
      → Accounts av m₀ l l' es
      → Accounts av m₀ l' l'' fs
      → Accounts av m₀ l l'' (es ++ fs)
  Accounts-trans {l} {l'} {l''} {es} {fs} x y = record {
    anchored = λ t a. x.anchored t (y.anchored t a);
    written = λ s t a.
        rw (packets_of-append s es fs, append_assoc, y.written s t a)
          (x.written s t (y.anchored t a));
    freed = λ s t a.
        rw (releases_of-append s es fs, append_assoc, y.freed s t a) (x.freed s t (y.anchored t a));
  }

  module _ (w : World) where
    -- The loop ended by itself, having written one trailer, the last thing that it did.
    pub record Ended (l : Loop) (o : Run) : Type 0 where
      pub body : List Event
      pub last : Loop
      pub returned : o ≡ finished (body ++ trailer ∷ []) last
      pub untrailed : trailers body ≡ 0
      pub accounts : Accounts av m₀ l last body
      pub reason :
          (last.encode_video || last.encode_audio ≡ false)
          ⊎ ((k : ℕ) × (last.round ≡ suc k) × (last.muxer.ended || w.ends k ≡ true))

    mux_loop-Ended :
        (fuel : ℕ) (l : Loop) → Runs m₀ l → work l < fuel → Ended l (mux_loop av w fuel l)
    unfolding mux_loop before trailers
    mux_loop-Ended zero l r h = absurd (omega arith)
    mux_loop-Ended (suc fuel) l r h = elim (Bool-cases (l.encode_video || l.encode_audio)) [
      | inr stop ↦ record {
        body = [];
        last = l;
        returned = ground arith;
        untrailed = refl;
        accounts = Accounts-refl l;
        reason = inl stop;
      }
      | inl go ↦
          let rd = mux_round-Rounded av m₀ w l r go in
          elim (Bool-cases (rd.next.muxer.ended || w.ends l.round)) [
            | inl halt ↦ record {
              body = rd.events;
              last = rd.next;
              returned = ground (arith, rd.made);
              untrailed = rd.plain;
              accounts = rd.accounts;
              reason = inr (l.round, rd.counted, halt);
            }
            | inr more ↦
                let ih = mux_loop-Ended fuel rd.next rd.runs (omega (arith, rd.less)) in
                record {
                  body = rd.events ++ ih.body;
                  last = ih.last;
                  returned =
                      ground (
                        arith,
                        rd.made,
                        ih.returned,
                        append_assoc rd.events ih.body (trailer ∷ []),
                      );
                  untrailed =
                      omega (arith, trailers-append rd.events ih.body, rd.plain, ih.untrailed);
                  accounts = Accounts-trans rd.accounts ih.accounts;
                  reason = ih.reason;
                }
          ]
    ]

    -- The loop at the start of a thread on `m₀`.
    abbrev start : List Reply → List Reply → Loop
    start videos audios = record {
      muxer = m₀;
      videos = videos;
      audios = audios;
      encode_video = have_video m₀;
      encode_audio = have_audio m₀;
      round = 0;
    }

    -- One more round than the answers of both sources and the two ends of data is enough fuel.
    mux_thread-Ended :
        (fuel : ℕ) (videos audios : List Reply)
        → m₀.opened ≡ true
        → m₀.req_i_frame ≡ false
        → AllUsable videos
        → AllUsable audios
        → length videos + length audios + 2 < fuel
        → Ended (start videos audios) (mux_thread av w fuel m₀ videos audios)
    unfolding mux_thread have_video have_audio
    mux_thread-Ended fuel videos audios opened running vs as' h =
        mux_loop-Ended fuel (start videos audios) runs (ground arith)
      where
        runs : Runs m₀ (start videos audios)
        runs = record {
          ready = record {
            opened = opened;
            running = running;
            video_base = refl;
            audio_base = refl;
            video_index = refl;
            audio_index = refl;
            vcb = refl;
            acb = refl;
          };
          video_on = λ h. h;
          audio_on = λ h. h;
          videos = vs;
          audios = as';
        }

    abbrev pub given : Stream → List Reply → List Reply → List Reply
    given video videos audios = videos
    given audio videos audios = audios

    -- On a muxer whose output is open and that awaits no key frame, and from sources whose
    -- successful answers leave a frame with a decoding time of at least 0, the thread ends, with the
    -- flags encode_video and encode_audio both cleared or in the round after which `end` is set. It
    -- has then written one trailer, as its last event. For one time origin, and for each stream, it
    -- has handed the frames that it took from the source to FFmpeg in their order, with that origin
    -- subtracted and rescaled, and released each of these once; the frames after them are still in
    -- the source.
    pub mux_thread_lem :
        (fuel : ℕ) (videos audios : List Reply)
        → m₀.opened ≡ true
        → m₀.req_i_frame ≡ false
        → AllUsable videos
        → AllUsable audios
        → length videos + length audios + 2 < fuel
        → (body : List Event) × (last : Loop) × (origin : ℤ) × (mux_thread av w fuel m₀ videos
              audios
            ≡ finished (body ++ trailer ∷ []) last)
          × (trailers body ≡ 0)
          × ((s : Stream)
              → packets_of s body ++ map (sent_as av m₀ s origin) (frames_of (source s last))
                ≡ map (sent_as av m₀ s origin) (frames_of (given s videos audios)))
          × ((s : Stream)
              → releases_of s body ++ map (rebase origin) (frames_of (source s last))
                ≡ map (rebase origin) (frames_of (given s videos audios)))
          × ((last.encode_video || last.encode_audio ≡ false)
              ⊎ ((k : ℕ) × (last.round ≡ suc k) × (last.muxer.ended || w.ends k ≡ true)))
    mux_thread_lem fuel videos audios opened running vs as' h =
        let e = mux_thread-Ended fuel videos audios opened running vs as' h in
        let origin = e.last.muxer.first_pts in
        (
          e.body,
          e.last,
          origin,
          e.returned,
          e.untrailed,
          (λ s. written e s),
          (λ s. freed e s),
          e.reason,
        )
      where
        written :
            (e : Ended (start videos audios) (mux_thread av w fuel m₀ videos audios)) (s : Stream)
            → let o = e.last.muxer.first_pts in
              packets_of s e.body ++ map (sent_as av m₀ s o) (frames_of (source s e.last))
              ≡ map (sent_as av m₀ s o) (frames_of (given s videos audios))
        written e video = e.accounts.written video _ (λ _. refl)
        written e audio = e.accounts.written audio _ (λ _. refl)

        freed :
            (e : Ended (start videos audios) (mux_thread av w fuel m₀ videos audios)) (s : Stream)
            → let o = e.last.muxer.first_pts in
              releases_of s e.body ++ map (rebase o) (frames_of (source s e.last))
              ≡ map (rebase o) (frames_of (given s videos audios))
        freed e video = e.accounts.freed video _ (λ _. refl)
        freed e audio = e.accounts.freed audio _ (λ _. refl)
