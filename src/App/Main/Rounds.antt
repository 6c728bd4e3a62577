-- ===== src/App/Main/Rounds.antt =====
-- MacRTMPStreamer.cpp, main: the objects that each thread uses in its rounds.
use koala_streamer.Prelude.{
  ℕ, zero, suc, ◌≡◌, refl, Bool, true, false, not, ◌||◌, List, [], ◌∷◌, ◌++◌, arith, if◌then◌else◌,
}
use koala_streamer.Prelude.Int.{ℤ, is_neg}
use koala_streamer.App.{StreamerCont}
use koala_streamer.App.Capture.{same_index}
use koala_streamer.App.Main.{
  Object, handle, pool, streamer, ve_thread, ae_thread, yuv_queue, ve_queue, pcm_queue, ae_queue,
  Thread, capturing, preparing, muxing, encoding_video, encoding_audio,
}
use koala_streamer.App.Main.Uses.{
  again, capture_round, encode_round, mux_round, prepare_round, Round, captures, prepares,
  muxes_video, muxes_audio, encodes_video, encodes_audio,
}
use koala_streamer.App.Main.Guarded.{guarded}

-- The uses that are set apart: the queues and the encoders, for the capturing thread and for the
-- threads of the streamer, and, if mediaStreamer_stop finds a status that it does not stop, everything
-- for the threads of the streamer.
abbrev pub exposed : Bool → Thread → Object → Bool
exposed st capturing ve_thread = true
exposed st capturing ae_thread = true
exposed st capturing yuv_queue = true
exposed st capturing ve_queue = true
exposed st capturing pcm_queue = true
exposed st capturing ae_queue = true
exposed st preparing ve_thread = true
exposed st preparing ae_thread = true
exposed st preparing _ = not st
exposed st muxing ve_thread = true
exposed st muxing ae_thread = true
exposed st muxing ve_queue = true
exposed st muxing ae_queue = true
exposed st muxing _ = not st
exposed st _ _ = false

-- What a thread uses at all.
abbrev pub usable : Bool → Thread → Object → Bool
usable st t o = guarded st t o || exposed st t o

abbrev pub All : (Object → Bool) → List Object → Type 0
All p [] = Unit
All p (o ∷ os) = (p o ≡ true) × All p os

All-append : (p : Object → Bool) (xs ys : List Object) → All p xs → All p ys → All p (xs ++ ys)
All-append p [] ys h k = k
All-append p (x ∷ xs) ys h k = (h.0, All-append p xs ys h.1 k)

All-again : (p : Object → Bool) (n : ℕ) (os : List Object) → All p os → All p (again n os)
unfolding again
All-again p zero os h = tt
All-again p (suc n) os h = All-append p os (again n os) h (All-again p n os h)

All-if :
    (p : Object → Bool) (b : Bool) (xs ys : List Object)
    → All p xs
    → All p ys
    → All p (if b then xs else ys)
All-if p true xs ys h k = h
All-if p false xs ys h k = k

module _ (st : Bool) where
  capture-All :
      (c : StreamerCont) (i : ℤ) (ve ae : Bool)
      → All (usable st capturing) (capture_round c i ve ae)
  unfolding capture_round
  capture-All c i ve ae =
      let p = usable st capturing in
      let sends =
        All-if p (same_index i c.video_index) (yuv_queue ∷ [])
          (if same_index i c.audio_index then pcm_queue ∷ [] else handle ∷ pool ∷ []) (refl, tt)
          (All-if p (same_index i c.audio_index) (pcm_queue ∷ []) (handle ∷ pool ∷ []) (refl, tt)
            (refl, (refl, tt))) in
      let video =
        All-if p (is_neg c.video_index) [] (ve_queue ∷ (if ve then ve_thread ∷ pool ∷ [] else []))
          tt (refl, All-if p ve (ve_thread ∷ pool ∷ []) [] (refl, (refl, tt)) tt) in
      let audio =
        All-if p (is_neg c.audio_index) [] (ae_queue ∷ (if ae then ae_thread ∷ pool ∷ [] else []))
          tt (refl, All-if p ae (ae_thread ∷ pool ∷ []) [] (refl, (refl, tt)) tt) in
      (
        refl,
        (
          refl,
          (
            refl,
            All-append p _ _ (All-append p _ _ (All-append p _ _ sends video) audio) (refl, tt),
          ),
        ),
      )

  prepare-All : (audio video : Bool) → All (usable st preparing) (prepare_round audio video)
  unfolding prepare_round
  prepare-All audio video = ground arith

  mux-All :
      (thread encoded : Object) (n : ℕ) (got error : Bool)
      → usable st muxing thread ≡ true
      → usable st muxing encoded ≡ true
      → All (usable st muxing) (mux_round (thread, encoded) n got error)
  unfolding mux_round
  mux-All thread encoded n got error h k =
      let p = usable st muxing in
      let own : (usable st muxing streamer ≡ true)
          × (usable st muxing handle ≡ true)
          × (usable st muxing pool ≡ true) =
        ground arith in
      let waits = All-again p n (handle ∷ encoded ∷ handle ∷ []) (own.1, (k, (own.1, tt))) in
      let tells = All-if p error (streamer ∷ handle ∷ []) [] (own.0, (own.1, tt)) tt in
      let puts = All-if p got (thread ∷ pool ∷ []) [] (h, (own.2, tt)) tt in
      (
        own.0,
        (
          own.1,
          (k, All-append p _ _ (All-append p _ _ (All-append p _ _ waits (own.0, tt)) tells) puts),
        ),
      )

  encode-All :
      (t : Thread) (thread raw encoded : Object) (got : Bool) (n : ℕ) (stored : Bool)
      → All (usable st t) (handle ∷ pool ∷ thread ∷ raw ∷ encoded ∷ [])
      → All (usable st t) (encode_round (thread, raw, encoded) got n stored)
  unfolding encode_round
  encode-All t thread raw encoded got n stored (h, (q, (me, (r, (e, _))))) =
      let p = usable st t in
      let makes = All-if p got (pool ∷ thread ∷ []) [] (q, (me, tt)) tt in
      let stores = All-again p n (encoded ∷ thread ∷ []) (e, (me, tt)) in
      let drops = All-if p stored [] (thread ∷ pool ∷ []) tt (me, (q, tt)) in
      (
        me,
        (
          r,
          (
            me,
            (
              h,
              (
                q,
                All-append p _ _ (All-append p _ _ (All-append p _ _ makes stores) drops) (me, tt),
              ),
            ),
          ),
        ),
      )

  -- A round uses what its thread uses.
  pub Round-All :
      (c : StreamerCont) (t : Thread) (os : List Object) → Round c t os → All (usable st t) os
  Round-All c t os (captures i ve ae h e) = rw (h, e) (capture-All c i ve ae)
  Round-All c t os (prepares audio video h e) = rw (h, e) (prepare-All audio video)
  Round-All c t os (muxes_video n got error h e) =
      rw (h, e) (mux-All ve_thread ve_queue n got error refl refl)
  Round-All c t os (muxes_audio n got error h e) =
      rw (h, e) (mux-All ae_thread ae_queue n got error refl refl)
  Round-All c t os (encodes_video got n stored h e) =
      rw (h, e)
        (encode-All encoding_video ve_thread yuv_queue ve_queue got n stored
          (refl, (refl, (refl, (refl, (refl, tt))))))
  Round-All c t os (encodes_audio got n stored h e) =
      rw (h, e)
        (encode-All encoding_audio ae_thread pcm_queue ae_queue got n stored
          (refl, (refl, (refl, (refl, (refl, tt))))))
