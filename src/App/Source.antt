-- ===== src/App/Source.antt =====
-- MacRTMPStreamer.cpp, the two callbacks that hand encoded frames to the streamer: they wait for a
-- frame of their queue until the program stops.
use koala_streamer.Prelude.{
  ℕ, ◌≡◌, ◌≢◌, ◌⊎◌, refl, ap, sym, ◌∙◌, inl, inr, Bool, true, false, Option, none, some, List, [],
  ◌∷◌, if◌then◌else◌, Option-cases,
}
use koala_streamer.Prelude.Int.{ℤ, pos}
use koala_streamer.Codec.{KoalaCodecId, aac, h264}
use koala_streamer.Frame.{Address, Frame}
use koala_streamer.FrameQueue.{FrameQueue, Moment, dequeue}
use koala_streamer.Muxer.Open.{Meta}
use koala_streamer.Streamer.Callbacks.{CallbackCmd, get_source_meta, get_sink_meta, get_frame}
use koala_streamer.FrameQueue.Refine.{Represents, dequeued, dequeue_refines}

-- The result 0 with its frame, the result -1 with the frame released before it, or no result as
-- long as the attempts last.
pub data Fetched {ℓ} (A : Type ℓ) : Type ℓ where
  fetched : A → Fetched A
  gave_up : Option A → Fetched A
  waiting : Fetched A

module _ {ℓ} {A : Type ℓ} where
  -- The loop. An attempt is what happens in its dequeue, and `stop` after it.
  unfoldable retry : FrameQueue A → List (Moment A × Bool) → Fetched A × FrameQueue A
  retry q [] = (waiting, q)
  retry q ((m, stop) ∷ attempts) =
      let (x, q') = dequeue q m in
      let again = retry q' attempts in
      if stop then (gave_up x, q') else elim x [ none ↦ again | some f ↦ (fetched f, q') ]

  -- The command callback_cmd_get_frame; the first dequeue does not look at `stop`.
  unfoldable pub fetch : FrameQueue A → Moment A → List (Moment A × Bool) → Fetched A × FrameQueue A
  unfolding retry
  fetch q m attempts =
      let (x, q') = dequeue q m in
      let again = retry q' attempts in elim x [ none ↦ again | some f ↦ (fetched f, q') ]

  -- The same on the list of stored frames.
  unfoldable pub retried : ℕ → List A → List (Moment A × Bool) → Fetched A × List A
  retried c xs [] = (waiting, xs)
  retried c xs ((m, stop) ∷ attempts) =
      let (x, ys) = dequeued c xs m in
      let again = retried c ys attempts in
      if stop then (gave_up x, ys) else elim x [ none ↦ again | some f ↦ (fetched f, ys) ]

  unfoldable pub fetched_of : ℕ → List A → Moment A → List (Moment A × Bool) → Fetched A × List A
  unfolding retried
  fetched_of c xs m attempts =
      let (x, ys) = dequeued c xs m in
      let again = retried c ys attempts in elim x [ none ↦ again | some f ↦ (fetched f, ys) ]

  -- Some attempt finds `stop` set.
  abbrev pub Stops : List (Moment A × Bool) → Type 0
  Stops [] = ⊥
  Stops ((m, stop) ∷ attempts) = (stop ≡ true) ⊎ Stops attempts

  abbrev Agrees : ℕ → Fetched A × FrameQueue A → Fetched A × List A → Type ℓ
  Agrees c r l = (r.0 ≡ l.0) × Represents r.1.queue c l.1

  -- Both go on, or both are done with the same frame.
  chosen-Agrees :
      (c : ℕ) (x y : Option A) (q : FrameQueue A) (ys : List A) (r : Fetched A × FrameQueue A)
      (l : Fetched A × List A)
      → x ≡ y
      → Represents q.queue c ys
      → Agrees c r l
      → Agrees c
          (elim x as (λ _. Fetched A × FrameQueue A) [ none ↦ r | some f ↦ (fetched f, q) ])
          (elim y as (λ _. Fetched A × List A) [ none ↦ l | some f ↦ (fetched f, ys) ])
  chosen-Agrees c none none q ys r l e h k = k
  chosen-Agrees c (some f) (some g) q ys r l e h k = (cc, h)
  chosen-Agrees c none (some g) q ys r l e h k = cc
  chosen-Agrees c (some f) none q ys r l e h k = cc

  retry_refines :
      (c : ℕ) (q : FrameQueue A) (xs : List A) (attempts : List (Moment A × Bool))
      → Represents q.queue c xs
      → Agrees c (retry q attempts) (retried c xs attempts)
  unfolding retry retried
  retry_refines c q xs [] r = (refl, r)
  retry_refines c q xs ((m, true) ∷ attempts) r =
      let (same, left) = dequeue_refines c q xs m r in (ap gave_up same, left)
  retry_refines c q xs ((m, false) ∷ attempts) r =
      let (same, left) = dequeue_refines c q xs m r in
      chosen-Agrees c _ _ _ _ _ _ same left
        (retry_refines c (dequeue q m).1 (dequeued c xs m).1 attempts left)

  retried-ends :
      (c : ℕ) (xs : List A) (attempts : List (Moment A × Bool))
      → Stops attempts
      → (retried c xs attempts).0 ≢ waiting
  unfolding retried
  retried-ends c xs [] h = elim h [ ]
  retried-ends c xs ((m, true) ∷ attempts) h = λ e. cc
  retried-ends c xs ((m, false) ∷ attempts) (inl h) = cc
  retried-ends c xs ((m, false) ∷ attempts) (inr h) = elim (Option-cases (dequeued c xs m).0) [
    | inl e ↦ rw e (retried-ends c (dequeued c xs m).1 attempts h)
    | inr (f, e) ↦ rw e (λ e₁. cc)
  ]

  -- Once an attempt finds `stop` set, the callback for frames returns; whenever it returns, and
  -- whatever the other threads do meanwhile, its answer, the frame that it releases before it gives
  -- up and the queue that it leaves are those of the list of stored frames.
  pub fetch_lem :
      (c : ℕ) (q : FrameQueue A) (xs : List A) (m : Moment A) (attempts : List (Moment A × Bool))
      → Represents q.queue c xs
      → Stops attempts
      → ((fetch q m attempts).0 ≢ waiting)
        × ((fetch q m attempts).0 ≡ (fetched_of c xs m attempts).0)
        × Represents (fetch q m attempts).1.queue c (fetched_of c xs m attempts).1
  unfolding fetch fetched_of
  fetch_lem c q xs m attempts r stops =
      let (same, left) = dequeue_refines c q xs m r in
      let (answer, kept) =
        chosen-Agrees c (dequeue q m).0 (dequeued c xs m).0 (dequeue q m).1 (dequeued c xs m).1 _ _
          same left (retry_refines c (dequeue q m).1 (dequeued c xs m).1 attempts left) in
      let ends : (fetched_of c xs m attempts).0 ≢ waiting =
        elim (Option-cases (dequeued c xs m).0) [
          | inl e ↦ rw (e, fetched_of) (retried-ends c (dequeued c xs m).1 attempts stops)
          | inr (f, e) ↦ rw (e, fetched_of) (λ e₁. cc)
        ] in
      (λ e. ends (sym answer ∙ e), answer, kept)

-- What the callbacks read of a stream's parameters and of its encoder thread.
pub record Parameters : Type 0 where
  pub width : ℤ
  pub height : ℤ
  pub channels : ℤ
  pub sample_rate : ℤ
  pub extradata : Option Address
  pub extradata_size : ℤ

-- The description that memset leaves, but for its codec.
abbrev no_meta : KoalaCodecId → Meta
no_meta codec = record {
  codec = codec;
  channels = pos 0;
  samplerate = pos 0;
  frame_size = pos 0;
  sample_fmt = pos 0;
  width = pos 0;
  height = pos 0;
  avg_fps = pos 0;
  extradata = none;
  extradata_size = pos 0;
}

-- What a call leaves for the caller: a description, a frame, or nothing.
pub data Given : Type 0 where
  meta : Meta → Given
  frame : Fetched Frame → Given
  untouched : Given

unfoldable pub audio_callback :
    CallbackCmd
    → Parameters
    → FrameQueue Frame
    → Moment Frame
    → List (Moment Frame × Bool)
    → Given × FrameQueue Frame
unfolding fetch
audio_callback get_source_meta p q m attempts = (
  meta (record (no_meta aac) {
    channels = p.channels;
    samplerate = p.sample_rate;
    extradata = p.extradata;
    extradata_size = p.extradata_size;
  }),
  q,
)
audio_callback get_frame p q m attempts =
    let (answer, q') = fetch q m attempts in (frame answer, q')
audio_callback get_sink_meta p q m attempts = (untouched, q)

unfoldable pub video_callback :
    CallbackCmd
    → Parameters
    → FrameQueue Frame
    → Moment Frame
    → List (Moment Frame × Bool)
    → Given × FrameQueue Frame
unfolding fetch
video_callback get_source_meta p q m attempts = (
  meta (record (no_meta h264) {
    width = p.width;
    height = p.height;
    avg_fps = pos 30;
    extradata = p.extradata;
    extradata_size = p.extradata_size;
  }),
  q,
)
video_callback get_frame p q m attempts =
    let (answer, q') = fetch q m attempts in (frame answer, q')
video_callback get_sink_meta p q m attempts = (untouched, q)
