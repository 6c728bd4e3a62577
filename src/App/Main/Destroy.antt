-- ===== src/App/Main/Destroy.antt =====
-- MacRTMPStreamer.cpp, destroyMediaThread: the order of the deletions of an encoder and of the queue of its
-- frames, whose destructor releases what is left through the encoder.
use koala_streamer.Prelude.{
  ℕ, ◌≡◌, ◌≢◌, ◌<◌, refl, ap, ap₂, ◌∙◌, Bool, true, false, ◌&&◌, Option, none, some, List, [], ◌∷◌,
  ◌++◌, map, length, arith,
}
use koala_streamer.Prelude.Int.{pos}
use koala_streamer.Frame.{Address, Frame}
use koala_streamer.FrameQueue.{FrameQueue}
use koala_streamer.FrameQueue.Refine.{Represents}
use koala_streamer.FrameQueue.Clean.{sweep, clean_if_lem}
use koala_streamer.App.{StreamerCont, yuv_capacity, ve_capacity, pcm_capacity, ae_capacity}
use koala_streamer.App.Main.{
  Object, handle, pool, ve_thread, ae_thread, yuv_queue, ve_queue, pcm_queue, ae_queue, Thread,
  encoding_video, encoding_audio, Deed, uses, deletes, Places, release_pkt_buffer, touched,
  touched_by, delete_queue, stop_encoder, destroy_stream, destroy_media_thread,
}
use koala_streamer.App.Main.Uses.{at_object}
use koala_streamer.App.Main.Race.{alive_after}
use koala_streamer.App.Main.Sound.{is_sound, is_sound-append, alive_after-append, alive_after-uses}

abbrev pub is_nil {ℓ} : {A : Type ℓ} → List A → Bool
is_nil [] = true
is_nil (x ∷ xs) = false

-- The frames of a list.
abbrev pub AllFrames : (Frame → Type 0) → List Frame → Type 0
AllFrames p [] = Unit
AllFrames p (f ∷ fs) = p f × AllFrames p fs

AllFrames-map :
    (p q : Frame → Type 0) (fs : List Frame)
    → ((f : Frame) → p f → q f)
    → AllFrames p fs
    → AllFrames q fs
AllFrames-map p q [] h k = tt
AllFrames-map p q (f ∷ fs) h k = (h f k.0, AllFrames-map p q fs h k.1)

module _ (at : Places) where
  -- The frames that ff_read_devices makes, and those of the encoder at an address.
  abbrev pub IsCaptured : Frame → Type 0
  IsCaptured f = f.release ≡ some at.release_pkt

  abbrev pub IsEncoded : Address → Frame → Type 0
  IsEncoded p f = (f.release ≡ some at.release_pkt_buffer) × (f.appending ≡ some p)

  abbrev Touches : List Object → Frame → Type 0
  Touches os f = touched at f ≡ os

  IsCaptured-Touches : (f : Frame) → IsCaptured f → Touches (handle ∷ pool ∷ []) f
  unfolding touched
  IsCaptured-Touches f h = ground (arith, h)

  IsEncoded-Touches :
      at.release_pkt_buffer ≢ at.release_pkt
      → at.ae ≢ at.ve
      → ((f : Frame) → IsEncoded at.ve f → Touches (ve_thread ∷ pool ∷ []) f)
        × ((f : Frame) → IsEncoded at.ae f → Touches (ae_thread ∷ pool ∷ []) f)
  unfolding touched release_pkt_buffer
  IsEncoded-Touches h k = (λ f e. ground (arith, h, e), λ f e. ground (arith, h, k, e))

  -- The deeds of a destructor that finds the frames `xs`.
  abbrev deletion : Object → List Frame → List Deed
  deletion o xs = map uses (touched_by at xs) ++ (deletes o ∷ [])

  sweep-none : (xs : List Frame) → (sweep none tt xs).released ≡ xs
  unfolding sweep
  sweep-none [] = refl
  sweep-none (x ∷ xs) = ap (◌∷◌ x) (sweep-none xs)

  delete_queue_lem :
      (fuel c : ℕ) (o : Object) (q : Option (FrameQueue Frame)) (r : FrameQueue Frame)
      (xs : List Frame)
      → q ≡ some r
      → Represents r.queue c xs
      → length xs < fuel
      → delete_queue fuel at o q ≡ some (deletion o xs)
  unfolding delete_queue
  delete_queue_lem fuel c o q r xs here v h =
      let did = clean_if_lem none (λ s x. refl) c fuel tt r xs v h in
      let all = did.released ∙ sweep-none xs in rw (here, did.ended, all) refl

  releases-captured :
      (f : Object → Bool) (xs : List Frame) (ds : List Deed)
      → f handle ≡ true
      → f pool ≡ true
      → AllFrames (Touches (handle ∷ pool ∷ [])) xs
      → is_sound f (map uses (touched_by at xs) ++ ds) ≡ is_sound f ds
  unfolding is_sound touched_by
  releases-captured f [] ds h k all = refl
  releases-captured f (x ∷ xs) ds h k all = rw (all.0, h, k) (releases-captured f xs ds h k all.1)

  releases-encoded :
      (f : Object → Bool) (thread o : Object) (ys : List Frame)
      → f thread ≡ false
      → AllFrames (Touches (thread ∷ pool ∷ [])) ys
      → is_sound f (deletion o ys) ≡ is_nil ys
  unfolding is_sound touched_by
  releases-encoded f thread o [] h all = refl
  releases-encoded f thread o (y ∷ ys) h all = rw (all.0, h) refl

  abbrev stream_deeds : Thread → Object × Object × Object → List Frame → List Frame → List Deed
  stream_deeds t (thread, raw, encoded) xs ys =
      stop_encoder t thread ++ deletion raw xs ++ deletion encoded ys

  abbrev after_stream : (Object → Bool) → Object × Object × Object → Object → Bool
  after_stream f (thread, raw, encoded) =
      at_object (at_object (at_object f thread false) raw false) encoded false

  stream_alive :
      (f : Object → Bool) (t : Thread) (thread raw encoded : Object) (xs ys : List Frame)
      → alive_after f (stream_deeds t (thread, raw, encoded) xs ys)
        ≡ after_stream f (thread, raw, encoded)
  unfolding alive_after
  stream_alive f t thread raw encoded xs ys =
      let stopped = at_object f thread false in
      alive_after-append f (stop_encoder t thread ++ deletion raw xs) (deletion encoded ys)
      ∙ ap (λ g. alive_after g (deletion encoded ys))
          (alive_after-append f (stop_encoder t thread) (deletion raw xs)
            ∙ alive_after-uses stopped (touched_by at xs) (deletes raw ∷ []))
      ∙ alive_after-uses (at_object stopped raw false) (touched_by at ys) (deletes encoded ∷ [])

  -- A stream's part is sound exactly if no encoded frame is left.
  stream_sound :
      (f : Object → Bool) (t : Thread) (thread raw encoded : Object) (xs ys : List Frame)
      → f thread ≡ true
      → at_object f thread false handle ≡ true
      → at_object f thread false pool ≡ true
      → at_object (at_object f thread false) raw false thread ≡ false
      → AllFrames (Touches (handle ∷ pool ∷ [])) xs
      → AllFrames (Touches (thread ∷ pool ∷ [])) ys
      → is_sound f (stream_deeds t (thread, raw, encoded) xs ys) ≡ is_nil ys
  unfolding is_sound alive_after
  stream_sound f t thread raw encoded xs ys there h k gone all₁ all₂ =
      let stopped = at_object f thread false in
      let stops = stop_encoder t thread in
      let first : is_sound f (stops ++ deletion raw xs) ≡ true =
        is_sound-append f stops (deletion raw xs)
        ∙ rw there (releases-captured stopped xs (deletes raw ∷ []) h k all₁) in
      let left : alive_after f (stops ++ deletion raw xs) ≡ at_object stopped raw false =
        alive_after-append f stops (deletion raw xs)
        ∙ alive_after-uses stopped (touched_by at xs) (deletes raw ∷ []) in
      let last = releases-encoded (at_object stopped raw false) thread encoded ys gone all₂ in
      is_sound-append f (stops ++ deletion raw xs) (deletion encoded ys) ∙ rw (first, left) last

  -- The frames that the four destructors find, and that each was made by whom main's threads leave
  -- there.
  pub record Found (c : StreamerCont) (yuv ve pcm ae : List Frame) : Type 0 where
    pub yuv_queue : FrameQueue Frame
    pub ve_queue : FrameQueue Frame
    pub pcm_queue : FrameQueue Frame
    pub ae_queue : FrameQueue Frame
    pub has_yuv : c.yuv_queue ≡ some yuv_queue
    pub has_ve : c.ve_queue ≡ some ve_queue
    pub has_pcm : c.pcm_queue ≡ some pcm_queue
    pub has_ae : c.ae_queue ≡ some ae_queue
    pub holds_yuv : Represents yuv_queue.queue yuv_capacity yuv
    pub holds_ve : Represents ve_queue.queue ve_capacity ve
    pub holds_pcm : Represents pcm_queue.queue pcm_capacity pcm
    pub holds_ae : Represents ae_queue.queue ae_capacity ae
    pub captured_yuv : AllFrames IsCaptured yuv
    pub encoded_ve : AllFrames (IsEncoded at.ve) ve
    pub captured_pcm : AllFrames IsCaptured pcm
    pub encoded_ae : AllFrames (IsEncoded at.ae) ae

  Represents-fits :
      (fuel c : ℕ) (q : FrameQueue Frame) (xs : List Frame)
      → Represents q.queue c xs
      → c < fuel
      → length xs < fuel
  Represents-fits fuel c q xs r h = omega (arith, r.valid.size_in, r.holds.sized, r.same, h)

  destroy_stream_lem :
      (fuel c₁ c₂ : ℕ) (t : Thread) (thread raw encoded : Object)
      (q₁ q₂ : Option (FrameQueue Frame)) (r₁ r₂ : FrameQueue Frame) (xs ys : List Frame)
      → q₁ ≡ some r₁
      → q₂ ≡ some r₂
      → Represents r₁.queue c₁ xs
      → Represents r₂.queue c₂ ys
      → (c₁ < fuel) × (c₂ < fuel)
      → destroy_stream fuel at t (thread, raw, encoded) q₁ q₂
        ≡ some (stream_deeds t (thread, raw, encoded) xs ys)
  unfolding destroy_stream
  destroy_stream_lem fuel c₁ c₂ t thread raw encoded q₁ q₂ r₁ r₂ xs ys e₁ e₂ v₁ v₂ h =
      rw
        (
          delete_queue_lem fuel c₁ raw q₁ r₁ xs e₁ v₁ (Represents-fits fuel c₁ r₁ xs v₁ h.0),
          delete_queue_lem fuel c₂ encoded q₂ r₂ ys e₂ v₂ (Represents-fits fuel c₂ r₂ ys v₂ h.1),
        )
        refl

abbrev pub everything : Object → Bool
everything o = true

-- Where both streams were found, the queues hold the frames that main's threads put there and the
-- addresses of the functions and of the encoders differ: destroyMediaThread, with a fuel above 400,
-- ends, and every object that it uses itself is there exactly if no encoded frame is left in either
-- queue. Otherwise a queue's destructor uses an encoder that was deleted before.
pub destroy_media_thread_lem :
    (fuel : ℕ) (at : Places) (c : StreamerCont) (i j : ℕ) (yuv ve pcm ae : List Frame)
    → c.video_index ≡ pos i
    → c.audio_index ≡ pos j
    → ae_capacity < fuel
    → at.release_pkt_buffer ≢ at.release_pkt
    → at.ae ≢ at.ve
    → Found at c yuv ve pcm ae
    → (ds : List Deed) × (destroy_media_thread fuel at c ≡ some ds)
      × (is_sound everything ds ≡ (is_nil ve && is_nil ae))
unfolding destroy_media_thread
destroy_media_thread_lem fuel at c i j yuv ve pcm ae video audio enough functions encoders found =
    let (by_ve, by_ae) = IsEncoded-Touches at functions encoders in
    let by_capture = IsCaptured-Touches at in
    let ds₁ = stream_deeds at encoding_video (ve_thread, yuv_queue, ve_queue) yuv ve in
    let ds₂ = stream_deeds at encoding_audio (ae_thread, pcm_queue, ae_queue) pcm ae in
    let made₁ =
      destroy_stream_lem at fuel yuv_capacity ve_capacity encoding_video ve_thread yuv_queue
        ve_queue c.yuv_queue c.ve_queue found.yuv_queue found.ve_queue yuv ve found.has_yuv
        found.has_ve found.holds_yuv found.holds_ve (omega arith, omega arith) in
    let made₂ =
      destroy_stream_lem at fuel pcm_capacity ae_capacity encoding_audio ae_thread pcm_queue
        ae_queue c.pcm_queue c.ae_queue found.pcm_queue found.ae_queue pcm ae found.has_pcm
        found.has_ae found.holds_pcm found.holds_ae (omega arith, enough) in
    let after : Object → Bool = after_stream at everything (ve_thread, yuv_queue, ve_queue) in
    let sound₁ =
      stream_sound at everything encoding_video ve_thread yuv_queue ve_queue yuv ve refl refl refl
        refl (AllFrames-map _ _ yuv by_capture found.captured_yuv)
        (AllFrames-map _ _ ve by_ve found.encoded_ve) in
    let sound₂ =
      stream_sound at after encoding_audio ae_thread pcm_queue ae_queue pcm ae refl refl refl refl
        (AllFrames-map _ _ pcm by_capture found.captured_pcm)
        (AllFrames-map _ _ ae by_ae found.encoded_ae) in
    let alive = stream_alive at everything encoding_video ve_thread yuv_queue ve_queue yuv ve in
    (
      ds₁ ++ ds₂,
      rw (video, audio, made₁, made₂) refl,
      is_sound-append everything ds₁ ds₂
          ∙ ap₂ ◌&&◌ sound₁ (ap (λ g. is_sound g ds₂) alive ∙ sound₂),
    )
