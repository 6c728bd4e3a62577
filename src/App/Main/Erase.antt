-- ===== src/App/Main/Erase.antt =====
-- MacRTMPStreamer.cpp, main: its deeds without its own uses, which do not matter to its threads.
use koala_streamer.Prelude.{
  ℕ, ◌≡◌, refl, sym, ap, ap₂, ◌∙◌, Bool, false, not, ◌&&◌, ◌||◌, Option, none, some, List, [], ◌∷◌,
  ◌++◌, map, if◌then◌else◌,
}
use koala_streamer.Prelude.Maybe.{>>=-eq-some, some_injective}
use koala_streamer.Prelude.Int.{ℤ, pos, negsuc, is_neg}
use koala_streamer.Frame.{Frame}
use koala_streamer.FrameQueue.{FrameQueue, clean_if}
use koala_streamer.Streamer.{StreamerStatus}
use koala_streamer.App.{StreamerCont}
use koala_streamer.App.Main.{
  Object, ve_thread, ae_thread, yuv_queue, ve_queue, pcm_queue, ae_queue, Thread, encoding_video,
  encoding_audio, Deed, makes, uses, deletes, starts, tells, joins, waits_stop, with_stream,
  init_deeds, start_up, Places, touched_by, delete_queue, stop_encoder, destroy_stream,
  destroy_media_thread, stoppable, stop_streamer, close_down, main,
}
use koala_streamer.App.Main.Order.{in_order, runs_after}

-- Main's deeds without its own uses.
unfoldable pub erase : List Deed → List Deed
erase [] = []
erase (uses o ∷ ds) = erase ds
erase (makes o ∷ ds) = makes o ∷ erase ds
erase (deletes o ∷ ds) = deletes o ∷ erase ds
erase (starts t ∷ ds) = starts t ∷ erase ds
erase (tells t ∷ ds) = tells t ∷ erase ds
erase (joins t ∷ ds) = joins t ∷ erase ds
erase (waits_stop ∷ ds) = waits_stop ∷ erase ds

pub erase-append : (xs ys : List Deed) → erase (xs ++ ys) ≡ erase xs ++ erase ys
unfolding erase
erase-append [] ys = refl
erase-append (uses o ∷ xs) ys = erase-append xs ys
erase-append (makes o ∷ xs) ys = ap (◌∷◌ (makes o)) (erase-append xs ys)
erase-append (deletes o ∷ xs) ys = ap (◌∷◌ (deletes o)) (erase-append xs ys)
erase-append (starts t ∷ xs) ys = ap (◌∷◌ (starts t)) (erase-append xs ys)
erase-append (tells t ∷ xs) ys = ap (◌∷◌ (tells t)) (erase-append xs ys)
erase-append (joins t ∷ xs) ys = ap (◌∷◌ (joins t)) (erase-append xs ys)
erase-append (waits_stop ∷ xs) ys = ap (◌∷◌ waits_stop) (erase-append xs ys)

pub erase-uses : (os : List Object) → erase (map uses os) ≡ []
unfolding erase
erase-uses [] = refl
erase-uses (o ∷ os) = erase-uses os

pub in_order-erase :
    (t : Thread) (o : Object) (r : Thread → Bool) (a : Bool) (ds : List Deed)
    → in_order t o r a ds ≡ in_order t o r a (erase ds)
unfolding erase in_order
in_order-erase t o r a [] = refl
in_order-erase t o r a (uses x ∷ ds) = in_order-erase t o r a ds
in_order-erase t o r a (makes x ∷ ds) = in_order-erase t o r _ ds
in_order-erase t o r a (deletes x ∷ ds) =
    rw (in_order-erase t o r false ds, in_order-erase t o r a ds) refl
in_order-erase t o r a (starts u ∷ ds) =
    ap (λ z. (not (runs_after r u t) || a) && z) (in_order-erase t o (runs_after r u) a ds)
in_order-erase t o r a (tells u ∷ ds) = in_order-erase t o r a ds
in_order-erase t o r a (joins u ∷ ds) = in_order-erase t o _ a ds
in_order-erase t o r a (waits_stop ∷ ds) = in_order-erase t o r a ds

-- The part of destroyMediaThread for one stream, without the uses.
abbrev pub core : Thread → Object × Object × Object → List Deed
core t (thread, raw, encoded) =
    tells t ∷ joins t ∷ deletes thread ∷ deletes raw ∷ deletes encoded ∷ []

delete_queue-erase :
    (fuel : ℕ) (at : Places) (o : Object) (q : Option (FrameQueue Frame)) (ds : List Deed)
    → delete_queue fuel at o q ≡ some ds
    → erase ds ≡ deletes o ∷ []
unfolding delete_queue erase
delete_queue-erase fuel at o none ds e = cc
delete_queue-erase fuel at o (some q) ds e =
    let b = >>=-eq-some (clean_if fuel none tt q) _ e in
    let made : map uses (touched_by at b.0.released) ++ (deletes o ∷ []) ≡ ds =
      some_injective b.2 in
    sym (ap erase made)
    ∙ erase-append (map uses (touched_by at b.0.released)) (deletes o ∷ [])
    ∙ ap (λ l. l ++ (deletes o ∷ [])) (erase-uses (touched_by at b.0.released))

destroy_stream-erase :
    (fuel : ℕ) (at : Places) (t : Thread) (thread raw encoded : Object)
    (q₁ q₂ : Option (FrameQueue Frame)) (ds : List Deed)
    → destroy_stream fuel at t (thread, raw, encoded) q₁ q₂ ≡ some ds
    → erase ds ≡ core t (thread, raw, encoded)
unfolding destroy_stream erase
destroy_stream-erase fuel at t thread raw encoded q₁ q₂ ds e =
    let b₁ = >>=-eq-some (delete_queue fuel at raw q₁) _ e in
    let b₂ = >>=-eq-some (delete_queue fuel at encoded q₂) _ b₁.2 in
    let first = delete_queue-erase fuel at raw q₁ b₁.0 b₁.1 in
    let second = delete_queue-erase fuel at encoded q₂ b₂.0 b₂.1 in
    let stops = stop_encoder t thread in
    sym (ap erase (some_injective b₂.2))
    ∙ erase-append (stops ++ b₁.0) b₂.0
    ∙ ap₂ ◌++◌ (erase-append stops b₁.0 ∙ ap (λ l. erase stops ++ l) first) second

abbrev pub destroyed : ℤ → ℤ → List Deed
destroyed video audio =
    with_stream video (core encoding_video (ve_thread, yuv_queue, ve_queue))
    ++ with_stream audio (core encoding_audio (ae_thread, pcm_queue, ae_queue))

stream-erase :
    (index : ℤ) (o : Option (List Deed)) (xs ds : List Deed)
    → ((es : List Deed) → o ≡ some es → erase es ≡ xs)
    → (if is_neg index then some [] else o) ≡ some ds
    → erase ds ≡ with_stream index xs
unfolding erase
stream-erase (pos n) o xs ds h e = h ds e
stream-erase (negsuc n) o xs ds h e = sym (ap erase (some_injective e))

pub destroy_media_thread-erase :
    (fuel : ℕ) (at : Places) (c : StreamerCont) (ds : List Deed)
    → destroy_media_thread fuel at c ≡ some ds
    → erase ds ≡ destroyed c.video_index c.audio_index
unfolding destroy_media_thread
destroy_media_thread-erase fuel at c ds e =
    let b₁ = >>=-eq-some _ _ e in
    let b₂ = >>=-eq-some _ _ b₁.2 in
    let first =
      stream-erase c.video_index _ _ b₁.0
        (destroy_stream-erase fuel at encoding_video ve_thread yuv_queue ve_queue c.yuv_queue
          c.ve_queue)
        b₁.1 in
    let second =
      stream-erase c.audio_index _ _ b₂.0
        (destroy_stream-erase fuel at encoding_audio ae_thread pcm_queue ae_queue c.pcm_queue
          c.ae_queue)
        b₂.1 in
    sym (ap erase (some_injective b₂.2)) ∙ erase-append b₁.0 b₂.0 ∙ ap₂ ◌++◌ first second

-- Main without its own uses.
unfoldable pub skeleton : ℤ → ℤ → Bool → List Deed
unfolding start_up init_deeds close_down stop_streamer erase
skeleton video audio stops =
    erase (start_up video audio)
    ++ (waits_stop ∷ [])
    ++ destroyed video audio
    ++ erase (close_down stops)

pub main-erase :
    (fuel : ℕ) (at : Places) (c : StreamerCont) (s : StreamerStatus) (ds : List Deed)
    → main fuel at c s ≡ some ds
    → erase ds ≡ skeleton c.video_index c.audio_index (stoppable s)
unfolding main skeleton
main-erase fuel at c s ds e =
    let b = >>=-eq-some (destroy_media_thread fuel at c) _ e in
    let start = start_up c.video_index c.audio_index in
    let waits : List Deed = waits_stop ∷ [] in
    let close = close_down (stoppable s) in
    let core = destroy_media_thread-erase fuel at c b.0 b.1 in
    sym (ap erase (some_injective b.2))
    ∙ erase-append (start ++ waits ++ b.0) close
    ∙ ap (λ l. l ++ erase close)
        (erase-append (start ++ waits) b.0 ∙ ap₂ ◌++◌ (erase-append start waits) core)
