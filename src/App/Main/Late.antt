-- ===== src/App/Main/Late.antt =====
-- MacRTMPStreamer.cpp, main: about the uses that destroyMediaThread leaves open.
use koala_streamer.Prelude.{
  ℕ, ◌≡◌, refl, ap, ◌∙◌, Bool, true, false, some, List, [], ◌∷◌, ◌++◌, arith, ◌&&◌,
}
use koala_streamer.Prelude.Int.{pos}
use koala_streamer.Streamer.{StreamerStatus}
use koala_streamer.App.{StreamerCont}
use koala_streamer.App.Main.{
  Object, handle, device, pool, streamer, ve_thread, ae_thread, yuv_queue, ve_queue, pcm_queue,
  ae_queue, Thread, capturing, preparing, muxing, encoding_video, encoding_audio, Deed, makes, uses,
  deletes, starts, tells, joins, waits_stop, Places, destroy_media_thread,
}
use koala_streamer.App.Main.Uses.{at_object, at_thread}
use koala_streamer.App.Main.Threads.{World, Reach}
use koala_streamer.App.Main.Erase.{erase, destroyed, destroy_media_thread-erase}
use koala_streamer.App.Main.Rounds.{exposed}
use koala_streamer.App.Main.Race.{is_encoder, is_clear, alive_after, main_goes}

is_clear-erase :
    (asked : Thread → Bool) (ds : List Deed) → is_clear asked ds ≡ is_clear asked (erase ds)
unfolding erase is_clear
is_clear-erase asked [] = refl
is_clear-erase asked (makes o ∷ ds) = is_clear-erase asked ds
is_clear-erase asked (uses o ∷ ds) = is_clear-erase asked ds
is_clear-erase asked (deletes o ∷ ds) = is_clear-erase asked ds
is_clear-erase asked (starts t ∷ ds) = refl
is_clear-erase asked (waits_stop ∷ ds) = refl
is_clear-erase asked (tells t ∷ ds) = is_clear-erase (at_thread asked t true) ds
is_clear-erase asked (joins t ∷ ds) =
    ap (λ b. is_encoder t && asked t && b) (is_clear-erase asked ds)

alive_after-erase :
    (f : Object → Bool) (ds : List Deed) → alive_after f ds ≡ alive_after f (erase ds)
unfolding erase alive_after
alive_after-erase f [] = refl
alive_after-erase f (makes o ∷ ds) = alive_after-erase (at_object f o true) ds
alive_after-erase f (uses o ∷ ds) = alive_after-erase f ds
alive_after-erase f (deletes o ∷ ds) = alive_after-erase (at_object f o false) ds
alive_after-erase f (starts t ∷ ds) = alive_after-erase f ds
alive_after-erase f (waits_stop ∷ ds) = alive_after-erase f ds
alive_after-erase f (tells t ∷ ds) = alive_after-erase f ds
alive_after-erase f (joins t ∷ ds) = alive_after-erase f ds

destroyed-clear :
    (i j : ℕ) (asked : Thread → Bool) → is_clear asked (destroyed (pos i) (pos j)) ≡ true
unfolding is_clear
destroyed-clear i j asked = refl

exposed-encoder : (t : Thread) (o : Object) → exposed true t o ≡ true → is_encoder t ≡ false
exposed-encoder capturing o h = refl
exposed-encoder preparing o h = refl
exposed-encoder muxing o h = refl
exposed-encoder encoding_video o h = cc
exposed-encoder encoding_audio o h = cc

exposed-gone :
    (i j : ℕ) (f : Object → Bool) (t : Thread) (o : Object)
    → exposed true t o ≡ true
    → alive_after f (destroyed (pos i) (pos j)) o ≡ false
unfolding alive_after
exposed-gone i j f t ve_thread h = refl
exposed-gone i j f t ae_thread h = refl
exposed-gone i j f t yuv_queue h = refl
exposed-gone i j f t ve_queue h = refl
exposed-gone i j f t pcm_queue h = refl
exposed-gone i j f t ae_queue h = refl
exposed-gone i j f t handle h = absurd (ground (arith, h))
exposed-gone i j f t device h = absurd (ground (arith, h))
exposed-gone i j f t pool h = absurd (ground (arith, h))
exposed-gone i j f t streamer h = absurd (ground (arith, h))

-- Each such use does come too late in some order of steps: where both streams were found and main
-- has come to destroyMediaThread, a thread that is about to use one of the objects that `exposed`
-- lists for it can be left where it is until main has deleted the object.
pub exposed_lem :
    (fuel : ℕ) (at : Places) (c : StreamerCont) (s : StreamerStatus) (i j : ℕ) (ds rest : List Deed)
    (w : World) (t : Thread) (o : Object) (os : List Object)
    → c.video_index ≡ pos i
    → c.audio_index ≡ pos j
    → destroy_media_thread fuel at c ≡ some ds
    → w.todo ≡ ds ++ rest
    → w.doing t ≡ some (o ∷ os)
    → exposed true t o ≡ true
    → (w' : World) × Reach c s w w' × (w'.doing t ≡ some (o ∷ os)) × (w'.alive o ≡ false)
exposed_lem fuel at c s i j ds rest w t o os video audio made todo doing h =
    let same : erase ds ≡ destroyed (pos i) (pos j) =
      destroy_media_thread-erase fuel at c ds made ∙ rw (video, audio) refl in
    let clear = is_clear-erase w.told ds ∙ ap (is_clear w.told) same ∙ destroyed-clear i j w.told in
    let gone = main_goes c s ds rest w todo clear in
    let dead =
      ap (λ f. f o) (gone.alive ∙ alive_after-erase w.alive ds ∙ ap (alive_after w.alive) same)
      ∙ exposed-gone i j w.alive t o h in
    (gone.last, gone.reach, gone.others t (exposed-encoder t o h) ∙ doing, dead)
