-- ===== src/App/Main/Run.antt =====
-- MacRTMPStreamer.cpp, main: a run of the capturing thread up to the storing of a picture, beside main
-- on its way through destroyMediaThread.
use koala_streamer.Prelude.{
  ℕ, ◌≡◌, refl, sym, ap₂, ◌∙◌, subst, false, some, List, [], ◌∷◌, ◌++◌, arith,
}
use koala_streamer.Prelude.Maybe.{>>=-eq-some, some_injective}
use koala_streamer.Prelude.Int.{pos}
use koala_streamer.Streamer.{StreamerStatus}
use koala_streamer.App.{StreamerCont}
use koala_streamer.App.Main.{
  Object, handle, device, pool, streamer, ve_thread, ae_thread, yuv_queue, ve_queue, pcm_queue,
  ae_queue, capturing, encoding_video, encoding_audio, Deed, waits_stop, Places, init_deeds,
  start_up, destroy_media_thread, close_down, stoppable, main,
}
use koala_streamer.App.Main.Uses.{Round, captures, capture_round, prepares, prepare_round}
use koala_streamer.App.Main.Threads.{
  World, Reach, Reach-trans, made, started, prepared, heard, stops, begins, touches, here, next,
  before,
}
use koala_streamer.App.Main.Late.{exposed_lem}

-- The rest of a round once the packet's frame was taken from the pool.
abbrev pub storing : List Object
storing = yuv_queue ∷ ve_queue ∷ ae_queue ∷ handle ∷ []

pub captures-storing :
    (c : StreamerCont) (i j : ℕ)
    → c.video_index ≡ pos i
    → c.audio_index ≡ pos j
    → Round c capturing (handle ∷ device ∷ pool ∷ storing)
unfolding capture_round
captures-storing c i j video audio =
    captures (pos i) false false refl (rw (video, audio) (ground arith))

-- The world in which main has come to destroyMediaThread.
pub record Stopped (c : StreamerCont) (s : StreamerStatus) (script rest : List Deed) : Type 0 where
  pub world : World
  pub reach : Reach c s (before script) world
  pub todo : world.todo ≡ rest
  pub doing : world.doing capturing ≡ some storing

unfoldable pub run_to_stop :
    (c : StreamerCont) (s : StreamerStatus) (i j : ℕ) (rest : List Deed)
    → Round c capturing (handle ∷ device ∷ pool ∷ storing)
    → Stopped c s (start_up (pos i) (pos j) ++ (waits_stop ∷ []) ++ rest) rest
unfolding start_up init_deeds
run_to_stop c s i j rest round =
    let script = start_up (pos i) (pos j) ++ (waits_stop ∷ []) ++ rest in
    let begun : Reach c s (before script) (before script) = here in
    let shared =
      next (next (next begun (made handle _ refl refl)) (made pool _ refl refl))
        (made device _ refl refl) in
    let video =
      next (next (next shared (made yuv_queue _ refl refl)) (made ve_thread _ refl refl))
        (made ve_queue _ refl refl) in
    let audio =
      next (next (next video (made pcm_queue _ refl refl)) (made ae_thread _ refl refl))
        (made ae_queue _ refl refl) in
    let running =
      next
        (next (next audio (started capturing _ refl refl refl))
          (started encoding_video _ refl refl refl))
        (started encoding_audio _ refl refl refl) in
    let streams =
      next (next running (made streamer _ refl refl))
        (prepared (prepare_round false false) _ refl (prepares false false refl refl) refl) in
    let round_begun =
      next streams (begins capturing (handle ∷ device ∷ pool ∷ storing) refl refl round refl) in
    let about_to_store =
      next
        (next (next round_begun (touches capturing handle (device ∷ pool ∷ storing) refl refl))
          (touches capturing device (pool ∷ storing) refl refl))
        (touches capturing pool storing refl refl) in
    let stopped = next (next about_to_store (stops refl)) (heard rest refl refl refl) in
    record { world = _; reach = stopped; todo = refl; doing = refl }

-- Where both streams were found, the program has a run in which main has deleted the queue of
-- captured pictures while the capturing thread is about to store one in it.
pub capturing_too_late :
    (fuel : ℕ) (at : Places) (c : StreamerCont) (s : StreamerStatus) (i j : ℕ) (script : List Deed)
    → c.video_index ≡ pos i
    → c.audio_index ≡ pos j
    → main fuel at c s ≡ some script
    → (w : World) × Reach c s (before script) w
      × (w.doing capturing ≡ some storing)
      × (w.alive yuv_queue ≡ false)
unfolding main start_up init_deeds
capturing_too_late fuel at c s i j script video audio builds =
    let b = >>=-eq-some (destroy_media_thread fuel at c) _ builds in
    let rest = b.0 ++ close_down (stoppable s) in
    let run = run_to_stop c s i j rest (captures-storing c i j video audio) in
    let same : start_up (pos i) (pos j) ++ (waits_stop ∷ []) ++ rest ≡ script =
      ap₂ (λ x y. start_up x y ++ (waits_stop ∷ []) ++ b.0 ++ close_down (stoppable s)) (sym video)
        (sym audio)
      ∙ some_injective b.2 in
    let late =
      exposed_lem fuel at c s i j b.0 (close_down (stoppable s)) run.world capturing yuv_queue
        (ve_queue ∷ ae_queue ∷ handle ∷ []) video audio b.1 run.todo run.doing refl in
    (
      late.0,
      subst (λ z. Reach c s (before z) late.0) same (Reach-trans run.reach late.1),
      late.2,
      late.3,
    )
