-- ===== src/App/Main/Guarded.antt =====
-- MacRTMPStreamer.cpp, main: the objects that main should delete only once the threads that use them
-- are joined.
use koala_streamer.Prelude.{
  ℕ, ◌≡◌, refl, sym, ap, ◌∙◌, Bool, true, false, ◌&&◌, some, List, arith, if◌then◌else◌,
}
use koala_streamer.Prelude.Int.{ℤ, pos, negsuc}
use koala_streamer.Streamer.{StreamerStatus}
use koala_streamer.App.{StreamerCont}
use koala_streamer.App.Main.{
  Object, handle, device, pool, streamer, ve_thread, ae_thread, yuv_queue, ve_queue, pcm_queue,
  ae_queue, Thread, capturing, preparing, muxing, encoding_video, encoding_audio, Deed, Places,
  stoppable, main,
}
use koala_streamer.App.Main.Threads.{World, Reach, before}
use koala_streamer.App.Main.Order.{in_order, nobody}
use koala_streamer.App.Main.Order.Steps.{in_order_lem}
use koala_streamer.App.Main.Erase.{skeleton, in_order-erase, main-erase}

-- The uses that are not set apart as exposed.
abbrev pub guarded : Bool → Thread → Object → Bool
guarded stops capturing handle = true
guarded stops capturing device = true
guarded stops capturing pool = true
guarded stops preparing handle = stops
guarded stops preparing device = stops
guarded stops preparing pool = stops
guarded stops preparing streamer = stops
guarded stops muxing handle = stops
guarded stops muxing device = stops
guarded stops muxing pool = stops
guarded stops muxing streamer = stops
guarded stops encoding_video handle = true
guarded stops encoding_video device = true
guarded stops encoding_video pool = true
guarded stops encoding_video ve_thread = true
guarded stops encoding_video yuv_queue = true
guarded stops encoding_video ve_queue = true
guarded stops encoding_audio handle = true
guarded stops encoding_audio device = true
guarded stops encoding_audio pool = true
guarded stops encoding_audio ae_thread = true
guarded stops encoding_audio pcm_queue = true
guarded stops encoding_audio ae_queue = true
guarded stops _ _ = false

abbrev all_objects : (Object → Bool) → Bool
all_objects f =
    f handle
    && f device
    && f pool
    && f streamer
    && f ve_thread
    && f ae_thread
    && f yuv_queue
    && f ve_queue
    && f pcm_queue
    && f ae_queue

all_objects-elim : (f : Object → Bool) (o : Object) → all_objects f ≡ true → f o ≡ true
all_objects-elim f handle h = ground (arith, h)
all_objects-elim f device h = ground (arith, h)
all_objects-elim f pool h = ground (arith, h)
all_objects-elim f streamer h = ground (arith, h)
all_objects-elim f ve_thread h = ground (arith, h)
all_objects-elim f ae_thread h = ground (arith, h)
all_objects-elim f yuv_queue h = ground (arith, h)
all_objects-elim f ve_queue h = ground (arith, h)
all_objects-elim f pcm_queue h = ground (arith, h)
all_objects-elim f ae_queue h = ground (arith, h)

-- A guarded use is in order.
abbrev fits : ℤ → ℤ → Bool → Thread → Object → Bool
fits video audio stops t o =
    if guarded stops t o then in_order t o nobody false (skeleton video audio stops) else true

abbrev all_threads : (Thread → Bool) → Bool
all_threads f = f capturing && f preparing && f muxing && f encoding_video && f encoding_audio

all_threads-elim : (f : Thread → Bool) (t : Thread) → all_threads f ≡ true → f t ≡ true
all_threads-elim f capturing h = ground (arith, h)
all_threads-elim f preparing h = ground (arith, h)
all_threads-elim f muxing h = ground (arith, h)
all_threads-elim f encoding_video h = ground (arith, h)
all_threads-elim f encoding_audio h = ground (arith, h)

all_fit :
    (video audio : ℤ) (stops : Bool)
    → all_threads (λ t. all_objects (fits video audio stops t)) ≡ true
unfolding in_order skeleton
all_fit (pos i) (pos j) true = refl
all_fit (pos i) (pos j) false = refl
all_fit (pos i) (negsuc j) true = refl
all_fit (pos i) (negsuc j) false = refl
all_fit (negsuc i) (pos j) true = refl
all_fit (negsuc i) (pos j) false = refl
all_fit (negsuc i) (negsuc j) true = refl
all_fit (negsuc i) (negsuc j) false = refl

fits_lem :
    (video audio : ℤ) (stops : Bool) (t : Thread) (o : Object) → fits video audio stops t o ≡ true
fits_lem video audio stops t o =
    all_objects-elim (fits video audio stops t) o
      (all_threads-elim (λ u. all_objects (fits video audio stops u)) t (all_fit video audio stops))

-- However the threads of the program take turns, an object that guarded allows a thread to use is
-- there as long as this thread runs.
pub main-guarded :
    (fuel : ℕ) (at : Places) (c : StreamerCont) (s : StreamerStatus) (ds : List Deed) (w : World)
    (t : Thread) (o : Object) (os : List Object)
    → main fuel at c s ≡ some ds
    → guarded (stoppable s) t o ≡ true
    → Reach c s (before ds) w
    → w.doing t ≡ some os
    → w.alive o ≡ true
main-guarded fuel at c s ds w t o os made h r e =
    let fit = fits_lem c.video_index c.audio_index (stoppable s) t o in
    let ordered =
      in_order-erase t o nobody false ds
      ∙ ap (in_order t o nobody false) (main-erase fuel at c s ds made)
      ∙ sym (rw h refl)
      ∙ fit in
    in_order_lem c s t o ds w ordered r os e
