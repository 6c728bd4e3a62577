-- ===== src/App/Main/Uses.antt =====
-- MacRTMPStreamer.cpp, mediaThread.cpp, koala_muxer.c and MediaStreamer.c: which of the objects that
-- main makes a thread uses between two decisions whether to go on.
use koala_streamer.Prelude.{ℕ, zero, suc, ◌≡◌, Bool, List, [], ◌∷◌, ◌++◌, ◌==◌, if◌then◌else◌}
use koala_streamer.Prelude.Int.{ℤ, is_neg}
use koala_streamer.App.{StreamerCont}
use koala_streamer.App.Capture.{same_index}
use koala_streamer.App.Main.{
  Object, handle, device, pool, streamer, ve_thread, ae_thread, yuv_queue, ve_queue, pcm_queue,
  ae_queue, Thread, capturing, preparing, muxing, encoding_video, encoding_audio,
}

abbrev pub object_number : Object → ℕ
object_number handle = 0
object_number device = 1
object_number pool = 2
object_number streamer = 3
object_number ve_thread = 4
object_number ae_thread = 5
object_number yuv_queue = 6
object_number ve_queue = 7
object_number pcm_queue = 8
object_number ae_queue = 9

abbrev pub thread_number : Thread → ℕ
thread_number capturing = 0
thread_number preparing = 1
thread_number muxing = 2
thread_number encoding_video = 3
thread_number encoding_audio = 4

abbrev pub same_object : Object → Object → Bool
same_object o x = object_number o == object_number x

abbrev pub same_thread : Thread → Thread → Bool
same_thread t u = thread_number t == thread_number u

abbrev pub at_object {ℓ} : {A : Type ℓ} → (Object → A) → Object → A → Object → A
at_object f o a x = if same_object o x then a else f x

abbrev pub at_thread {ℓ} : {A : Type ℓ} → (Thread → A) → Thread → A → Thread → A
at_thread f t a u = if same_thread t u then a else f u

-- What releasing an encoded frame uses.
abbrev released_video : List Object
released_video = ve_thread ∷ pool ∷ []

abbrev released_audio : List Object
released_audio = ae_thread ∷ pool ∷ []

-- A round of ff_read_devices, for a packet of the stream `index`, with whether its queues of encoded
-- frames are shortened.
unfoldable pub capture_round : StreamerCont → ℤ → Bool → Bool → List Object
capture_round c index ve ae =
    (handle ∷ device ∷ pool ∷ [])
    ++ (if same_index index c.video_index
        then yuv_queue ∷ []
        else if same_index index c.audio_index
        then pcm_queue ∷ []
        else handle ∷ pool ∷ [])
    ++ (if is_neg c.video_index then [] else ve_queue ∷ (if ve then released_video else []))
    ++ (if is_neg c.audio_index then [] else ae_queue ∷ (if ae then released_audio else []))
    ++ (handle ∷ [])

-- The uses of a loop that goes round `n` times.
unfoldable pub again : ℕ → List Object → List Object
again zero os = []
again (suc n) os = os ++ again n os

-- A round of an encoder: mediaThread::func, the encoder and its captured frame, whose release puts it
-- in the pool; the packet that it gets, if it gets one, in a frame of the pool; the attempts to store
-- this frame, each with a test of the status, and its release if the thread is to stop.
unfoldable pub encode_round : Object × Object × Object → Bool → ℕ → Bool → List Object
unfolding again
encode_round (thread, raw, encoded) got attempts stored =
    (thread ∷ raw ∷ thread ∷ handle ∷ pool ∷ [])
    ++ (if got then pool ∷ thread ∷ [] else [])
    ++ again attempts (encoded ∷ thread ∷ [])
    ++ (if stored then [] else thread ∷ pool ∷ [])
    ++ (thread ∷ [])

-- A round of the muxing thread: the streamer counts, the program's callback waits for a frame and
-- reads `stop`, the streamer counts again, the frame is released, and an error is told.
unfoldable pub mux_round : Object × Object → ℕ → Bool → Bool → List Object
unfolding again
mux_round (thread, encoded) attempts got tells_error =
    (streamer ∷ handle ∷ encoded ∷ [])
    ++ again attempts (handle ∷ encoded ∷ handle ∷ [])
    ++ (streamer ∷ [])
    ++ (if tells_error then streamer ∷ handle ∷ [] else [])
    ++ (if got then thread ∷ pool ∷ [] else [])

-- The prepare thread: each stream's description is asked for, until one has none, and the listener
-- is told.
unfoldable pub prepare_round : Bool → Bool → List Object
prepare_round audio video =
    (streamer ∷ [])
    ++ (if audio then streamer ∷ handle ∷ device ∷ ae_thread ∷ [] else [])
    ++ (if video then streamer ∷ handle ∷ device ∷ ve_thread ∷ [] else [])
    ++ (streamer ∷ handle ∷ [])

-- What a thread may use before it decides whether to go on.
pub data Round (c : StreamerCont) (t : Thread) (os : List Object) : Type 0 where
  captures : (i : ℤ) (ve ae : Bool) → t ≡ capturing → os ≡ capture_round c i ve ae → Round c t os
  prepares : (audio video : Bool) → t ≡ preparing → os ≡ prepare_round audio video → Round c t os
  muxes_video :
      (n : ℕ) (got error : Bool)
      → t ≡ muxing
      → os ≡ mux_round (ve_thread, ve_queue) n got error
      → Round c t os
  muxes_audio :
      (n : ℕ) (got error : Bool)
      → t ≡ muxing
      → os ≡ mux_round (ae_thread, ae_queue) n got error
      → Round c t os
  encodes_video :
      (got : Bool) (n : ℕ) (stored : Bool)
      → t ≡ encoding_video
      → os ≡ encode_round (ve_thread, yuv_queue, ve_queue) got n stored
      → Round c t os
  encodes_audio :
      (got : Bool) (n : ℕ) (stored : Bool)
      → t ≡ encoding_audio
      → os ≡ encode_round (ae_thread, pcm_queue, ae_queue) got n stored
      → Round c t os
