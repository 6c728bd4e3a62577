-- ===== src/App/Flow.antt =====
-- MacRTMPStreamer.cpp: the way of one stream's frames, from ff_read_devices over the queue of captured
-- frames, the encoder's thread and the queue of encoded frames to the callback of the streamer, one
-- critical section of a queue at a time.
pub mod Lists
pub mod Order
use koala_streamer.Prelude.{ℕ, ◌≡◌, ◌<◌, Option, none, some, List, [], ◌∷◌, ◌++◌}
use koala_streamer.Frame.{Frame}
use koala_streamer.FrameQueue.{FrameQueue, put_signal, get_signal}
use koala_streamer.FrameQueue
use koala_streamer.FrameQueue.Clean.{Progresses}
use koala_streamer.App.Capture.{shorten}

-- The two queues and the frame that the encoder's thread has to store, with the history: the frames
-- captured, each frame that was dealt with and what `deal` handed on, and the frames that the
-- callback handed out, all in order.
pub record Flow : Type 0 where
  pub raw : FrameQueue Frame
  pub encoded : FrameQueue Frame
  pub pending : Option Frame
  pub captured : List Frame
  pub dealt : List (Frame × Option Frame)
  pub handed_out : List Frame

abbrev pub new_flow : (ℕ → List Frame) → ℕ → ℕ → Flow
new_flow cells m n = record {
  raw = FrameQueue.create m (cells m);
  encoded = FrameQueue.create n (cells n);
  pending = none;
  captured = [];
  dealt = [];
  handed_out = [];
}

-- `n` is the capacity of the queue of encoded frames. An enqueue stores its frame when it finds room
-- or after a wakeup, and its put may then still fail, or it times out. The encoder takes a frame and
-- hands on one or none; it stores its frame, or drops it once it is to stop. The capturing thread
-- also shortens the queue of encoded frames.
pub data Step (n : ℕ) (w w' : Flow) : Type 0 where
  captures :
      (f : Frame)
      → w' ≡ record w { raw = (put_signal w.raw f).1; captured = w.captured ++ (f ∷ []) }
      → Step n w w'
  times_out : (f : Frame) → w' ≡ record w { captured = w.captured ++ (f ∷ []) } → Step n w w'
  deals :
      (f : Frame) (r : Option Frame)
      → w.pending ≡ none
      → (get_signal w.raw).0 ≡ some f
      → w' ≡ record w { raw = (get_signal w.raw).1; pending = r; dealt = w.dealt ++ ((f, r) ∷ []) }
      → Step n w w'
  stores :
      (g : Frame)
      → w.pending ≡ some g
      → w' ≡ record w { encoded = (put_signal w.encoded g).1; pending = none }
      → Step n w w'
  drops : (g : Frame) → w.pending ≡ some g → w' ≡ record w { pending = none } → Step n w w'
  hands_out :
      (g : Frame)
      → (get_signal w.encoded).0 ≡ some g
      → w' ≡ record w { encoded = (get_signal w.encoded).1; handed_out = w.handed_out ++ (g ∷ []) }
      → Step n w w'
  shortens :
      (limit : ℕ) (func : ℕ → Frame → ℕ × ℕ) (fuel : ℕ) (q : FrameQueue Frame)
      (released : List Frame)
      → Progresses (some func)
      → n < fuel
      → shorten limit func fuel (some w.encoded) ≡ some (some q, released)
      → w' ≡ record w { encoded = q }
      → Step n w w'

pub data Reach (n : ℕ) (w : Flow) : Flow → Type 0 where
  here : Reach n w w
  next : {u v : Flow} → Reach n w u → Step n u v → Reach n w v
