-- ===== src/Worker.antt =====
-- utils/mediaThread.cpp, class mediaThread: the thread that takes frames from one queue, deals with
-- them and puts the results in another.
pub mod Life
pub mod Deliver
pub mod Loop
use koala_streamer.Prelude.{Bool, true, false, Option, none, some, List, [], ◌∷◌, if◌then◌else◌}
use koala_streamer.FrameQueue.{FrameQueue, Moment, Status, ok, timeout, enqueue, dequeue}

-- `threadStatus`; `idle` is threadStatusNULL.
pub data ThreadStatus : Type 0 where
  idle running paused stopped : ThreadStatus

-- What start, pause and stop do to the thread itself.
pub data Effect : Type 0 where
  nothing created joined : Effect

-- A thread is created only once; the result -1 of a second call is `nothing`.
unfoldable pub start : ThreadStatus → ThreadStatus × Effect
start idle = (running, created)
start s = (s, nothing)

unfoldable pub pause : ThreadStatus → ThreadStatus × Effect
pause running = (paused, nothing)
pause s = (s, nothing)

unfoldable pub stop : ThreadStatus → ThreadStatus × Effect
stop running = (stopped, joined)
stop paused = (stopped, joined)
stop s = (s, nothing)

-- A round of the loop of `run`: leave it, sleep for 10 ms, or call func.
pub data Round : Type 0 where
  leaves sleeps calls_func : Round

unfoldable pub run_round : ThreadStatus → Round
run_round stopped = leaves
run_round paused = sleeps
run_round _ = calls_func

-- What became of a frame: enqueue returned 0 for it, which it also does where it dropped the frame; it
-- was released; or it still waits for room.
pub data Fate : Type 0 where
  accepted released retrying : Fate

-- What follows an attempt that leaves a queue: its only error is a timeout, which is tried again
-- (`rest`) unless the thread is to stop.
unfoldable pub settle {ℓ} : {Q : Type ℓ} → Status → Bool → Q → Fate × Q → Fate × Q
settle ok stopping q rest = (accepted, q)
settle timeout true q rest = (released, q)
settle timeout false q rest = rest

module _ {ℓ} {A : Type ℓ} where
  -- The inner loop of func. An attempt is what happens in its enqueue, and whether the status is
  -- threadStatusStop after it.
  unfoldable pub deliver : FrameQueue A → A → List (Moment A × Bool) → Fate × FrameQueue A
  unfolding settle
  deliver q x [] = (retrying, q)
  deliver q x ((m, stopping) ∷ attempts) =
      let (status, q') = enqueue q x m in settle status stopping q' (deliver q' x attempts)

  -- func: the frame's fate, if there is a frame and `deal` hands one on, and the two queues.
  unfoldable pub func :
      FrameQueue A
      → FrameQueue A
      → (A → Option A)
      → Moment A
      → List (Moment A × Bool)
      → Option Fate × FrameQueue A × FrameQueue A
  unfolding deliver
  func input output deal m attempts =
      let (x, input') = dequeue input m in
      elim x [
        | none ↦ (none, input', output)
        | some f ↦ elim (deal f) [
          | none ↦ (none, input', output)
          | some g ↦ let (fate, output') = deliver output g attempts in (some fate, input', output')
        ]
      ]
