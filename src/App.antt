-- ===== src/App.antt =====
-- MacRTMPStreamer.cpp: the program that captures, encodes and streams. This file has the state that
-- its threads share, the listener of its streamer and its pool of frames.
pub mod Encoder
pub mod Capture
pub mod Source
pub mod Input
pub mod Start
pub mod Shutdown
pub mod Main
pub mod Commands
pub mod Flow
pub mod Written
use koala_streamer.Prelude.{
  ℕ, suc, ◌+◌, ◌≡◌, Bool, true, false, ◌||◌, Option, none, some, List, [], ◌∷◌, ◌==◌, if◌then◌else◌,
}
use koala_streamer.Prelude.Int.{ℤ, pos, negsuc, is_neg}
use koala_streamer.Frame.{Address, Frame}
use koala_streamer.FrameQueue.{FrameQueue}
use koala_streamer.Stack.{Stack, push, pop}

-- `streamer_cont`, with the queues that are there.
pub record StreamerCont : Type 0 where
  pub stop : Bool
  pub video_index : ℤ
  pub audio_index : ℤ
  pub yuv_queue : Option (FrameQueue Frame)
  pub ae_queue : Option (FrameQueue Frame)
  pub pcm_queue : Option (FrameQueue Frame)
  pub ve_queue : Option (FrameQueue Frame)
  pub frame_stack : Stack Frame

-- The capacities that main and initMediaThread choose.
abbrev pub yuv_capacity : ℕ
yuv_capacity = 5

abbrev pub ve_capacity : ℕ
ve_capacity = 100

abbrev pub pcm_capacity : ℕ
pcm_capacity = 20

abbrev pub ae_capacity : ℕ
ae_capacity = 400

abbrev pub pool_capacity : ℕ
pool_capacity = 500

-- MyMediaStreamerListener; PREPARE_EVENT_ERROR is 0x1001.
unfoldable my_media_streamer_listener : StreamerCont → ℤ → StreamerCont
my_media_streamer_listener c (negsuc n) = record c { stop = true }
my_media_streamer_listener c (pos n) = if n == 4097 then record c { stop = true } else c

-- The file's own getMediaFrame: `fresh` is the frame that mediaFrameCreate would make.
unfoldable pub get_frame : Stack Frame → Frame → Frame × Stack Frame
get_frame s fresh = let (x, s') = pop s in (elim x [ none ↦ fresh | some f ↦ f ], s')

-- Its putMediaFrame: the result is also whether the frame is freed.
unfoldable pub put_frame : Stack Frame → Frame → Bool × Stack Frame
put_frame s f = let (kept, s') = push s f in (if kept then false else true, s')
