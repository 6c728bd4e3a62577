-- ===== src/App/Main.antt =====
-- MacRTMPStreamer.cpp, main: what it does, in order, to the objects that its threads share and to
-- the threads. Its own reads of streamer_cont are left out: it frees it last.
pub mod Uses
pub mod Threads
pub mod Order
pub mod Erase
pub mod Guarded
pub mod Rounds
pub mod Exposed
pub mod Race
pub mod Late
pub mod Run
pub mod Sound
pub mod Destroy
use koala_streamer.Prelude.{
  ℕ, Bool, true, false, ◌&&◌, Option, none, some, List, [], ◌∷◌, ◌++◌, map, ltb, ◌==◌,
  if◌then◌else◌,
}
use koala_streamer.Prelude.Maybe.{◌>>=◌}
use koala_streamer.Prelude.Int.{ℤ, is_neg}
use koala_streamer.Frame.{Address, Frame}
use koala_streamer.FrameQueue.{FrameQueue, clean_if}
use koala_streamer.Streamer.{StreamerStatus, init, stoped, status_value}
use koala_streamer.App.{StreamerCont}

-- streamer_cont itself, the members that it points to, and what main makes beside them.
pub data Object : Type 0 where
  handle device pool streamer ve_thread ae_thread yuv_queue ve_queue pcm_queue ae_queue : Object

-- ff_read_devices, the prepare thread of the streamer, its muxing thread and the two encoders.
pub data Thread : Type 0 where
  capturing preparing muxing encoding_video encoding_audio : Thread

-- `tells` is what ends a thread's loop: the status threadStatusStop, or `end` of the muxer. The wait
-- is main's loop over commands, which ends once `stop` is set.
pub data Deed : Type 0 where
  makes uses deletes : Object → Deed
  starts tells joins : Thread → Deed
  waits_stop : Deed

-- The deeds on a stream, if its index says that it was found.
abbrev pub with_stream : ℤ → List Deed → List Deed
with_stream index ds = if is_neg index then [] else ds

-- initMediaThread.
unfoldable pub init_deeds : ℤ → ℤ → List Deed
init_deeds video audio =
    with_stream video (makes yuv_queue ∷ makes ve_thread ∷ makes ve_queue ∷ [])
    ++ with_stream audio (makes pcm_queue ∷ makes ae_thread ∷ makes ae_queue ∷ [])

-- main, up to its loop over commands.
unfoldable pub start_up : ℤ → ℤ → List Deed
unfolding init_deeds
start_up video audio =
    (makes handle ∷ makes pool ∷ makes device ∷ [])
    ++ init_deeds video audio
    ++ (starts capturing ∷ [])
    ++ with_stream video (starts encoding_video ∷ [])
    ++ with_stream audio (starts encoding_audio ∷ [])
    ++ (makes streamer ∷ starts preparing ∷ [])

-- The addresses of the two functions that release frames, and of the two encoders.
pub record Places : Type 0 where
  pub release_pkt : Address
  pub release_pkt_buffer : Address
  pub ve : Address
  pub ae : Address

-- release_pkt_buffer has the encoder that made the frame put it in the pool.
unfoldable pub release_pkt_buffer : Places → Frame → List Object
release_pkt_buffer at f =
    let thread : List Object = elim f.appending [
      | none ↦ []
      | some p ↦ if p == at.ve then ve_thread ∷ [] else if p == at.ae then ae_thread ∷ [] else []
    ] in
    thread ++ (pool ∷ [])

-- ReleasePkt puts the frame in the pool of streamer_cont. A frame without a function is only freed.
unfoldable pub touched : Places → Frame → List Object
unfolding release_pkt_buffer
touched at f = elim f.release [
  | none ↦ []
  | some func ↦
      if func == at.release_pkt
      then handle ∷ pool ∷ []
      else if func == at.release_pkt_buffer
      then release_pkt_buffer at f
      else []
]

unfoldable pub touched_by : Places → List Frame → List Object
unfolding touched
touched_by at [] = []
touched_by at (f ∷ fs) = touched at f ++ touched_by at fs

-- ~mediaFrameQueue cleans the queue: every frame that is left is released before the queue is gone.
-- No result where the queue is null or the fuel ends.
unfoldable pub delete_queue : ℕ → Places → Object → Option (FrameQueue Frame) → Option (List Deed)
unfolding touched_by
delete_queue fuel at o none = none
delete_queue fuel at o (some q) = do
  cleaned ← clean_if fuel none tt q
  some (map uses (touched_by at cleaned.released) ++ (deletes o ∷ []))

-- stop on an encoder, and its destructor, which calls stop again on the stopped thread.
abbrev pub stop_encoder : Thread → Object → List Deed
stop_encoder t o = uses o ∷ tells t ∷ joins t ∷ uses o ∷ deletes o ∷ []

-- The part of destroyMediaThread for one stream; the queues are as their destructors find them.
unfoldable pub destroy_stream :
    ℕ
    → Places
    → Thread
    → Object × Object × Object
    → Option (FrameQueue Frame)
    → Option (FrameQueue Frame)
    → Option (List Deed)
unfolding delete_queue
destroy_stream fuel at t (thread, raw, encoded) q₁ q₂ = do
  ds₁ ← delete_queue fuel at raw q₁
  ds₂ ← delete_queue fuel at encoded q₂
  some (stop_encoder t thread ++ ds₁ ++ ds₂)

unfoldable pub destroy_media_thread : ℕ → Places → StreamerCont → Option (List Deed)
unfolding destroy_stream
destroy_media_thread fuel at c =
    let video =
      destroy_stream fuel at encoding_video (ve_thread, yuv_queue, ve_queue) c.yuv_queue
        c.ve_queue in
    let audio =
      destroy_stream fuel at encoding_audio (ae_thread, pcm_queue, ae_queue) c.pcm_queue
        c.ae_queue in
    do
      ds₁ ← if is_neg c.video_index then some [] else video
      ds₂ ← if is_neg c.audio_index then some [] else audio
      some (ds₁ ++ ds₂)

-- Whether mediaStreamer_stop does anything.
unfoldable pub stoppable : StreamerStatus → Bool
stoppable s = ltb (status_value init) (status_value s) && ltb (status_value s) (status_value stoped)

-- mediaStreamer_stop joins the prepare thread, and in muxer_end sets `end` and joins the muxing
-- thread, if the status is one that it stops.
unfoldable pub stop_streamer : Bool → List Deed
stop_streamer stops =
    uses streamer ∷ (if stops then joins preparing ∷ tells muxing ∷ joins muxing ∷ [] else [])

-- The end of main, after destroyMediaThread.
unfoldable pub close_down : Bool → List Deed
unfolding stop_streamer
close_down stops =
    (joins capturing ∷ [])
    ++ stop_streamer stops
    ++ (deletes streamer ∷ deletes device ∷ uses pool ∷ deletes pool ∷ deletes handle ∷ [])

-- main, where open_input succeeds; `s` is the status that mediaStreamer_stop finds.
unfoldable pub main : ℕ → Places → StreamerCont → StreamerStatus → Option (List Deed)
unfolding start_up destroy_media_thread close_down stoppable
main fuel at c s = do
  ds ← destroy_media_thread fuel at c
  some (start_up c.video_index c.audio_index ++ (waits_stop ∷ []) ++ ds ++ close_down (stoppable s))
