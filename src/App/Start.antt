-- ===== src/App/Start.antt =====
-- MacRTMPStreamer.cpp, what main sets up before the threads run: the shared state, the queues and
-- the encoder threads of initMediaThread.
use koala_streamer.Prelude.{
  ℕ, ◌*◌, ◌≡◌, ◌<◌, refl, sym, subst, false, Option, none, some, List, [], length, if◌then◌else◌,
  arith,
}
use koala_streamer.Prelude.Maybe.{◌>>=◌, >>=-eq-some}
use koala_streamer.Prelude.Int.{ℤ, pos, is_neg}
use koala_streamer.Fifo
use koala_streamer.Fifo.Inv.{create-IsValid}
use koala_streamer.Frame.{Address, Frame}
use koala_streamer.FrameQueue.{FrameQueue}
use koala_streamer.FrameQueue
use koala_streamer.FrameQueue.Refine.{Represents}
use koala_streamer.Stack
use koala_streamer.App.{
  StreamerCont, yuv_capacity, ve_capacity, pcm_capacity, ae_capacity, pool_capacity,
}
use koala_streamer.App.Input.{Input}
use koala_streamer.App.Encoder.{EncoderThread}
use koala_streamer.App.Encoder.Init.{Ffmpeg, StreamCodec, init_thread}
use koala_streamer.App.Capture.{Addresses, Met, Others, left, read_devices}
use koala_streamer.App.Capture.Refine.{View, Shows}
use koala_streamer.App.Capture.Refine.Ends.{StopsIn, read_devices_leaves}

-- The state of main once open_input chose the streams; `cells n` are the `n` cells that `new` hands
-- out.
unfoldable pub opened_cont : (ℕ → List Frame) → Input → StreamerCont
opened_cont cells p = record {
  stop = false;
  video_index = p.video_index;
  audio_index = p.audio_index;
  yuv_queue = none;
  ae_queue = none;
  pcm_queue = none;
  ve_queue = none;
  frame_stack = Stack.create pool_capacity (cells pool_capacity);
}

-- A queue for a stream that was found.
unfoldable new_queue : (ℕ → List Frame) → ℤ → ℕ → Option (FrameQueue Frame)
new_queue cells index n = if is_neg index then none else some (FrameQueue.create n (cells n))

unfoldable new_queues : (ℕ → List Frame) → StreamerCont → StreamerCont
unfolding new_queue
new_queues cells c = record c {
  yuv_queue = new_queue cells c.video_index yuv_capacity;
  ve_queue = new_queue cells c.video_index ve_capacity;
  pcm_queue = new_queue cells c.audio_index pcm_capacity;
  ae_queue = new_queue cells c.audio_index ae_capacity;
}

pub record Started : Type 0 where
  pub cont : StreamerCont
  pub video_thread : Option EncoderThread
  pub audio_thread : Option EncoderThread

-- A stream's encoder thread; `self` is its address and `malloced` what malloc hands out for its
-- buffer. The pool is the shared one, as the thread finds it.
unfoldable pub new_thread :
    Ffmpeg
    → ℤ
    → Address
    → StreamerCont
    → ℕ
    → StreamCodec
    → ℕ
    → List ℕ
    → Option (Option EncoderThread)
new_thread ff index self c codec_id codec bit_rate malloced =
    let made = do
      e ← init_thread ff self (some c.frame_stack) codec_id codec bit_rate malloced
      some (some e)
    in if is_neg index then some none else made

-- initMediaThread, from the two streams' codecs on; no result where a thread has no encoder.
unfoldable pub init_media_thread :
    Ffmpeg
    → (ℕ → List Frame)
    → Address × Address
    → StreamCodec × StreamCodec
    → List ℕ × List ℕ
    → StreamerCont
    → Option Started
unfolding new_queues new_thread
init_media_thread ff cells selves codecs malloced c = do
  ve ← new_thread ff c.video_index selves.0 c ff.h264 codecs.0 (2 * 1024 * 1024) malloced.0
  ae ← new_thread ff c.audio_index selves.1 c ff.aac codecs.1 (64 * 1024) malloced.1
  some (record { cont = new_queues cells c; video_thread = ve; audio_thread = ae })

init_media_thread-cont :
    (ff : Ffmpeg) (cells : ℕ → List Frame) (selves : Address × Address)
    (codecs : StreamCodec × StreamCodec) (malloced : List ℕ × List ℕ) (c : StreamerCont)
    (st : Started)
    → init_media_thread ff cells selves codecs malloced c ≡ some st
    → st.cont ≡ new_queues cells c
unfolding init_media_thread
init_media_thread-cont ff cells selves codecs malloced c st e =
    let b₁ =
      >>=-eq-some
        (new_thread ff c.video_index selves.0 c ff.h264 codecs.0 (2 * 1024 * 1024) malloced.0) _
        e in
    let b₂ =
      >>=-eq-some (new_thread ff c.audio_index selves.1 c ff.aac codecs.1 (64 * 1024) malloced.1) _
        b₁.2 in
    let made = b₂.2 in cc

-- The lists of a state with four new queues.
abbrev new_view : ℤ → ℤ → View
new_view video_index audio_index = record {
  stop = false;
  video_index = video_index;
  audio_index = audio_index;
  yuv = some [];
  pcm = some [];
  ve = some [];
  ae = some [];
  pool = [];
}

module _ (cells : ℕ → List Frame) (sized : (n : ℕ) → length (cells n) ≡ n) where
  pub create-Represents : (n : ℕ) → Represents (FrameQueue.create n (cells n)).queue n []
  unfolding FrameQueue.create Fifo.create
  create-Represents n = record {
    valid = create-IsValid n (cells n) (omega (arith, sized n));
    holds = record { window = tt; sized = refl };
    same = refl;
  }

  new_queues-Shows :
      (p : Input) (i j : ℕ)
      → p.video_index ≡ pos i
      → p.audio_index ≡ pos j
      → Shows (new_queues cells (opened_cont cells p)) (new_view (pos i) (pos j))
  unfolding new_queues new_queue opened_cont Stack.create
  new_queues-Shows p i j video audio =
      rw (video, audio)
        (record {
          stop = refl;
          video_index = refl;
          audio_index = refl;
          yuv = create-Represents yuv_capacity;
          pcm = create-Represents pcm_capacity;
          ve = create-Represents ve_capacity;
          ae = create-Represents ae_capacity;
          pool = record {
            holds = tt;
            sized = refl;
            bounded = omega arith;
            same = refl;
            room = sized pool_capacity;
          };
        })

-- From main's state on, where a stream of pictures and one of sound were found, every array has the
-- cells that were asked for and initMediaThread returns, the capturing thread never uses a null
-- queue, its cleanings end with a fuel above 400, and it leaves its loop once another thread has set
-- `stop` before one of its rounds: whatever frames the other threads put in the queues and the pool
-- and take from them, between its rounds and while it waits for room, as long as no thread deletes
-- one of them.
pub started_leaves :
    (ff : Ffmpeg) (cells : ℕ → List Frame) (selves : Address × Address)
    (codecs : StreamCodec × StreamCodec) (malloced : List ℕ × List ℕ) (p : Input) (i j : ℕ)
    (st : Started) (at : Addresses) (fuel : ℕ) (ms : List (Others × Met))
    → ((n : ℕ) → length (cells n) ≡ n)
    → p.video_index ≡ pos i
    → p.audio_index ≡ pos j
    → init_media_thread ff cells selves codecs malloced (opened_cont cells p) ≡ some st
    → ae_capacity < fuel
    → StopsIn ms
    → (c' : StreamerCont) × (read_devices at fuel st.cont ms ≡ some (left c'))
started_leaves ff cells selves codecs malloced p i j st at fuel ms sized video audio made enough
      stops =
    let same =
      init_media_thread-cont ff cells selves codecs malloced (opened_cont cells p) st made in
    let shows = new_queues-Shows cells sized p i j video audio in
    read_devices_leaves at fuel ms st.cont (new_view (pos i) (pos j)) enough
      (subst (λ c. Shows c (new_view (pos i) (pos j))) (sym same) shows) (refl, refl) stops
