-- ===== src/App/Capture.antt =====
-- MacRTMPStreamer.cpp, ff_read_devices: the thread that captures packets, hands them to the encoders
-- and shortens the queues of encoded frames.
pub mod Refine
use koala_streamer.Prelude.{
  ℕ, ◌+◌, ◌≡◌, Bool, true, false, Option, none, some, List, [], ◌∷◌, ◌++◌, ltb, ◌==◌, if◌then◌else◌,
}
use koala_streamer.Prelude.Maybe.{◌>>=◌}
use koala_streamer.Prelude.Int.{ℤ, pos, negsuc}
use koala_streamer.Fifo
use koala_streamer.Frame.{Address, Frame, set_release}
use koala_streamer.FrameQueue.{FrameQueue, Moment, Status, after, enqueue, get_size, clean_if}
use koala_streamer.Stack.{Stack}
use koala_streamer.Stack.Refine as Pool
use koala_streamer.Trim.{my_clean_queue_v, my_clean_queue_a}
use koala_streamer.App.{StreamerCont, get_frame, put_frame}
use koala_streamer.App.Encoder.{Packet}

abbrev pub same_index : ℤ → ℤ → Bool
same_index (pos m) (pos n) = m == n
same_index (negsuc m) (negsuc n) = m == n
same_index _ _ = false

-- What a round meets: the packet that av_read_frame leaves, the frame that mediaFrameCreate would
-- make, and the wait in enqueue.
pub record Met : Type 0 where
  pub packet : Packet
  pub fresh : Frame
  pub wait : Moment Frame

-- The addresses of ReleasePkt and of the shared state.
pub record Addresses : Type 0 where
  pub release_pkt : Address
  pub self : Address

-- The frame that is handed on.
unfoldable pub captured : Addresses → Packet → Frame → Frame
captured at pkt f =
    set_release (record f { buffer = some pkt.address }) (some at.release_pkt) (some at.self)

-- What becomes of the frame: its result of enqueue, or released at once.
unfoldable pub send :
    Option (FrameQueue Frame) → Frame → Moment Frame → Option (Status × Option (FrameQueue Frame))
send none f m = none
send (some q) f m = let (status, q') = enqueue q f m in some (status, some q')

-- A queue with more than `limit` frames is cleaned; the result is also what is released.
unfoldable pub shorten :
    ℕ
    → (ℕ → Frame → ℕ × ℕ)
    → ℕ
    → Option (FrameQueue Frame)
    → Option (Option (FrameQueue Frame) × List Frame)
shorten limit func fuel none = some (none, [])
shorten limit func fuel (some q) =
    let cleaned = clean_if fuel (some func) 0 q in
    if ltb limit (get_size q)
    then elim cleaned [
      | none ↦ none
      | some c ↦ some (some (record q { queue = c.fifo }), c.released)
    ]
    else some (some q, [])

-- The frames whose release function puts them in the pool, as both of the program's do.
unfoldable pub put_all : Stack Frame → List Frame → Stack Frame
put_all s [] = s
put_all s (f ∷ fs) = put_all (put_frame s f).1 fs

-- What is left of a round: the state, the result of enqueue if it was called, and what was released.
pub record Round : Type 0 where
  pub cont : StreamerCont
  pub status : Option Status
  pub released : List Frame

-- Handing the frame on.
unfoldable pub hand_on : StreamerCont → Frame → Met → Option Round
unfolding send
hand_on c f met =
    let to_yuv = send c.yuv_queue f met.wait in
    let to_pcm = send c.pcm_queue f met.wait in
    if same_index met.packet.stream_index c.video_index
    then elim to_yuv [
      | none ↦ none
      | some r ↦
          some (record { cont = record c { yuv_queue = r.1 }; status = some r.0; released = [] })
    ]
    else if same_index met.packet.stream_index c.audio_index
    then elim to_pcm [
      | none ↦ none
      | some r ↦
          some (record { cont = record c { pcm_queue = r.1 }; status = some r.0; released = [] })
    ]
    else some (record { cont = c; status = none; released = f ∷ [] })

-- The rest of a round, on the queues of encoded frames; no result where the fuel of a cleaning ends.
unfoldable pub tidy : ℕ → Round → Option Round
unfolding shorten put_all
tidy fuel r = do
  ve ← shorten 80 my_clean_queue_v fuel r.cont.ve_queue
  ae ← shorten 300 my_clean_queue_a fuel r.cont.ae_queue
  let released = r.released ++ ve.1 ++ ae.1
  some (record {
    cont = record r.cont {
      ve_queue = ve.0;
      ae_queue = ae.0;
      frame_stack = put_all r.cont.frame_stack released;
    };
    status = r.status;
    released = released;
  })

-- One round of the loop; no result where a null queue is used, or where tidy has none.
unfoldable pub read_round : Addresses → ℕ → StreamerCont → Met → Option Round
unfolding hand_on captured tidy
read_round at fuel c met = do
  let taken = get_frame c.frame_stack met.fresh
  let c₁ = record c { frame_stack = taken.1 }
  r ← hand_on c₁ (captured at met.packet taken.0) met
  tidy fuel r

-- What the other threads do to the shared state between two rounds, as long as main has not deleted
-- the queues; App/Main has the deletions.
pub record Others : Type 0 where
  pub stops : Bool
  pub yuv : List (Fifo.Op Frame)
  pub pcm : List (Fifo.Op Frame)
  pub ve : List (Fifo.Op Frame)
  pub ae : List (Fifo.Op Frame)
  pub pool : List (Pool.Op Frame)

abbrev pub used : Option (FrameQueue Frame) → List (Fifo.Op Frame) → Option (FrameQueue Frame)
used none ops = none
used (some q) ops = some (record q { queue = after q.queue ops })

unfoldable pub meet : StreamerCont → Others → StreamerCont
meet c o = record c {
  stop = if o.stops then true else c.stop;
  yuv_queue = used c.yuv_queue o.yuv;
  pcm_queue = used c.pcm_queue o.pcm;
  ve_queue = used c.ve_queue o.ve;
  ae_queue = used c.ae_queue o.ae;
  frame_stack = (Pool.run c.frame_stack o.pool).1;
}

-- How far the thread came: it left its loop, or the rounds are over.
pub data Ran (A : Type 0) : Type 0 where
  left running : A → Ran A

-- The loop, over what each round meets.
unfoldable pub read_devices :
    Addresses → ℕ → StreamerCont → List (Others × Met) → Option (Ran StreamerCont)
unfolding read_round meet
read_devices at fuel c [] = some (running c)
read_devices at fuel c ((o, met) ∷ ms) =
    let c' = meet c o in
    let rest = read_round at fuel c' met >>= (λ r. read_devices at fuel r.cont ms) in
    if c'.stop then some (left c') else rest
