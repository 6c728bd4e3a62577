-- ===== src/App/Capture/Refine.antt =====
-- The capturing thread on lists of frames: queues are lists, oldest first, and the pool a list whose
-- head is taken first.
pub mod Rounds
pub mod Loop
pub mod Ends
use koala_streamer.Prelude.{
  ℕ, suc, ◌+◌, ◌≡◌, ◌≤◌, ◌<◌, refl, sym, ap, ◌∙◌, subst, inl, inr, Bool, true, false, Option, none,
  some, List, [], ◌∷◌, ◌++◌, ltb, ◌==◌, if◌then◌else◌, length, arith, Bool-cases,
}
use koala_streamer.Prelude.Maybe.{◌>>=◌}
use koala_streamer.Prelude.Int.{ℤ, pos, negsuc}
use koala_streamer.Fifo
use koala_streamer.Fifo.Inv
use koala_streamer.Fifo.Spec
use koala_streamer.Frame.{Address, Frame}
use koala_streamer.FrameQueue.{FrameQueue, Moment, Status, after, enqueue, get_size, clean_if}
use koala_streamer.FrameQueue.Refine.{Represents, enqueued, enqueue_refines, after-Represents}
use koala_streamer.FrameQueue.Clean.{Swept, sweep, Progresses, Did, clean_if_lem}
use koala_streamer.Stack.{Stack, push, pop}
use koala_streamer.Stack.Refine as Pool
use koala_streamer.Trim.{my_clean_queue_v, my_clean_queue_a}
use koala_streamer.App.{
  StreamerCont, get_frame, put_frame, yuv_capacity, ve_capacity, pcm_capacity, ae_capacity,
  pool_capacity,
}
use koala_streamer.App.Encoder.{Packet}
use koala_streamer.App.Capture.{
  same_index, Met, Addresses, captured, send, shorten, put_all, Round, hand_on, read_round, Others,
  used, meet, Ran, left, running, read_devices,
}

-- The lists that the shared state stands for.
pub record View : Type 0 where
  pub stop : Bool
  pub video_index : ℤ
  pub audio_index : ℤ
  pub yuv : Option (List Frame)
  pub pcm : Option (List Frame)
  pub ve : Option (List Frame)
  pub ae : Option (List Frame)
  pub pool : List Frame

abbrev pub Stores : ℕ → Option (FrameQueue Frame) → Option (List Frame) → Type 0
Stores c none none = Unit
Stores c (some q) (some xs) = Represents q.queue c xs
Stores c none (some xs) = ⊥
Stores c (some q) none = ⊥

pub record Shows (c : StreamerCont) (v : View) : Type 0 where
  pub stop : c.stop ≡ v.stop
  pub video_index : c.video_index ≡ v.video_index
  pub audio_index : c.audio_index ≡ v.audio_index
  pub yuv : Stores yuv_capacity c.yuv_queue v.yuv
  pub pcm : Stores pcm_capacity c.pcm_queue v.pcm
  pub ve : Stores ve_capacity c.ve_queue v.ve
  pub ae : Stores ae_capacity c.ae_queue v.ae
  pub pool : Pool.Represents c.frame_stack pool_capacity v.pool

-- The operations on lists.
unfoldable pub sent :
    ℕ → Option (List Frame) → Frame → Moment Frame → Option (Status × Option (List Frame))
sent n none f m = none
sent n (some xs) f m = let (status, ys) = enqueued n xs f m in some (status, some ys)

unfoldable pub shortened :
    ℕ → (ℕ → Frame → ℕ × ℕ) → Option (List Frame) → Option (List Frame) × List Frame
shortened limit func none = (none, [])
shortened limit func (some xs) =
    let w = sweep (some func) 0 xs in
    if ltb limit (length xs) then (some w.kept, w.released) else (some xs, [])

unfoldable pub pooled : List Frame → List Frame → List Frame
pooled pool [] = pool
pooled pool (f ∷ fs) = pooled (if length pool == pool_capacity then pool else f ∷ pool) fs

abbrev pub taken : List Frame → Frame → Frame × List Frame
taken [] fresh = (fresh, [])
taken (f ∷ fs) fresh = (f, fs)

-- What a round makes of the lists.
pub record Viewed : Type 0 where
  pub view : View
  pub status : Option Status
  pub released : List Frame

unfoldable pub handed : View → Frame → Met → Option Viewed
handed v f met =
    let to_yuv = sent yuv_capacity v.yuv f met.wait in
    let to_pcm = sent pcm_capacity v.pcm f met.wait in
    if same_index met.packet.stream_index v.video_index
    then elim to_yuv [
      | none ↦ none
      | some r ↦ some (record { view = record v { yuv = r.1 }; status = some r.0; released = [] })
    ]
    else if same_index met.packet.stream_index v.audio_index
    then elim to_pcm [
      | none ↦ none
      | some r ↦ some (record { view = record v { pcm = r.1 }; status = some r.0; released = [] })
    ]
    else some (record { view = v; status = none; released = f ∷ [] })

-- The end of a round: both queues of encoded frames shortened, and what was released pooled.
unfoldable pub tidied : Viewed → Viewed
unfolding shortened pooled
tidied r =
    let ve = shortened 80 my_clean_queue_v r.view.ve in
    let ae = shortened 300 my_clean_queue_a r.view.ae in
    let released = r.released ++ ve.1 ++ ae.1 in
    record {
      view = record r.view { ve = ve.0; ae = ae.0; pool = pooled r.view.pool released };
      status = r.status;
      released = released;
    }

unfoldable pub round_of : Addresses → View → Met → Option Viewed
unfolding handed tidied
round_of at v met =
    let t = taken v.pool met.fresh in
    let viewed = handed (record v { pool = t.1 }) (captured at met.packet t.0) met in
    elim viewed [ none ↦ none | some r ↦ some (tidied r) ]
