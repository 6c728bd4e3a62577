-- ===== src/Streamer/Life.antt =====
-- The life of a streamer whose program does not call mediaStreamer_start itself: its calls, those of
-- the muxer's thread, and the statements of the prepare thread, in any order that the join allows.
pub mod Points
pub mod Prepare
pub mod Stop
pub mod Threads
pub mod Failure
use koala_streamer.Prelude.{
  ℕ, ◌+◌, ◌≤◌, ◌≡◌, ◌≢◌, ◌⊎◌, refl, ap, inl, inr, Bool, true, false, Option, none, some, List, [],
  ◌∷◌, ◌++◌, map, arith,
}
use koala_streamer.Prelude.Int.{ℤ, pos, negsuc, is_neg}
use koala_streamer.CString.{Bytes}
use koala_streamer.Frame.{Address}
use koala_streamer.MediaMuxer.{Delegate, Handle, muxer_setopt}
use koala_streamer.Statistics.{Statistician}
use koala_streamer.Streamer.{
  StreamerStatus, init, preparing, prepared, streaming, stoped, error, MediaStreamerCb, Streamer,
  Deed, muxed, notified, created, joined, Functions, create_media_streamer, set_in_put, set_out_put,
  set_listener, setopt, notify, prepare, stop, prepare_internal, PreparePoint, absent, beginning,
  opening, connecting, telling_ok, starting, returning, over, readied, telling, StopPoint, called,
  joining, ending, closing, settling,
}

module _ {E : Type 0} where
  unfoldable pub creations_in : List (Deed E) → ℕ
  creations_in [] = 0
  creations_in (created ∷ ds) = 1 + creations_in ds
  creations_in (joined ∷ ds) = creations_in ds
  creations_in (muxed e ∷ ds) = creations_in ds
  creations_in (notified f a e ∷ ds) = creations_in ds

  unfoldable pub joins_in : List (Deed E) → ℕ
  joins_in [] = 0
  joins_in (joined ∷ ds) = 1 + joins_in ds
  joins_in (created ∷ ds) = joins_in ds
  joins_in (muxed e ∷ ds) = joins_in ds
  joins_in (notified f a e ∷ ds) = joins_in ds

  -- Neither creates nor joins.
  abbrev pub Quiet : List (Deed E) → Type 0
  Quiet ds = (creations_in ds ≡ 0) × (joins_in ds ≡ 0)

  pub Quiet-map : (es : List E) → Quiet (map muxed es)
  unfolding creations_in joins_in
  Quiet-map [] = (refl, refl)
  Quiet-map (e ∷ es) = Quiet-map es

  pub Quiet-append : (cs ds : List (Deed E)) → Quiet cs → Quiet ds → Quiet (cs ++ ds)
  unfolding creations_in joins_in
  Quiet-append [] ds h k = k
  Quiet-append (created ∷ cs) ds h k = absurd (omega arith)
  Quiet-append (joined ∷ cs) ds h k = absurd (omega arith)
  Quiet-append (muxed e ∷ cs) ds h k = Quiet-append cs ds h k
  Quiet-append (notified f a e ∷ cs) ds h k = Quiet-append cs ds h k

pub Quiet-notify :
    {H : Type 0} (E : Type 0) (s : Streamer H) (event : ℤ) → Quiet (notify {E = E} s event)
unfolding notify creations_in joins_in
Quiet-notify E s event = ground arith

-- A call that sets something before or during the run.
pub data Setting : Type 0 where
  input : MediaStreamerCb → Setting
  output : Option Bytes → Option Bytes → Setting
  listens : Option Address → Option Address → Setting
  option : Option Bytes → Option Bytes → Setting

unfoldable pub apply : {H : Type 0} → Streamer H → Setting → Streamer H
apply s (input cb) = set_in_put s cb
apply s (output name format) = set_out_put s name format
apply s (listens f arg) = set_listener s f arg
apply s (option key value) = (setopt s key value).1

-- The streamer, where its prepare thread and the one call of mediaStreamer_stop stand, and how many
-- threads were created and joined.
pub record World (H : Type 0) : Type 0 where
  pub streamer : Streamer H
  pub thread : PreparePoint
  pub stopping : StopPoint
  pub creations : ℕ
  pub joins : ℕ

module _ {H E : Type 0} (d : Delegate H E) (fs : Functions) where
  abbrev pub did : World H → PreparePoint → StopPoint → Streamer H → List (Deed E) → World H
  did w thread stopping s ds = record {
    streamer = s;
    thread = thread;
    stopping = stopping;
    creations = w.creations + creations_in ds;
    joins = w.joins + joins_in ds;
  }

  -- Between any two statements of the prepare thread and of mediaStreamer_stop the others may act.
  -- pthread_join returns once the thread is over. One thread makes the calls of mediaStreamer_prepare
  -- and of mediaStreamer_stop.
  pub data Step (w w' : World H) : Type 0 where
    sets : (c : Setting) → w' ≡ record w { streamer = apply w.streamer c } → Step w w'
    counts :
        (st : Statistician)
        → w' ≡ record w { streamer = record w.streamer { statistics = st } }
        → Step w w'
    refused :
        w.streamer.status ≢ init
        → (let r = prepare w.streamer in w' ≡ did w w.thread w.stopping r.0 r.1)
        → Step w w'
    prepares :
        w.streamer.status ≡ init
        → (let r = prepare w.streamer in w' ≡ did w beginning w.stopping r.0 r.1)
        → Step w w'
    runs :
        (r : PreparePoint × Streamer H × List (Deed E))
        → prepare_internal d fs w.thread w.streamer ≡ some r
        → w' ≡ did w r.0 w.stopping r.1 r.2
        → Step w w'
    stops :
        (w.stopping ≡ joining → w.thread ≡ over)
        → (let r = stop d w.stopping w.streamer in w' ≡ did w w.thread r.0 r.1 r.2)
        → Step w w'

  pub data Reach (w : World H) : World H → Type 0 where
    here : Reach w w
    next : {u v : World H} → Reach w u → Step u v → Reach w v

abbrev pub new_world : {H : Type 0} → World H
new_world = record {
  streamer = create_media_streamer;
  thread = absent;
  stopping = called;
  creations = 0;
  joins = 0;
}

-- The threads that were created on the way to a status.
abbrev pub threads : StreamerStatus → ℕ
threads init = 0
threads _ = 1

-- The threads that were joined on the way to a point of mediaStreamer_stop.
abbrev pub ended_threads : StopPoint → StreamerStatus → ℕ
ended_threads called stoped = 1
ended_threads called _ = 0
ended_threads joining _ = 0
ended_threads _ _ = 1

-- The statuses that a point of the prepare thread may find.
abbrev pub may_find : PreparePoint → StreamerStatus → Bool
may_find absent init = true
may_find beginning preparing = true
may_find opening preparing = true
may_find connecting preparing = true
may_find (readied _) preparing = true
may_find (telling _) preparing = true
may_find (telling _) error = true
may_find telling_ok prepared = true
may_find starting prepared = true
may_find returning preparing = true
may_find returning streaming = true
may_find returning error = true
may_find over preparing = true
may_find over streaming = true
may_find over stoped = true
may_find over error = true
may_find _ _ = false

-- The points of mediaStreamer_stop and of the prepare thread that may stand together, and the
-- statuses at each point of mediaStreamer_stop.
abbrev pub may_stop : StopPoint → PreparePoint → StreamerStatus → Bool
may_stop called _ _ = true
may_stop joining _ init = false
may_stop joining _ stoped = false
may_stop joining _ _ = true
may_stop _ over preparing = true
may_stop _ over streaming = true
may_stop _ over error = true
may_stop _ _ _ = false

pub record IsValid {H : Type 0} (w : World H) : Type 0 where
  pub created_once : w.creations ≡ threads w.streamer.status
  pub joined_once : w.joins ≡ ended_threads w.stopping w.streamer.status
  pub finds : may_find w.thread w.streamer.status ≡ true
  pub stands : may_stop w.stopping w.thread w.streamer.status ≡ true
