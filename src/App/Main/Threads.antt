-- ===== src/App/Main/Threads.antt =====
-- MacRTMPStreamer.cpp: main and the threads that it starts, one use of a shared object at a time, in
-- every order that the joins allow.
use koala_streamer.Prelude.{◌≡◌, Bool, true, false, not, Option, none, some, List, [], ◌∷◌}
use koala_streamer.Streamer.{StreamerStatus}
use koala_streamer.App.{StreamerCont}
use koala_streamer.App.Main.{
  Object, Thread, capturing, preparing, muxing, encoding_video, encoding_audio, Deed, makes, uses,
  deletes, starts, tells, joins, waits_stop, stoppable,
}
use koala_streamer.App.Main.Uses.{same_thread, at_object, at_thread, Round}

-- What main has left to do, the objects that are there, what each thread that runs has still to use
-- in its round, the threads that were told to end, and the flag `stop`.
pub record World : Type 0 where
  pub todo : List Deed
  pub alive : Object → Bool
  pub doing : Thread → Option (List Object)
  pub told : Thread → Bool
  pub stop : Bool

-- Whether a thread goes on after a round, and whether it may leave: the prepare thread has one round,
-- and the muxing thread may also find that its sources ended.
abbrev pub may_begin : World → Thread → Bool
may_begin w capturing = not w.stop
may_begin w preparing = false
may_begin w t = not (w.told t)

abbrev pub may_end : World → Thread → Bool
may_end w capturing = w.stop
may_end w encoding_video = w.told encoding_video
may_end w encoding_audio = w.told encoding_audio
may_end w _ = true

-- `s` is the status in which the prepare thread leaves the streamer: it creates the muxing thread
-- last, and only if it did not fail.
pub data Step (c : StreamerCont) (s : StreamerStatus) (w w' : World) : Type 0 where
  made :
      (o : Object) (ds : List Deed)
      → w.todo ≡ makes o ∷ ds
      → w' ≡ record w { todo = ds; alive = at_object w.alive o true }
      → Step c s w w'
  used :
      (o : Object) (ds : List Deed)
      → w.todo ≡ uses o ∷ ds
      → w' ≡ record w { todo = ds }
      → Step c s w w'
  deleted :
      (o : Object) (ds : List Deed)
      → w.todo ≡ deletes o ∷ ds
      → w' ≡ record w { todo = ds; alive = at_object w.alive o false }
      → Step c s w w'
  started :
      (t : Thread) (ds : List Deed)
      → w.todo ≡ starts t ∷ ds
      → same_thread t preparing ≡ false
      → w' ≡ record w { todo = ds; doing = at_thread w.doing t (some []) }
      → Step c s w w'
  prepared :
      (os : List Object) (ds : List Deed)
      → w.todo ≡ starts preparing ∷ ds
      → Round c preparing os
      → w' ≡ record w { todo = ds; doing = at_thread w.doing preparing (some os) }
      → Step c s w w'
  told :
      (t : Thread) (ds : List Deed)
      → w.todo ≡ tells t ∷ ds
      → w' ≡ record w { todo = ds; told = at_thread w.told t true }
      → Step c s w w'
  joined :
      (t : Thread) (ds : List Deed)
      → w.todo ≡ joins t ∷ ds
      → w.doing t ≡ none
      → w' ≡ record w { todo = ds }
      → Step c s w w'
  heard :
      (ds : List Deed)
      → w.todo ≡ waits_stop ∷ ds
      → w.stop ≡ true
      → w' ≡ record w { todo = ds }
      → Step c s w w'
  stops : w' ≡ record w { stop = true } → Step c s w w'
  touches :
      (t : Thread) (o : Object) (os : List Object)
      → w.doing t ≡ some (o ∷ os)
      → w' ≡ record w { doing = at_thread w.doing t (some os) }
      → Step c s w w'
  begins :
      (t : Thread) (os : List Object)
      → w.doing t ≡ some []
      → may_begin w t ≡ true
      → Round c t os
      → w' ≡ record w { doing = at_thread w.doing t (some os) }
      → Step c s w w'
  spawns :
      (os : List Object)
      → w.doing preparing ≡ some []
      → stoppable s ≡ true
      → Round c muxing os
      → w' ≡ record w { doing = at_thread (at_thread w.doing muxing (some os)) preparing none }
      → Step c s w w'
  ends :
      (t : Thread)
      → w.doing t ≡ some []
      → may_end w t ≡ true
      → w' ≡ record w { doing = at_thread w.doing t none }
      → Step c s w w'

pub data Reach (c : StreamerCont) (s : StreamerStatus) (w : World) : World → Type 0 where
  here : Reach c s w w
  next : {u v : World} → Reach c s w u → Step c s u v → Reach c s w v

pub Reach-trans :
    {c : StreamerCont} {s : StreamerStatus} {u v w : World}
    → Reach c s u v
    → Reach c s v w
    → Reach c s u w
Reach-trans r here = r
Reach-trans r (next q st) = next (Reach-trans r q) st

-- Before main does anything.
abbrev pub before : List Deed → World
before ds = record {
  todo = ds;
  alive = λ o. false;
  doing = λ t. none;
  told = λ t. false;
  stop = false;
}
