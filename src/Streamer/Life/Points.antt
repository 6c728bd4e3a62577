-- ===== src/Streamer/Life/Points.antt =====
-- MediaStreamer.c: the points of the prepare thread and of mediaStreamer_stop, and the statuses they meet.
use koala_streamer.Prelude.{◌≡◌, ◌&&◌, ltb, refl, Bool, true, false, arith}
use koala_streamer.Streamer.{
  StreamerStatus, init, preparing, prepared, streaming, stoped, error, status_value, PreparePoint,
  over, StopPoint, called, joining, ending, closing, settling,
}
use koala_streamer.Streamer.Life.{threads, ended_threads, may_find, may_stop}

-- The thread is not over, and a status between the first and `stoped`, or after an error.
abbrev pub lives : PreparePoint → Bool
lives over = false
lives _ = true

abbrev pub is_past : StreamerStatus → Bool
is_past init = false
is_past stoped = false
is_past _ = true

-- A thread that is not over leaves mediaStreamer_stop where it may stand.
pub live-may_stop :
    (sp : StopPoint) (p p' : PreparePoint) (st st' : StreamerStatus)
    → may_stop sp p st ≡ true
    → lives p ≡ true
    → is_past st ≡ true
    → is_past st' ≡ true
    → (may_stop sp p' st' ≡ true) × (ended_threads sp st' ≡ ended_threads sp st)
live-may_stop called p p' st st' h k a b = ground (arith, a, b)
live-may_stop joining p p' st st' h k a b = ground (arith, b)
live-may_stop ending p p' st st' h k a b = ground (arith, h, k)
live-may_stop closing p p' st st' h k a b = ground (arith, h, k)
live-may_stop settling p p' st st' h k a b = ground (arith, h, k)

pub past-threads : (st : StreamerStatus) → is_past st ≡ true → threads st ≡ 1
past-threads st h = ground (arith, h)

pub init-stops : (sp : StopPoint) (p : PreparePoint) → may_stop sp p init ≡ true → sp ≡ called
init-stops sp p h = ground (arith, h)

-- Whether mediaStreamer_stop goes on after its test.
abbrev pub is_stopped : StreamerStatus → Bool
is_stopped st =
    ltb (status_value init) (status_value st) && ltb (status_value st) (status_value stoped)

pub tested-stands :
    (st : StreamerStatus) (p : PreparePoint)
    → is_stopped st ≡ true
    → (may_stop joining p st ≡ true) × (ended_threads called st ≡ 0)
tested-stands init p h = cc
tested-stands preparing p h = (refl, refl)
tested-stands prepared p h = (refl, refl)
tested-stands streaming p h = (refl, refl)
tested-stands stoped p h = cc
tested-stands error p h = cc

pub joined-stands :
    (st : StreamerStatus)
    → may_find over st ≡ true
    → may_stop joining over st ≡ true
    → may_stop ending over st ≡ true
joined-stands st h k = ground (arith, h, k)

pub settled_over :
    (p : PreparePoint) (st : StreamerStatus)
    → may_stop settling p st ≡ true
    → (p ≡ over) × (threads st ≡ 1)
settled_over p st h = ground (arith, h)
