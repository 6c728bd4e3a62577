-- ===== src/Tests/Queues.antt =====
-- The frame queues: utils/StreamerStack.h, utils/mediaThread.cpp and the callbacks of
-- MacRTMPStreamer.cpp at concrete inputs.
use koala_streamer.Prelude.{
  ℕ, suc, ◌+◌, ◌*◌, ◌≤◌, ◌≡◌, refl, ◌↔◌, true, false, none, some, List, [], ◌∷◌, ◌++◌, arith,
  length,
}
use koala_streamer.Prelude.Int.{pos}
use koala_streamer.Frame.{Frame, blank}
use koala_streamer.Deadline.{Timeval, make_abstime_latems, make_abstime_latems_lem}
use koala_streamer.Fifo.{Op, puts, gets, peaks, status, item, create, put, get, peak, step}
use koala_streamer.Fifo.Inv.{IsValid}
use koala_streamer.Fifo.Refine.{Holds, run, run-create_refines, run-create_account}
use koala_streamer.Fifo.Spec.{serve_all, serve, offer, poll, accepted, delivered}
use koala_streamer.FrameQueue.{
  FrameQueue, Moment, woken, failed, ok, enqueue, dequeue, CleanIt, clean_if,
}
use koala_streamer.FrameQueue.Refine.{Represents, enqueue_refines, dequeue_refines}
use koala_streamer.FrameQueue.Lost.{enqueue_lost}
use koala_streamer.FrameQueue.Clean.{Did, sweep, clean_if_lem}
use koala_streamer.Trim.{my_clean_queue_v, NoKey, StartsAtKey, trim_video_lem}

abbrev script : List (Op ℕ)
script = puts 1 ∷ puts 2 ∷ puts 3 ∷ gets ∷ peaks ∷ puts 4 ∷ gets ∷ gets ∷ gets ∷ []

run-script :
    (run (create 2 (9 ∷ 9 ∷ [])) script).0
    ≡ status true
      ∷ status true
      ∷ status false
      ∷ item (some 1)
      ∷ item (some 2)
      ∷ status true
      ∷ item (some 2)
      ∷ item (some 4)
      ∷ item none
      ∷ []
unfolding run step create put get peak
run-script = refl

run-create_refines_example :
    ((run (create 2 (9 ∷ 9 ∷ [])) script).0 ≡ (serve_all 2 [] script).0)
    × Holds (run (create 2 (9 ∷ 9 ∷ [])) script).1 (serve_all 2 [] script).1
    × IsValid (run (create 2 (9 ∷ 9 ∷ [])) script).1
run-create_refines_example = run-create_refines 2 (9 ∷ 9 ∷ []) script (omega arith)

run-create_account_example :
    (xs : List ℕ) × Holds (run (create 2 (9 ∷ 9 ∷ [])) script).1 xs
    × (accepted script (run (create 2 (9 ∷ 9 ∷ [])) script).0
        ≡ delivered script (run (create 2 (9 ∷ 9 ∷ [])) script).0 ++ xs)
run-create_account_example = run-create_account 2 (9 ∷ 9 ∷ []) script (omega arith)

abbrev pub at_990 : Timeval
at_990 = record { sec = 7; usec = 990000 }

make_abstime_latems_lem_example :
    let t = make_abstime_latems at_990 10 in
    (t.sec * 1000000000 + t.nsec ≡ 7 * 1000000000 + 990000 * 1000 + 10 * 1000000)
    × (t.nsec ≤ 1000000000)
    × ((t.nsec ≡ 1000000000) ↔ (◌≡◌ {A = ℕ} 1000000 1000000))
make_abstime_latems_lem_example = make_abstime_latems_lem at_990 10 (omega arith)

-- A queue of two frames, 5 and then 6, that goes round the end of its array.
abbrev pub full_queue : FrameQueue ℕ
full_queue = record {
  queue = record { capacity = 2; header = 1; tail = 1; cells = 6 ∷ 5 ∷ []; size = 2 };
  capacity = 2;
}

pub full_queue-Represents : Represents full_queue.queue 2 (5 ∷ 6 ∷ [])
full_queue-Represents = record {
  valid = omega arith;
  holds = record { window = (refl, (refl, tt)); sized = refl };
  same = refl;
}

-- While this caller waits, another thread takes a frame.
abbrev helped : Moment ℕ
helped = record { now = at_990; timedwait = λ t. (gets ∷ [], woken) }

-- Nobody else runs, and the wait is refused at once.
abbrev refused : Moment ℕ
refused = record { now = at_990; timedwait = λ t. ([], failed) }

enqueue_refines_example :
    ((enqueue full_queue 7 helped).0 ≡ ok)
    × Represents (enqueue full_queue 7 helped).1.queue 2 (6 ∷ 7 ∷ [])
unfolding serve_all serve offer poll
enqueue_refines_example = enqueue_refines 2 full_queue (5 ∷ 6 ∷ []) 7 helped full_queue-Represents

dequeue_refines_example :
    ((dequeue full_queue helped).0 ≡ some 5)
    × Represents (dequeue full_queue helped).1.queue 2 (6 ∷ [])
dequeue_refines_example = dequeue_refines 2 full_queue (5 ∷ 6 ∷ []) helped full_queue-Represents

-- A wakeup with no room made.
abbrev spurious : Moment ℕ
spurious = record { now = at_990; timedwait = λ t. ([], woken) }

enqueue_lost_example :
    ((enqueue full_queue 7 spurious).0 ≡ ok)
    × Represents (enqueue full_queue 7 spurious).1.queue 2 (5 ∷ 6 ∷ [])
unfolding serve_all
enqueue_lost_example =
    enqueue_lost 2 full_queue (5 ∷ 6 ∷ []) 7 spurious full_queue-Represents refl refl (λ e. cc)

-- cleanIf without a callback, as `clean` calls it.
abbrev clean_all : CleanIt ℕ ℕ
clean_all = none

clean_if_lem_example :
    Did (clean_if 3 clean_all 0 full_queue) 2 (record { released = 5 ∷ 6 ∷ []; arg = 0; kept = [] })
unfolding sweep
clean_if_lem_example =
    clean_if_lem clean_all (λ s x. refl) 2 3 0 full_queue (5 ∷ 6 ∷ []) full_queue-Represents
      (omega arith)

-- A callback that keeps the frame and does not stop.
abbrev idle : ℕ → ℕ → ℕ × ℕ
idle s x = (s, 0)

abbrev frame_of : ℕ → Frame
frame_of flag = record blank { flag = pos flag }

abbrev coded : List Frame
coded = frame_of 1 ∷ frame_of 0 ∷ frame_of 0 ∷ frame_of 1 ∷ frame_of 0 ∷ []

abbrev coded_queue : FrameQueue Frame
coded_queue = record {
  queue = record { capacity = 5; header = 0; tail = 0; cells = coded; size = 5 };
  capacity = 5;
}

coded_queue-Represents : Represents coded_queue.queue 5 coded
coded_queue-Represents = record {
  valid = omega arith;
  holds = record { window = (refl, (refl, (refl, (refl, (refl, tt))))); sized = refl };
  same = refl;
}

trim_video_lem_example :
    (dropped kept : List Frame) × Did
      (clean_if 6 (some my_clean_queue_v) 0 coded_queue)
      5
      (record { released = frame_of 1 ∷ dropped; arg = suc (length dropped); kept = kept })
    × (dropped ++ kept ≡ frame_of 0 ∷ frame_of 0 ∷ frame_of 1 ∷ frame_of 0 ∷ [])
    × NoKey dropped
    × StartsAtKey kept
trim_video_lem_example =
    trim_video_lem 5 6 coded_queue (frame_of 1)
      (frame_of 0 ∷ frame_of 0 ∷ frame_of 1 ∷ frame_of 0 ∷ []) coded_queue-Represents (omega arith)
