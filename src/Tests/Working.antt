-- ===== src/Tests/Working.antt =====
-- The worker thread and the stack at concrete histories.
use koala_streamer.Prelude.{ℕ, ◌+◌, ◌≡◌, ◌≢◌, ◌⊎◌, refl, inl, inr, true, false, some, List, [], ◌∷◌}
use koala_streamer.Stack
use koala_streamer.Stack.Refine.{
  pushes, pops, sizes, status, item, count, Represents, run, serve_all, serve, stack_run_refines,
}
use koala_streamer.FrameQueue.{Moment, timed_out}
use koala_streamer.Worker.{retrying, deliver, idle, paused, stopped, start, stop, pause}
use koala_streamer.Worker.Life
use koala_streamer.Worker.Life.{Call, starts, pauses, stops, creations, joins, life_lem, paused_lem}
use koala_streamer.Worker
use koala_streamer.Worker.Loop.{Machine, testing, over, Event, tick, ticks, worker_leaves}
use koala_streamer.Worker.Deliver.{Agrees, delivered, deliver_lem}
use koala_streamer.Tests.Queues.{full_queue, full_queue-Represents, at_990}

abbrev new_stack : Stack.Stack ℕ
new_stack = Stack.create 2 (0 ∷ 0 ∷ [])

stack_run_refines_example :
    ((run new_stack (pushes 5 ∷ pushes 6 ∷ pushes 7 ∷ sizes ∷ pops ∷ [])).0
      ≡ status true ∷ status true ∷ status false ∷ count 2 ∷ item (some 6) ∷ [])
    × Represents (run new_stack (pushes 5 ∷ pushes 6 ∷ pushes 7 ∷ sizes ∷ pops ∷ [])).1 2 (5 ∷ [])
unfolding serve_all serve
stack_run_refines_example =
    stack_run_refines 2 (0 ∷ 0 ∷ []) (pushes 5 ∷ pushes 6 ∷ pushes 7 ∷ sizes ∷ pops ∷ []) refl

-- Started twice, paused and stopped twice.
abbrev life : List Call
life = starts ∷ starts ∷ pauses ∷ stops ∷ stops ∷ starts ∷ []

life_lem_example : (creations (Life.run idle life).1 ≡ 1) × (joins (Life.run idle life).1 ≡ 1)
unfolding Life.run Life.call start stop pause Life.starts_in Life.stops_started
life_lem_example = life_lem life

-- No room is made in 10 ms, and then the thread is told to stop.
abbrev late : Moment ℕ
late = record { now = at_990; timedwait = λ t. ([], timed_out) }

deliver_lem_example :
    ((deliver full_queue 7 ((late, false) ∷ (late, true) ∷ [])).0 ≢ retrying)
    × Agrees 2
        (deliver full_queue 7 ((late, false) ∷ (late, true) ∷ []))
        (delivered 2 (5 ∷ 6 ∷ []) 7 ((late, false) ∷ (late, true) ∷ []))
deliver_lem_example =
    deliver_lem 2 full_queue (5 ∷ 6 ∷ []) 7 ((late, false) ∷ (late, true) ∷ [])
      full_queue-Represents (inr (inl refl))

-- A worker with a full output queue, told to stop while it waits for room.
abbrev worker : Machine ℕ
worker = record {
  phase = testing;
  status = Worker.running;
  input = full_queue;
  output = full_queue;
  released = [];
}

abbrev event : List Call → Event ℕ
event calls = record { calls = calls; wait = late; deal = λ n. some (n + 1) }

worker_leaves_example :
    (((ticks worker (event [] ∷ event [] ∷ event (stops ∷ []) ∷ [])).status ≢ stopped)
      × ((ticks worker (event [] ∷ event [] ∷ event (stops ∷ []) ∷ [])).released ≡ []))
    ⊎ (((ticks worker (event [] ∷ event [] ∷ event (stops ∷ []) ∷ [])).status ≡ stopped)
        × ((tick
              (tick (ticks worker (event [] ∷ event [] ∷ event (stops ∷ []) ∷ [])) (event []))
              (event [])).phase
            ≡ over))
worker_leaves_example =
    worker_leaves worker (event [] ∷ event [] ∷ event (stops ∷ []) ∷ []) (event []) (event []) refl
