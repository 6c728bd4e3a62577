-- ===== src/Tests/Ending.antt =====
-- The program's start and end with concrete queues.
use koala_streamer.Prelude.{
  ℕ, ◌≡◌, ◌⊎◌, ◌<◌, ◌%◌, ◌++◌, refl, true, false, some, none, List, [], ◌∷◌, replicate,
  length-replicate, arith, ◌&&◌,
}
use koala_streamer.Prelude.Int.{ℤ, pos}
use koala_streamer.Frame.{Frame, blank}
use koala_streamer.Fifo
use koala_streamer.FrameQueue
use koala_streamer.FrameQueue.{FrameQueue, clean_if, clean_loop, also_released}
use koala_streamer.FrameQueue.Refine.{Represents}
use koala_streamer.Streamer.{streaming}
use koala_streamer.App.{StreamerCont}
use koala_streamer.App.Main.{
  Deed, Places, capturing, yuv_queue, ve_queue, ae_queue, handle, main, destroy_media_thread,
  destroy_stream, delete_queue, touched_by, start_up, init_deeds, close_down,
}
use koala_streamer.App.Main.Threads.{World, Reach, before}
use koala_streamer.App.Main.Rounds.{exposed}
use koala_streamer.App.Main.Exposed.{about_to_use_lem}
use koala_streamer.App.Main.Late.{exposed_lem}
use koala_streamer.App.Main.Run.{
  Stopped, storing, capturing_too_late, run_to_stop, captures-storing,
}
use koala_streamer.App.Main.Sound.{is_sound}
use koala_streamer.App.Main.Destroy.{Found, everything, is_nil, destroy_media_thread_lem}
use koala_streamer.App.Capture.{Others}
use koala_streamer.App.Commands.{Key, Sight, Commanded, AllInside}
use koala_streamer.App.Commands.Laws.{Answer, commands_lem}
use koala_streamer.Tests.Streaming.{connected}
use koala_streamer.Tests.Capturing.{empty, empty-Represents, cont}

abbrev places : Places
places = record { release_pkt = 7; release_pkt_buffer = 8; ve = 5; ae = 6 }

-- A captured picture and an encoded one are left.
abbrev picture : Frame
picture = record blank { release = some 7 }

abbrev encoded : Frame
encoded = record blank { release = some 8; appending = some 5 }

abbrev one : ℕ → Frame → FrameQueue Frame
one n f = record {
  queue = record { capacity = n; header = 0; tail = 1; cells = f ∷ replicate n blank; size = 1 };
  capacity = n;
}

one-Represents : (n : ℕ) (f : Frame) → 1 < n → 1 ≡ 1 % n → Represents (one n f).queue n (f ∷ [])
one-Represents n f h e = record {
  valid = record {
    storage = omega (arith, length-replicate n blank);
    size_in = omega arith;
    header_in = omega arith;
    tail_at = e;
  };
  holds = record { window = (refl, tt); sized = refl };
  same = refl;
}

abbrev leftover : StreamerCont
leftover = record cont { yuv_queue = some (one 5 picture); ve_queue = some (one 100 encoded) }

leftover-Found : Found places leftover (picture ∷ []) (encoded ∷ []) [] []
leftover-Found = record {
  yuv_queue = one 5 picture;
  ve_queue = one 100 encoded;
  pcm_queue = empty 20;
  ae_queue = empty 400;
  has_yuv = refl;
  has_ve = refl;
  has_pcm = refl;
  has_ae = refl;
  holds_yuv = one-Represents 5 picture (omega arith) refl;
  holds_ve = one-Represents 100 encoded (omega arith) refl;
  holds_pcm = empty-Represents 20;
  holds_ae = empty-Represents 400;
  captured_yuv = (refl, tt);
  encoded_ve = ((refl, refl), tt);
  captured_pcm = tt;
  encoded_ae = tt;
}

abbrev script : List Deed
script = elim (main 401 places leftover streaming) [ none ↦ [] | some ds ↦ ds ]

script_made : main 401 places leftover streaming ≡ some script
unfolding main destroy_media_thread destroy_stream delete_queue touched_by clean_if clean_loop
    also_released Fifo.peak Fifo.get FrameQueue.create Fifo.create
script_made = refl

capturing_too_late_example :
    (w : World) × Reach leftover streaming (before script) w
    × (w.doing capturing ≡ some storing)
    × (w.alive yuv_queue ≡ false)
capturing_too_late_example =
    capturing_too_late 401 places leftover streaming 0 1 script refl refl script_made

abbrev destroys : List Deed
destroys = elim (destroy_media_thread 401 places leftover) [ none ↦ [] | some ds ↦ ds ]

destroys_made : destroy_media_thread 401 places leftover ≡ some destroys
unfolding destroy_media_thread destroy_stream delete_queue touched_by clean_if clean_loop
    also_released Fifo.peak Fifo.get FrameQueue.create Fifo.create
destroys_made = refl

-- Main has come to destroyMediaThread.
abbrev run : Stopped leftover streaming script (destroys ++ close_down true)
unfolding main start_up init_deeds destroy_media_thread destroy_stream delete_queue touched_by
    clean_if clean_loop also_released Fifo.peak Fifo.get FrameQueue.create Fifo.create
run =
    run_to_stop leftover streaming 0 1 (destroys ++ close_down true)
      (captures-storing leftover 0 1 refl refl)

about_to_use_lem_example :
    (run.world.alive yuv_queue ≡ true) ⊎ (exposed true capturing yuv_queue ≡ true)
about_to_use_lem_example =
    about_to_use_lem 401 places leftover streaming script run.world capturing yuv_queue
      (ve_queue ∷ ae_queue ∷ handle ∷ []) script_made run.reach run.doing

exposed_lem_example :
    (w : World) × Reach leftover streaming run.world w
    × (w.doing capturing ≡ some storing)
    × (w.alive yuv_queue ≡ false)
exposed_lem_example =
    exposed_lem 401 places leftover streaming 0 1 destroys (close_down true) run.world capturing
      yuv_queue (ve_queue ∷ ae_queue ∷ handle ∷ []) refl refl destroys_made run.todo run.doing refl

destroy_media_thread_lem_example :
    (ds : List Deed) × (destroy_media_thread 401 places leftover ≡ some ds)
    × (is_sound everything ds ≡ (is_nil (encoded ∷ []) && is_nil {A = Frame} []))
destroy_media_thread_lem_example =
    destroy_media_thread_lem 401 places leftover 0 1 (picture ∷ []) (encoded ∷ []) [] [] refl refl
      (omega arith) (λ e. absurd (omega (arith, e))) (λ e. absurd (omega (arith, e))) leftover-Found

-- A report while the queues are used, then the end.
abbrev busy : Others
busy = record { stops = false; yuv = []; pcm = []; ve = Fifo.puts picture ∷ []; ae = []; pool = [] }

abbrev sight : ℕ → Sight ℕ
sight n = record { streamer = connected; now = pos n }

abbrev key : ℕ → Key ℕ
key c = record {
  others = busy;
  char = pos c;
  for_factor = sight 5000000;
  for_video = sight 5000001;
  for_audio = sight 5000002;
  for_reset = connected;
  clock = λ i. pos 6000000;
}

abbrev typed : List (Key ℕ)
typed = key 105 ∷ key 113 ∷ []

abbrev rate : ℕ → ℤ → ℕ
rate size time = size

abbrev factor : ℕ → ℤ → ℕ
factor wait time = wait

abbrev commanded : Commanded ℕ ℕ
commanded = record { cont = cont; reports = []; renewed = [] }

quit_inside : AllInside (key 113 ∷ [])
quit_inside = ((1, refl, omega arith), (0, refl, omega arith), tt)

commands_lem_example : Answer rate factor commanded typed
commands_lem_example =
    commands_lem rate factor typed commanded refl
      ((1, refl, omega arith), (0, refl, omega arith), quit_inside)
