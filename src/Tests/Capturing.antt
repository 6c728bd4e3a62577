-- ===== src/Tests/Capturing.antt =====
-- The capturing thread at concrete packets.
use koala_streamer.Prelude.{
  ℕ, ◌≡◌, ◌≢◌, ◌⊎◌, refl, inl, inr, true, false, none, some, List, [], ◌∷◌, replicate,
  length-replicate, arith,
}
use koala_streamer.Prelude.Int.{pos, negsuc, is_zero, is_neg}
use koala_streamer.Fifo.Inv.{create-IsValid}
use koala_streamer.Fifo.Spec.{serve_all}
use koala_streamer.Fifo
use koala_streamer.Frame.{Frame, blank}
use koala_streamer.FrameQueue.{FrameQueue, Moment, timed_out}
use koala_streamer.FrameQueue
use koala_streamer.FrameQueue.Refine.{Represents}
use koala_streamer.Stack
use koala_streamer.App.{StreamerCont}
use koala_streamer.App.Input.{
  InputStream, no_input, open_input, picture, sound, Chose, open_input_lem,
}
use koala_streamer.App.Source.{fetch, waiting, gave_up, fetched_of, retried, fetch_lem}
use koala_streamer.App.Encoder.{video, other}
use koala_streamer.App.Capture.{Addresses, Met, Others, Round, read_round, read_devices}
use koala_streamer.App.Capture.Refine.{View, Shows}
use koala_streamer.App.Capture.Refine.Loop.{views_of, RanAs, read_devices_refines}
use koala_streamer.App.Capture.Refine.Ends.{Loses, read_round-Loses}

abbrev pub empty : ℕ → FrameQueue Frame
empty n = FrameQueue.create n (replicate n blank)

pub empty-Represents : (n : ℕ) → Represents (empty n).queue n []
unfolding Fifo.create FrameQueue.create
empty-Represents n = record {
  valid = create-IsValid n (replicate n blank) (omega (arith, length-replicate n blank));
  holds = record { window = tt; sized = refl };
  same = refl;
}

-- Five frames wait for the encoder.
abbrev full : FrameQueue Frame
full = record {
  queue = record {
    capacity = 5;
    header = 0;
    tail = 0;
    cells = blank ∷ blank ∷ blank ∷ blank ∷ blank ∷ [];
    size = 5;
  };
  capacity = 5;
}

full-Represents : Represents full.queue 5 (blank ∷ blank ∷ blank ∷ blank ∷ blank ∷ [])
full-Represents = record {
  valid = omega arith;
  holds = record { window = (refl, (refl, (refl, (refl, (refl, tt))))); sized = refl };
  same = refl;
}

abbrev pub cont : StreamerCont
cont = record {
  stop = false;
  video_index = pos 0;
  audio_index = pos 1;
  yuv_queue = some full;
  ae_queue = some (empty 400);
  pcm_queue = some (empty 20);
  ve_queue = some (empty 100);
  frame_stack = Stack.create 500 (replicate 500 blank);
}

abbrev view : View
view = record {
  stop = false;
  video_index = pos 0;
  audio_index = pos 1;
  yuv = some (blank ∷ blank ∷ blank ∷ blank ∷ blank ∷ []);
  pcm = some [];
  ve = some [];
  ae = some [];
  pool = [];
}

cont-Shows : Shows cont view
unfolding Stack.create
cont-Shows = record {
  stop = refl;
  video_index = refl;
  audio_index = refl;
  yuv = full-Represents;
  pcm = empty-Represents 20;
  ve = empty-Represents 100;
  ae = empty-Represents 400;
  pool = record {
    holds = tt;
    sized = refl;
    bounded = omega arith;
    same = refl;
    room = length-replicate {A = Frame} 500 blank;
  };
}

abbrev pub addresses : Addresses
addresses = record { release_pkt = 1; self = 2 }

-- A picture, and a wait in which no other thread takes a frame.
abbrev met : Met
met = record {
  packet = record {
    address = 3;
    data_at = some 4;
    contents = 7 ∷ 7 ∷ [];
    pts = pos 0;
    dts = pos 0;
    flags = 1;
    stream_index = pos 0;
  };
  fresh = blank;
  wait = record { now = record { sec = 7; usec = 0 }; timedwait = λ t. ([], timed_out) };
}

abbrev idle : Others
idle = record { stops = false; yuv = []; pcm = []; ve = []; ae = []; pool = [] }

abbrev pub rounds : List (Others × Met)
rounds =
    (idle, met)
    ∷ (record idle { yuv = Fifo.gets ∷ [] }, met)
    ∷ (record idle { stops = true }, met)
    ∷ []

read_devices_refines_example :
    RanAs (read_devices addresses 401 cont rounds) (views_of addresses view rounds)
read_devices_refines_example =
    read_devices_refines addresses 401 rounds cont view (omega arith) cont-Shows

read_round-Loses_example :
    (r : Round) × (read_round addresses 401 cont met ≡ some r)
    × Loses view met (blank ∷ blank ∷ blank ∷ blank ∷ blank ∷ []) r
read_round-Loses_example =
    read_round-Loses addresses 401 cont view met (blank ∷ blank ∷ blank ∷ blank ∷ blank ∷ [])
      (omega arith) cont-Shows refl refl refl refl

-- The first attempt's wait times out, the second finds `stop` set.
abbrev late : Moment Frame
late = record { now = record { sec = 7; usec = 0 }; timedwait = λ t. ([], timed_out) }

fetch_lem_example :
    ((fetch (empty 100) late ((late, false) ∷ (late, true) ∷ [])).0 ≢ waiting)
    × ((fetch (empty 100) late ((late, false) ∷ (late, true) ∷ [])).0 ≡ gave_up none)
    × Represents (fetch (empty 100) late ((late, false) ∷ (late, true) ∷ [])).1.queue 100 []
unfolding fetched_of retried serve_all
fetch_lem_example =
    fetch_lem 100 (empty 100) [] late ((late, false) ∷ (late, true) ∷ []) (empty-Represents 100)
      (inr (inl refl))

abbrev camera : List InputStream
camera =
    record { address = 1; type = video }
    ∷ record { address = 2; type = video }
    ∷ record { address = 3; type = other }
    ∷ []

open_input_lem_example :
    ((is_zero (pos 0) ≡ true)
      × (is_neg (pos 0) ≡ false)
      × ((open_input (pos 0) (pos 0) camera no_input).0 ≡ pos 0)
      × Chose picture 0 camera no_input (open_input (pos 0) (pos 0) camera no_input).1
      × Chose sound 0 camera no_input (open_input (pos 0) (pos 0) camera no_input).1)
    ⊎ (((is_zero (pos 0) ≡ false) ⊎ (is_neg (pos 0) ≡ true))
        × (open_input (pos 0) (pos 0) camera no_input ≡ (negsuc 0, no_input)))
open_input_lem_example = open_input_lem (pos 0) (pos 0) camera no_input
