-- ===== src/Trim.antt =====
-- MacRTMPStreamer.cpp, the callbacks with which ff_read_devices shortens the two queues of encoded
-- frames: myCleanQueueV, myCleanQueueA.
use koala_streamer.Prelude.{
  ℕ, zero, suc, ◌+◌, ◌<◌, ◌≡◌, refl, subst, Bool, true, false, ◌||◌, some, List, [], ◌∷◌, ◌++◌,
  arith, ltb, ◌==◌, if◌then◌else◌, length, take, drop,
}
use koala_streamer.Prelude.Int.{is_zero}
use koala_streamer.Frame.{Frame}
use koala_streamer.FrameQueue.{FrameQueue, flag_clean, flag_stop, clean_if}
use koala_streamer.FrameQueue.Refine.{Represents}
use koala_streamer.FrameQueue.Clean.{Swept, sweep, Progresses, Did, clean_if_lem}

-- The argument is the number of frames cleaned so far.
pub my_clean_queue_v : ℕ → Frame → ℕ × ℕ
my_clean_queue_v size f =
    if is_zero f.flag || size == 0 then (size + 1, flag_clean) else (size, flag_stop)

pub my_clean_queue_a : ℕ → Frame → ℕ × ℕ
my_clean_queue_a size f = if ltb size 100 then (size + 1, flag_clean) else (size, flag_stop)

-- What ff_read_devices does to a queue of encoded video frames with more than 80 of them, and to
-- one of encoded audio frames with more than 300.
abbrev pub is_key : Frame → Bool
is_key f = if is_zero f.flag then false else true

-- No key frame is in the list.
abbrev pub NoKey : List Frame → Type 0
NoKey [] = Unit
NoKey (f ∷ fs) = (is_key f ≡ false) × NoKey fs

-- The list is empty or begins with a key frame.
abbrev pub StartsAtKey : List Frame → Type 0
StartsAtKey [] = Unit
StartsAtKey (f ∷ fs) = is_key f ≡ true

-- Cutting `xs` just before its first key frame, from a count of `n` on.
pub record Cut (n : ℕ) (xs : List Frame) (w : Swept Frame ℕ) : Type 0 where
  pub whole : w.released ++ w.kept ≡ xs
  pub dropped : NoKey w.released
  pub starts : StartsAtKey w.kept
  pub counted : w.arg ≡ n + length w.released

sweep_v-Cut : (n : ℕ) (xs : List Frame) → 0 < n → Cut n xs (sweep (some my_clean_queue_v) n xs)
unfolding sweep my_clean_queue_v
sweep_v-Cut n [] h = record { whole = refl; dropped = tt; starts = tt; counted = omega arith }
sweep_v-Cut n (f ∷ fs) h = ground (arith, sweep_v-Cut (n + 1) fs (omega arith))

pub progress_v : Progresses (some my_clean_queue_v)
unfolding my_clean_queue_v
progress_v n f = ground arith

pub progress_a : Progresses (some my_clean_queue_a)
unfolding my_clean_queue_a
progress_a n f = ground arith

sweep_a-take-drop :
    (xs : List Frame) (k n : ℕ)
    → n + k ≡ 100
    → let w = sweep (some my_clean_queue_a) n xs in (w.released ≡ take k xs) × (w.kept ≡ drop k xs)
unfolding sweep my_clean_queue_a
sweep_a-take-drop [] zero n h = (refl, refl)
sweep_a-take-drop [] (suc k) n h = (refl, refl)
sweep_a-take-drop (f ∷ fs) zero n h = ground arith
sweep_a-take-drop (f ∷ fs) (suc k) n h =
    ground (arith, sweep_a-take-drop fs k (n + 1) (omega arith))

-- Shortening the video queue ends; it releases the oldest frame and after it all frames up to the
-- next key frame, so that what is left, in order, is nothing or begins with a key frame.
pub trim_video_lem :
    (c fuel : ℕ) (q : FrameQueue Frame) (f : Frame) (fs : List Frame)
    → Represents q.queue c (f ∷ fs)
    → suc (length fs) < fuel
    → (dropped kept : List Frame) × Did
        (clean_if fuel (some my_clean_queue_v) 0 q)
        c
        (record { released = f ∷ dropped; arg = suc (length dropped); kept = kept })
      × (dropped ++ kept ≡ fs)
      × NoKey dropped
      × StartsAtKey kept
unfolding my_clean_queue_v sweep
trim_video_lem c fuel q f fs r h =
    let cut = sweep_v-Cut 1 fs (omega arith) in
    let w = sweep (some my_clean_queue_v) 1 fs in
    (
      w.released,
      w.kept,
      subst (Did _ c) {x = sweep (some my_clean_queue_v) 0 (f ∷ fs)} (ground (arith, cut.counted))
          (clean_if_lem (some my_clean_queue_v) progress_v c fuel 0 q (f ∷ fs) r h),
      cut.whole,
      cut.dropped,
      cut.starts,
    )

-- Shortening the audio queue ends; it releases exactly the oldest hundred frames, or all if there
-- are fewer, and leaves the others in order.
pub trim_audio_lem :
    (c fuel : ℕ) (q : FrameQueue Frame) (fs : List Frame)
    → Represents q.queue c fs
    → length fs < fuel
    → (n : ℕ) × Did
        (clean_if fuel (some my_clean_queue_a) 0 q)
        c
        (record { released = take 100 fs; arg = n; kept = drop 100 fs })
trim_audio_lem c fuel q fs r h =
    let w = sweep (some my_clean_queue_a) 0 fs in
    let cut = sweep_a-take-drop fs 100 0 refl in
    (
      w.arg,
      subst (Did _ c) {x = w} (λ i. record { released = cut.0 i; arg = w.arg; kept = cut.1 i })
          (clean_if_lem (some my_clean_queue_a) progress_a c fuel 0 q fs r h),
    )
