-- ===== src/App/Main/Order.antt =====
-- MacRTMPStreamer.cpp, main: a test of the order of its deeds, whether an object is there whenever a
-- thread that may run can use it.
pub mod Steps
use koala_streamer.Prelude.{
  ℕ, ◌≡◌, refl, sym, ap, ◌∙◌, subst, Bool, true, false, not, ◌&&◌, ◌||◌, Option, none, some, List,
  [], ◌∷◌, ◌==◌, if◌then◌else◌, arith, Bool-cases, inl, inr,
}
use koala_streamer.Streamer.{StreamerStatus}
use koala_streamer.App.{StreamerCont}
use koala_streamer.App.Main.{
  Object, Thread, capturing, preparing, muxing, encoding_video, encoding_audio, Deed, makes, uses,
  deletes, starts, tells, joins, waits_stop,
}
use koala_streamer.App.Main.Uses.{thread_number, same_object, same_thread, at_object, at_thread}
use koala_streamer.App.Main.Threads.{
  World, Step, made, used, deleted, started, prepared, told, joined, heard, stops, touches, begins,
  spawns, ends, Reach, here, next, before,
}

-- A start of the prepare thread starts the muxing thread too, which it creates.
abbrev pub also_runs : Thread → Thread → Bool
also_runs preparing muxing = true
also_runs t u = same_thread t u

-- After a join the muxing thread may be created again as long as the prepare thread may run.
abbrev pub still_runs : (Thread → Bool) → Thread → Thread → Bool
still_runs r t u =
    if same_thread t u then (if same_thread u muxing then r preparing else false) else r u

abbrev pub runs_after : (Thread → Bool) → Thread → Thread → Bool
runs_after r t u = if also_runs t u then true else r u

-- Whether `o` is there while `t` may run: `r` has the threads that may run, `a` whether `o` is there.
unfoldable pub in_order : Thread → Object → (Thread → Bool) → Bool → List Deed → Bool
in_order t o r a [] = true
in_order t o r a (makes x ∷ ds) = in_order t o r (if same_object x o then true else a) ds
in_order t o r a (uses x ∷ ds) = in_order t o r a ds
in_order t o r a (deletes x ∷ ds) =
    if same_object x o then not (r t) && in_order t o r false ds else in_order t o r a ds
in_order t o r a (starts u ∷ ds) =
    (not (runs_after r u t) || a) && in_order t o (runs_after r u) a ds
in_order t o r a (tells u ∷ ds) = in_order t o r a ds
in_order t o r a (joins u ∷ ds) = in_order t o (still_runs r u) a ds
in_order t o r a (waits_stop ∷ ds) = in_order t o r a ds

abbrev pub nobody : Thread → Bool
nobody t = false

abbrev thread_of : ℕ → Thread
thread_of n =
    if n == 0
    then capturing
    else if n == 1
    then preparing
    else if n == 2
    then muxing
    else if n == 3
    then encoding_video
    else encoding_audio

thread_of-number : (t : Thread) → thread_of (thread_number t) ≡ t
thread_of-number capturing = refl
thread_of-number preparing = refl
thread_of-number muxing = refl
thread_of-number encoding_video = refl
thread_of-number encoding_audio = refl

pub same_thread-eq : (t u : Thread) → same_thread t u ≡ true → t ≡ u
same_thread-eq t u h =
    let e : thread_number t ≡ thread_number u = ground (arith, h) in
    sym (thread_of-number t) ∙ ap thread_of e ∙ thread_of-number u

pub and_left : (a b : Bool) → (a && b) ≡ true → a ≡ true
and_left a b h = ground (arith, h)

pub and_right : (a b : Bool) → (a && b) ≡ true → b ≡ true
and_right a b h = ground (arith, h)

pub also_runs_self : (u : Thread) → also_runs u u ≡ true
also_runs_self capturing = refl
also_runs_self preparing = refl
also_runs_self muxing = refl
also_runs_self encoding_video = refl
also_runs_self encoding_audio = refl

module _ (r : Thread → Bool) where
  pub runs_after-keeps : (u v : Thread) → r v ≡ true → runs_after r u v ≡ true
  runs_after-keeps u v h = ground (arith, h)

  pub runs_after-spawns :
      (u : Thread)
      → (r preparing ≡ true → r muxing ≡ true)
      → runs_after r u preparing ≡ true
      → runs_after r u muxing ≡ true
  runs_after-spawns capturing h k = h k
  runs_after-spawns preparing h k = refl
  runs_after-spawns muxing h k = refl
  runs_after-spawns encoding_video h k = h k
  runs_after-spawns encoding_audio h k = h k

  still_runs-muxing :
      (u : Thread)
      → (r preparing ≡ true → r muxing ≡ true)
      → still_runs r u muxing ≡ true
      → r muxing ≡ true
  still_runs-muxing capturing h k = k
  still_runs-muxing preparing h k = k
  still_runs-muxing muxing h k = h k
  still_runs-muxing encoding_video h k = k
  still_runs-muxing encoding_audio h k = k

  pub still_runs-fewer :
      (u v : Thread) → (r preparing ≡ true → r muxing ≡ true) → still_runs r u v ≡ true → r v ≡ true
  still_runs-fewer u v h k = elim (Bool-cases (same_thread v muxing)) [
    | inl e ↦
        let same = same_thread-eq v muxing e in
        rw same (still_runs-muxing u h (subst (λ z. still_runs r u z ≡ true) same k))
    | inr e ↦ ground (arith, k, e)
  ]

  pub still_runs-spawns :
      (u : Thread)
      → (r preparing ≡ true → r muxing ≡ true)
      → still_runs r u preparing ≡ true
      → still_runs r u muxing ≡ true
  still_runs-spawns capturing h k = h k
  still_runs-spawns preparing h k = cc
  still_runs-spawns muxing h k = k
  still_runs-spawns encoding_video h k = h k
  still_runs-spawns encoding_audio h k = h k
