-- ===== src/Worker/Life.antt =====
-- The life of a worker: any history of start, pause and stop.
use koala_streamer.Prelude.{
  ℕ, ◌+◌, ◌≡◌, Bool, true, false, refl, ◌⊎◌, inl, inr, List, [], ◌∷◌, arith,
}
use koala_streamer.Worker.{
  ThreadStatus, idle, running, paused, stopped, Effect, nothing, created, joined, start, pause,
  stop,
}

pub data Call : Type 0 where
  starts pauses stops : Call

unfoldable pub call : ThreadStatus → Call → ThreadStatus × Effect
call s starts = start s
call s pauses = pause s
call s stops = stop s

unfoldable pub run : ThreadStatus → List Call → ThreadStatus × List Effect
run s [] = (s, [])
run s (c ∷ cs) = let (s₁, e) = call s c in let (s₂, es) = run s₁ cs in (s₂, e ∷ es)

-- How many threads the effects create, and how many they join.
unfoldable pub creations : List Effect → ℕ
creations [] = 0
creations (created ∷ es) = 1 + creations es
creations (nothing ∷ es) = creations es
creations (joined ∷ es) = creations es

unfoldable pub joins : List Effect → ℕ
joins [] = 0
joins (joined ∷ es) = 1 + joins es
joins (nothing ∷ es) = joins es
joins (created ∷ es) = joins es

-- Whether a call of start is among the calls, as a number; and one of stop.
unfoldable pub starts_in : List Call → ℕ
starts_in [] = 0
starts_in (starts ∷ cs) = 1
starts_in (pauses ∷ cs) = starts_in cs
starts_in (stops ∷ cs) = starts_in cs

unfoldable pub stops_in : List Call → ℕ
stops_in [] = 0
stops_in (stops ∷ cs) = 1
stops_in (starts ∷ cs) = stops_in cs
stops_in (pauses ∷ cs) = stops_in cs

-- Whether a call of stop comes after the first call of start.
unfoldable pub stops_started : List Call → ℕ
unfolding stops_in
stops_started [] = 0
stops_started (starts ∷ cs) = stops_in cs
stops_started (pauses ∷ cs) = stops_started cs
stops_started (stops ∷ cs) = stops_started cs

stopped_account :
    (cs : List Call) → (creations (run stopped cs).1 ≡ 0) × (joins (run stopped cs).1 ≡ 0)
unfolding run call start pause stop creations joins
stopped_account [] = (refl, refl)
stopped_account (starts ∷ cs) = stopped_account cs
stopped_account (pauses ∷ cs) = stopped_account cs
stopped_account (stops ∷ cs) = stopped_account cs

-- The two statuses of a worker that was started and not stopped.
abbrev alive : Bool → ThreadStatus
alive true = running
alive false = paused

alive_account :
    (cs : List Call) (b : Bool)
    → (creations (run (alive b) cs).1 ≡ 0) × (joins (run (alive b) cs).1 ≡ stops_in cs)
unfolding run call start pause stop creations joins stops_in
alive_account [] b = (refl, refl)
alive_account (starts ∷ cs) true = alive_account cs true
alive_account (starts ∷ cs) false = alive_account cs false
alive_account (pauses ∷ cs) true = alive_account cs false
alive_account (pauses ∷ cs) false = alive_account cs false
alive_account (stops ∷ cs) true = let (a, b) = stopped_account cs in (a, omega arith)
alive_account (stops ∷ cs) false = let (a, b) = stopped_account cs in (a, omega arith)

-- In any history of calls on a new worker, one thread is created if start is ever called and none
-- else, however often; and it is joined once if stop is called after the first call of start, and
-- never else.
pub life_lem :
    (cs : List Call)
    → (creations (run idle cs).1 ≡ starts_in cs) × (joins (run idle cs).1 ≡ stops_started cs)
unfolding run call start pause stop creations joins starts_in stops_started
life_lem [] = (refl, refl)
life_lem (starts ∷ cs) = let (a, b) = alive_account cs true in (omega arith, b)
life_lem (pauses ∷ cs) = life_lem cs
life_lem (stops ∷ cs) = life_lem cs

pub stopped_stays : (cs : List Call) → (run stopped cs).0 ≡ stopped
unfolding run call start pause stop
stopped_stays [] = refl
stopped_stays (starts ∷ cs) = stopped_stays cs
stopped_stays (pauses ∷ cs) = stopped_stays cs
stopped_stays (stops ∷ cs) = stopped_stays cs

-- A worker that is paused never runs again: after any calls it is still paused, or stopped.
pub paused_lem : (cs : List Call) → ((run paused cs).0 ≡ paused) ⊎ ((run paused cs).0 ≡ stopped)
unfolding run call start pause stop
paused_lem [] = inl refl
paused_lem (starts ∷ cs) = paused_lem cs
paused_lem (pauses ∷ cs) = paused_lem cs
paused_lem (stops ∷ cs) = inr (stopped_stays cs)
