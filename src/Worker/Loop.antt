-- ===== src/Worker/Loop.antt =====
-- utils/mediaThread.cpp, mediaThread::run with func, one wait or test at a time, while other threads
-- pause and stop the worker.
use koala_streamer.Prelude.{
  ◌≡◌, ◌≢◌, ◌⊎◌, refl, ap, ◌∙◌, inl, inr, Bool, true, false, Option, none, some, List, [], ◌∷◌,
  arith,
}
use koala_streamer.FrameQueue.{FrameQueue, Moment, enqueue, dequeue}
use koala_streamer.Worker.{
  ThreadStatus, idle, running, paused, stopped, leaves, sleeps, calls_func, run_round, accepted,
  released, retrying, settle,
}
use koala_streamer.Worker.Life.{Call, run, stopped_stays}

-- Where the thread stands: before the test of its loop, with a frame to store, or at its end.
pub data Phase {ℓ} (A : Type ℓ) : Type ℓ where
  testing over : Phase A
  delivering : A → Phase A

-- `released` has the frames that func itself released, not those that enqueue dropped.
pub record Machine {ℓ} (A : Type ℓ) : Type ℓ where
  pub phase : Phase A
  pub status : ThreadStatus
  pub input : FrameQueue A
  pub output : FrameQueue A
  pub released : List A

-- What happens until the status is read next: the calls that other threads make, the wait in
-- dequeue or enqueue, and what `deal` would answer.
pub record Event {ℓ} (A : Type ℓ) : Type ℓ where
  pub calls : List Call
  pub wait : Moment A
  pub deal : A → Option A

abbrev is_stopped : ThreadStatus → Bool
is_stopped stopped = true
is_stopped _ = false

run-stopped : (s : ThreadStatus) (cs : List Call) → s ≡ stopped → (run s cs).0 ≡ stopped
run-stopped s cs h = ap (λ t. (run t cs).0) h ∙ stopped_stays cs

stopped_cases : (s : ThreadStatus) → (s ≡ stopped) ⊎ (s ≢ stopped)
stopped_cases idle = inr (λ e. cc)
stopped_cases running = inr (λ e. cc)
stopped_cases paused = inr (λ e. cc)
stopped_cases stopped = inl refl

module _ {ℓ} {A : Type ℓ} where
  -- What func goes on with.
  unfoldable pub dealt : (A → Option A) → Option A → Phase A
  dealt deal none = testing
  dealt deal (some f) = elim (deal f) [ none ↦ testing | some g ↦ delivering g ]

  -- The test of the loop, and the first half of func.
  unfoldable pub test : Machine A → Event A → Machine A
  unfolding dealt
  test w e =
      let s = (run w.status e.calls).0 in
      let (x, q) = dequeue w.input e.wait in
      elim (run_round s) [
        | leaves ↦ record w { status = s; phase = over }
        | sleeps ↦ record w { status = s }
        | calls_func ↦ record w { status = s; input = q; phase = dealt e.deal x }
      ]

  -- A round of func's own loop.
  unfoldable pub attempt : Machine A → A → Event A → Machine A
  attempt w f e =
      let s = (run w.status e.calls).0 in
      let (status, q) = enqueue w.output f e.wait in
      let (fate, output) = settle status (is_stopped s) q (retrying, q) in
      elim fate [
        | accepted ↦ record w { status = s; output = output; phase = testing }
        | released ↦ record w {
          status = s;
          output = output;
          phase = testing;
          released = f ∷ w.released;
        }
        | retrying ↦ record w { status = s; output = output }
      ]

  unfoldable pub tick : Machine A → Event A → Machine A
  unfolding test attempt
  tick w e = elim w.phase [
    | testing ↦ test w e
    | delivering f ↦ attempt w f e
    | over ↦ record w { status = (run w.status e.calls).0 }
  ]

  unfoldable pub ticks : Machine A → List (Event A) → Machine A
  ticks w [] = w
  ticks w (e ∷ es) = ticks (tick w e) es

  -- Nothing was released, or the thread was told to stop.
  abbrev Keeps : Machine A → Type ℓ
  Keeps w = (w.released ≡ []) ⊎ (w.status ≡ stopped)

  phase_cases : (p : Phase A) → (p ≡ testing) ⊎ ((p ≡ over) ⊎ ((f : A) × (p ≡ delivering f)))
  phase_cases testing = inl refl
  phase_cases over = inr (inl refl)
  phase_cases (delivering f) = inr (inr (f, refl))

  test-status : (w : Machine A) (e : Event A) → (test w e).status ≡ (run w.status e.calls).0
  unfolding test run_round
  test-status w e = ground arith

  attempt-status :
      (w : Machine A) (f : A) (e : Event A) → (attempt w f e).status ≡ (run w.status e.calls).0
  unfolding attempt settle
  attempt-status w f e = ground arith

  tick-status : (w : Machine A) (e : Event A) → (tick w e).status ≡ (run w.status e.calls).0
  unfolding tick
  tick-status w e = ground (arith, test-status w e, attempt-status w)

  test-released : (w : Machine A) (e : Event A) → (test w e).released ≡ w.released
  unfolding test run_round
  test-released w e = ground arith

  attempt-Keeps : (w : Machine A) (f : A) (e : Event A) → w.released ≡ [] → Keeps (attempt w f e)
  unfolding attempt settle
  attempt-Keeps w f e h = ground (arith, h)

  tick-Keeps : (w : Machine A) (e : Event A) → Keeps w → Keeps (tick w e)
  unfolding tick
  tick-Keeps w e (inr h) = inr (tick-status w e ∙ run-stopped w.status e.calls h)
  tick-Keeps w e (inl h) = elim (phase_cases w.phase) [
    | inl at_test ↦ inl (rw (at_test, tick) (test-released w e ∙ h))
    | inr (inl at_end) ↦ inl (rw (at_end, tick) h)
    | inr (inr (f, holds)) ↦ rw (holds, tick) (attempt-Keeps w f e h)
  ]

  ticks-Keeps : (es : List (Event A)) (w : Machine A) → Keeps w → Keeps (ticks w es)
  unfolding ticks
  ticks-Keeps [] w h = h
  ticks-Keeps (e ∷ es) w h = ticks-Keeps es (tick w e) (tick-Keeps w e h)

  test-over : (w : Machine A) (e : Event A) → w.status ≡ stopped → (test w e).phase ≡ over
  unfolding test run_round
  test-over w e h = rw (run-stopped w.status e.calls h, test) refl

  attempt-ends :
      (w : Machine A) (f : A) (e : Event A) → w.status ≡ stopped → (attempt w f e).phase ≡ testing
  unfolding attempt settle
  attempt-ends w f e h = ground (arith, run-stopped w.status e.calls h)

  tick-over : (w : Machine A) (e : Event A) → w.phase ≡ over → (tick w e).phase ≡ over
  unfolding tick
  tick-over w e h = rw (h, tick) h

  tick-tested :
      (w : Machine A) (e : Event A)
      → w.phase ≡ testing
      → w.status ≡ stopped
      → (tick w e).phase ≡ over
  unfolding tick
  tick-tested w e h stop = rw (h, tick) (test-over w e stop)

  tick-delivered :
      (w : Machine A) (f : A) (e : Event A)
      → w.phase ≡ delivering f
      → w.status ≡ stopped
      → (tick w e).phase ≡ testing
  unfolding tick
  tick-delivered w f e h stop = rw (h, tick) (attempt-ends w f e stop)

  leaves_in_two :
      (w : Machine A) (e₁ e₂ : Event A) → w.status ≡ stopped → (tick (tick w e₁) e₂).phase ≡ over
  leaves_in_two w e₁ e₂ stop =
      let still = tick-status w e₁ ∙ run-stopped w.status e₁.calls stop in
      elim (phase_cases w.phase) [
        | inl at_test ↦ tick-over (tick w e₁) e₂ (tick-tested w e₁ at_test stop)
        | inr (inl at_end) ↦ tick-over (tick w e₁) e₂ (tick-over w e₁ at_end)
        | inr (inr (f, holds)) ↦ tick-tested (tick w e₁) e₂ (tick-delivered w f e₁ holds stop) still
      ]

  -- Whatever other threads call, whatever they do to the queues meanwhile and whatever `deal`
  -- answers: func, which had released none of the frames that `deal` handed on, releases none before
  -- the worker is told to stop (those that enqueue drops while it returns 0 are not released), and
  -- once it was told so, its thread is over after at most two more tests or waits.
  pub worker_leaves :
      (w : Machine A) (es : List (Event A)) (e₁ e₂ : Event A)
      → w.released ≡ []
      → (((ticks w es).status ≢ stopped) × ((ticks w es).released ≡ []))
        ⊎ (((ticks w es).status ≡ stopped) × ((tick (tick (ticks w es) e₁) e₂).phase ≡ over))
  worker_leaves w es e₁ e₂ h = elim (stopped_cases (ticks w es).status) [
    | inl stop ↦ inr (stop, leaves_in_two (ticks w es) e₁ e₂ stop)
    | inr on ↦ elim (ticks-Keeps es w (inl h)) [
      | inl kept ↦ inl (on, kept)
      | inr stop ↦ absurd (on stop)
    ]
  ]
