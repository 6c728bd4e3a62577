-- ===== src/FrameQueue/Refine.antt =====
-- mediaFrameQueue as a list of frames: what enqueue and dequeue do on every branch, with the
-- calls that other threads make during a wait.
use koala_streamer.Prelude.{
  ℕ, ◌≡◌, subst, ◌∙◌, Option, none, some, List, [], ◌∷◌, ◌++◌, arith, ◌==◌, if◌then◌else◌, length,
}
use koala_streamer.Deadline.{make_abstime_latems}
use koala_streamer.Fifo.{Fifo, Op, step}
use koala_streamer.Fifo
use koala_streamer.Fifo.Inv.{
  IsValid, step-IsValid, put-IsValid, get-IsValid, capacity-step, capacity-put, capacity-get,
}
use koala_streamer.Fifo.Refine.{Holds, step_refines, put_refines, get_refines}
use koala_streamer.Fifo.Spec.{offer, poll, serve, serve_all}
use koala_streamer.FrameQueue.{
  FrameQueue, Moment, Wake, timed_out, Status, ok, timeout, after, wait, enqueue, dequeue,
}

-- The queue is well formed and holds exactly `xs`, oldest first.
pub record Represents {ℓ} {A : Type ℓ} (q : Fifo A) (capacity : ℕ) (xs : List A) : Type ℓ where
  pub valid : IsValid q
  pub holds : Holds q xs
  pub same : q.capacity ≡ capacity

module _ {ℓ} {A : Type ℓ} where
  pub step-Represents :
      {c : ℕ} {q : Fifo A} (op : Op A) (xs : List A)
      → Represents q c xs
      → Represents (step q op).1 c (serve c xs op).1
  step-Represents {q} op xs r = record {
    valid = step-IsValid op r.valid;
    holds =
        subst (λ k. Holds (step q op).1 (serve k xs op).1) r.same
          (step_refines op xs r.valid r.holds).1;
    same = capacity-step q op ∙ r.same;
  }

  pub put-Represents :
      {c : ℕ} {q : Fifo A} (x : A) (xs : List A)
      → Represents q c xs
      → Represents (Fifo.put q x).1 c (offer c xs x).1
  put-Represents {q} x xs r = record {
    valid = put-IsValid x r.valid;
    holds =
        subst (λ k. Holds (Fifo.put q x).1 (offer k xs x).1) r.same
          (put_refines x xs r.valid r.holds).1;
    same = capacity-put q x ∙ r.same;
  }

  pub get-Represents :
      {c : ℕ} {q : Fifo A} (xs : List A)
      → Represents q c xs
      → ((Fifo.get q).0 ≡ (poll xs).0) × Represents (Fifo.get q).1 c (poll xs).1
  get-Represents {q} xs r =
      let got = get_refines xs r.valid r.holds in
      (got.0, record { valid = get-IsValid r.valid; holds = got.1; same = capacity-get q ∙ r.same })

  pub after-Represents :
      (ops : List (Op A)) {c : ℕ} {q : Fifo A} (xs : List A)
      → Represents q c xs
      → Represents (after q ops) c (serve_all c xs ops).1
  unfolding after serve_all
  after-Represents [] xs r = r
  after-Represents (op ∷ ops) {c} xs r =
      after-Represents ops (serve c xs op).1 (step-Represents op xs r)

  -- How a wait of 10 ms from `xs` on ends: how it returns, and what the queue then holds.
  abbrev pub waited : ℕ → List A → Moment A → Wake × List A
  waited c xs m =
      let (others, wake) = m.timedwait (make_abstime_latems m.now 10) in
      (wake, (serve_all c xs others).1)

  -- `enqueue` on the list of stored frames.
  abbrev pub enqueued : ℕ → List A → A → Moment A → Status × List A
  enqueued c xs x m =
      let (wake, ys) = waited c xs m in
      if length xs == c
      then elim wake [ timed_out ↦ (timeout, ys) | _ ↦ (ok, (offer c ys x).1) ]
      else (ok, xs ++ x ∷ [])

  -- `dequeue` on the list of stored frames.
  abbrev pub dequeued : ℕ → List A → Moment A → Option A × List A
  dequeued c [] m =
      let (wake, ys) = waited c [] m in elim wake [ timed_out ↦ (none, ys) | _ ↦ poll ys ]
  dequeued c (x ∷ xs) m = (some x, xs)

  pub enqueue_refines :
      (c : ℕ) (q : FrameQueue A) (xs : List A) (x : A) (m : Moment A)
      → Represents q.queue c xs
      → ((enqueue q x m).0 ≡ (enqueued c xs x m).0)
        × Represents (enqueue q x m).1.queue c (enqueued c xs x m).1
  unfolding enqueue wait Fifo.is_full offer
  enqueue_refines c q xs x m r =
      let (others, wake) = m.timedwait (make_abstime_latems m.now 10) in
      let later = after-Represents others xs r in
      ground (arith, later, put-Represents x xs r, put-Represents x (serve_all c xs others).1 later)

  pub dequeue_refines :
      (c : ℕ) (q : FrameQueue A) (xs : List A) (m : Moment A)
      → Represents q.queue c xs
      → ((dequeue q m).0 ≡ (dequeued c xs m).0)
        × Represents (dequeue q m).1.queue c (dequeued c xs m).1
  unfolding dequeue wait Fifo.is_empty poll
  dequeue_refines c q [] m r =
      let (others, wake) = m.timedwait (make_abstime_latems m.now 10) in
      let later = after-Represents others [] r in
      ground (arith, later, get-Represents (serve_all c [] others).1 later)
  dequeue_refines c q (x ∷ xs) m r = ground (arith, get-Represents (x ∷ xs) r)
