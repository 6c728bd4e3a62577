-- ===== src/FrameQueue/Lost.antt =====
-- A full mediaFrameQueue: `enqueue` tests the room once, before its wait, and ignores what `put`
-- returns after it.
use koala_streamer.Prelude.{ℕ, ◌≤◌, ◌≡◌, ◌≢◌, ap, ◌∙◌, List, [], arith, length}
use koala_streamer.Deadline.{Timeval, Timespec, make_abstime_latems, make_abstime_latems_lem}
use koala_streamer.Fifo.Spec.{offer, serve_all}
use koala_streamer.FrameQueue.{FrameQueue, Moment, timed_out, failed, ok, enqueue}
use koala_streamer.FrameQueue.Refine.{Represents, waited, enqueued, enqueue_refines}

-- What POSIX says of `pthread_cond_timedwait`: it refuses a deadline whose nanoseconds are not
-- below 10^9 at once, with EINVAL.
abbrev pub RefusesInvalid {ℓ} : {A : Type ℓ} → Moment A → Type ℓ
RefusesInvalid m = (t : Timespec) → 1000000000 ≤ t.nsec → m.timedwait t ≡ ([], failed)

at_second : (t : Timeval) → t.usec ≡ 990000 → 1000000000 ≤ (make_abstime_latems t 10).nsec
at_second t h = omega (arith, (make_abstime_latems_lem t 10 (omega arith)).2.1 (omega arith))

module _ {ℓ} {A : Type ℓ} where
  enqueued_lost :
      (c : ℕ) (xs : List A) (x : A) (m : Moment A)
      → length xs ≡ c
      → length (waited c xs m).1 ≡ c
      → (waited c xs m).0 ≢ timed_out
      → enqueued c xs x m ≡ (ok, (waited c xs m).1)
  unfolding offer
  enqueued_lost c xs x m full still wake = ground arith

  -- The defect: when the wait on a full queue ends otherwise than by a timeout and nobody has made
  -- room (a wakeup that is spurious, or whose room another producer took), `enqueue` reports
  -- success, and the frame is not in the queue.
  pub enqueue_lost :
      (c : ℕ) (q : FrameQueue A) (xs : List A) (x : A) (m : Moment A)
      → Represents q.queue c xs
      → length xs ≡ c
      → length (waited c xs m).1 ≡ c
      → (waited c xs m).0 ≢ timed_out
      → ((enqueue q x m).0 ≡ ok) × Represents (enqueue q x m).1.queue c (waited c xs m).1
  enqueue_lost c q xs x m r full still wake =
      rw (enqueued_lost c xs x m full still wake) at (enqueue_refines c q xs x m r)

  -- The same without any other thread: every call on a full queue at 990000 microseconds past a
  -- second asks for a deadline that POSIX refuses, and loses its frame.
  pub enqueue_lost_at_second :
      (c : ℕ) (q : FrameQueue A) (xs : List A) (x : A) (m : Moment A)
      → RefusesInvalid m
      → Represents q.queue c xs
      → length xs ≡ c
      → m.now.usec ≡ 990000
      → ((enqueue q x m).0 ≡ ok) × Represents (enqueue q x m).1.queue c xs
  unfolding serve_all
  enqueue_lost_at_second c q xs x m posix r full at_990 =
      let refused = posix (make_abstime_latems m.now 10) (at_second m.now at_990) in
      let unmoved = ap (λ w. (serve_all c xs w.0).1) refused in
      rw unmoved at (
        enqueue_lost c q xs x m r full (ap length unmoved ∙ full)
          (λ e. cc (ap (λ w. w.1) refused, e)))
