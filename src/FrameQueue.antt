-- ===== src/FrameQueue.antt =====
-- utils/mediaThread.cpp, class mediaFrameQueue: a StreamerFiFo under a mutex, with timed waits.
-- Every call is one critical section, but a wait gives the mutex away: what the other threads do
-- to the queue meanwhile, and how the wait ends, is the environment's (`Moment`).
pub mod Refine
pub mod Lost
pub mod Clean
use koala_streamer.Prelude.{
  ℕ, zero, suc, ◌+◌, Bool, true, false, not, Option, none, some, List, [], ◌∷◌, bit_and, ltb, ◌==◌,
  if◌then◌else◌,
}
use koala_streamer.Deadline.{Timeval, Timespec, make_abstime_latems}
use koala_streamer.Fifo.{Fifo, Op, step}
use koala_streamer.Fifo

-- `capacity` is the member `mCapacity`, which no operation reads.
pub record FrameQueue {ℓ} (A : Type ℓ) : Type ℓ where
  pub queue : Fifo A
  pub capacity : ℕ

-- How `pthread_cond_timedwait` returns: 0, ETIMEDOUT, or another error code.
pub data Wake : Type 0 where
  woken timed_out failed : Wake

-- The time at which a call waits, and for each deadline what the other threads do to the queue
-- before the mutex is held again, and how the wait returns.
pub record Moment {ℓ} (A : Type ℓ) : Type ℓ where
  pub now : Timeval
  pub timedwait : Timespec → List (Op A) × Wake

-- `enqueue` returns 0 or -ETIMEDOUT.
pub data Status : Type 0 where
  ok timeout : Status

module _ {ℓ} {A : Type ℓ} where
  unfoldable pub after : Fifo A → List (Op A) → Fifo A
  after q [] = q
  after q (op ∷ ops) = after (step q op).1 ops

  unfoldable pub create : ℕ → List A → FrameQueue A
  create capacity cells = record { queue = Fifo.create capacity cells; capacity = capacity }

  unfoldable pub get_size : FrameQueue A → ℕ
  get_size q = q.queue.size

  -- The wait of 10 ms that both calls make.
  unfoldable pub wait : FrameQueue A → Moment A → Wake × FrameQueue A
  wait q m =
      let (others, wake) = m.timedwait (make_abstime_latems m.now 10) in
      (wake, record q { queue = after q.queue others })

  -- The result of `put` is ignored, as in the source.
  unfoldable pub put_signal : FrameQueue A → A → Status × FrameQueue A
  put_signal q x = (ok, record q { queue = (Fifo.put q.queue x).1 })

  enqueue_woken : Wake → FrameQueue A → A → Status × FrameQueue A
  enqueue_woken timed_out q x = (timeout, q)
  enqueue_woken woken q x = put_signal q x
  enqueue_woken failed q x = put_signal q x

  unfoldable pub enqueue : FrameQueue A → A → Moment A → Status × FrameQueue A
  unfolding put_signal enqueue_woken
  enqueue q x m =
      let (wake, q') = wait q m in
      if Fifo.is_full q.queue then enqueue_woken wake q' x else put_signal q x

  unfoldable pub get_signal : FrameQueue A → Option A × FrameQueue A
  get_signal q = let (x, fifo) = Fifo.get q.queue in (x, record q { queue = fifo })

  dequeue_woken : Wake → FrameQueue A → Option A × FrameQueue A
  dequeue_woken timed_out q = (none, q)
  dequeue_woken woken q = get_signal q
  dequeue_woken failed q = get_signal q

  unfoldable pub dequeue : FrameQueue A → Moment A → Option A × FrameQueue A
  unfolding get_signal dequeue_woken
  dequeue q m =
      let (wake, q') = wait q m in
      if Fifo.is_empty q.queue then dequeue_woken wake q' else get_signal q

-- CLEAN_FLAG_CLEAN and CLEAN_FLAG_STOP.
abbrev pub flag_clean : ℕ
flag_clean = 1

abbrev pub flag_stop : ℕ
flag_stop = 2

abbrev pub has : ℕ → ℕ → Bool
has flag bit = not (bit_and flag bit == 0)

-- A callback `cleanIt` reads and updates what its argument points to; no callback cleans all.
abbrev pub CleanIt {ℓ} : Type ℓ → Type 0 → Type ℓ
CleanIt A S = Option (S → A → S × ℕ)

-- What `cleanIf` did: the frames that it released, in order, the callback's argument, the queue.
pub record Cleaned {ℓ} (A : Type ℓ) (S : Type 0) : Type ℓ where
  pub released : List A
  pub arg : S
  pub fifo : Fifo A

module _ {ℓ} {A : Type ℓ} {S : Type 0} where
  abbrev pub verdict : CleanIt A S → S → A → S × ℕ
  verdict none s x = (s, flag_clean)
  verdict (some func) s x = func s x

  unfoldable pub also_released : A → Option (Cleaned A S) → Option (Cleaned A S)
  also_released x none = none
  also_released x (some c) = some (record c { released = x ∷ c.released })

  -- The loop; `none` means that the fuel ran out (or that an index left the array).
  unfoldable pub clean_loop : ℕ → CleanIt A S → S → Fifo A → Option (Cleaned A S)
  unfolding also_released
  clean_loop zero func s q = none
  clean_loop (suc fuel) func s q =
      if not (ltb 0 q.size)
      then some (record { released = []; arg = s; fifo = q })
      else elim (Fifo.peak q) [
        | none ↦ none
        | some x ↦
            let (s', flag) = verdict func s x in
            let q' = (Fifo.get q).1 in
            let popped = also_released x (clean_loop fuel func s' q') in
            let again = clean_loop fuel func s' q in
            if has flag flag_clean
            then (if has flag flag_stop
                then some (record { released = x ∷ []; arg = s'; fifo = q' })
                else popped)
            else (if has flag flag_stop
                then some (record { released = []; arg = s'; fifo = q })
                else again)
      ]

  unfoldable pub clean_if : ℕ → CleanIt A S → S → FrameQueue A → Option (Cleaned A S)
  unfolding clean_loop
  clean_if fuel func s q = clean_loop fuel func s q.queue
