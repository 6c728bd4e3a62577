-- ===== src/Worker/Deliver.antt =====
-- The delivery of a frame against the list of frames that the output queue stores.
use koala_streamer.Prelude.{ℕ, ◌≡◌, ◌≢◌, ◌⊎◌, inl, inr, refl, Bool, true, false, List, [], ◌∷◌}
use koala_streamer.FrameQueue.{FrameQueue, Moment, Status, ok, timeout, enqueue}
use koala_streamer.FrameQueue.Refine.{Represents, enqueued, enqueue_refines}
use koala_streamer.Worker.{Fate, retrying, settle, deliver}

settle-ends {ℓ} :
    {Q : Type ℓ} (status : Status) (stopping : Bool) (q : Q) (rest : Fate × Q)
    → (stopping ≡ true) ⊎ (rest.0 ≢ retrying)
    → (settle status stopping q rest).0 ≢ retrying
unfolding settle
settle-ends ok stopping q rest h = λ e. cc
settle-ends timeout true q rest h = λ e. cc
settle-ends timeout false q rest (inl e) = cc
settle-ends timeout false q rest (inr h) = h

module _ {ℓ} {A : Type ℓ} where
  -- The delivery on the list of stored frames.
  unfoldable pub delivered : ℕ → List A → A → List (Moment A × Bool) → Fate × List A
  delivered c xs x [] = (retrying, xs)
  delivered c xs x ((m, stopping) ∷ attempts) =
      let (status, ys) = enqueued c xs x m in settle status stopping ys (delivered c ys x attempts)

  -- Some attempt finds the thread told to stop.
  abbrev pub Stops : List (Moment A × Bool) → Type 0
  Stops [] = ⊥
  Stops ((m, stopping) ∷ attempts) = (stopping ≡ true) ⊎ Stops attempts

  deliver-ends :
      (q : FrameQueue A) (x : A) (attempts : List (Moment A × Bool))
      → Stops attempts
      → (deliver q x attempts).0 ≢ retrying
  unfolding deliver
  deliver-ends q x [] h = elim h [ ]
  deliver-ends q x ((m, stopping) ∷ attempts) (inl now) =
      settle-ends (enqueue q x m).0 stopping _ _ (inl now)
  deliver-ends q x ((m, stopping) ∷ attempts) (inr later) =
      settle-ends (enqueue q x m).0 stopping _ _
        (inr (deliver-ends (enqueue q x m).1 x attempts later))

  -- Two results agree: the fates are the same, and the queue stores the list.
  abbrev pub Agrees : ℕ → Fate × FrameQueue A → Fate × List A → Type ℓ
  Agrees c u v = (u.0 ≡ v.0) × Represents u.1.queue c v.1

  settle-Agrees :
      (c : ℕ) (a b : Status) (stopping : Bool) (q : FrameQueue A) (xs : List A)
      (u : Fate × FrameQueue A) (v : Fate × List A)
      → a ≡ b
      → Represents q.queue c xs
      → Agrees c u v
      → Agrees c (settle a stopping q u) (settle b stopping xs v)
  unfolding settle
  settle-Agrees c ok ok stopping q xs u v e r h = (refl, r)
  settle-Agrees c timeout timeout true q xs u v e r h = (refl, r)
  settle-Agrees c timeout timeout false q xs u v e r h = h
  settle-Agrees c ok timeout stopping q xs u v e r h = cc
  settle-Agrees c timeout ok stopping q xs u v e r h = cc

  deliver_refines :
      (c : ℕ) (q : FrameQueue A) (xs : List A) (x : A) (attempts : List (Moment A × Bool))
      → Represents q.queue c xs
      → Agrees c (deliver q x attempts) (delivered c xs x attempts)
  unfolding deliver delivered
  deliver_refines c q xs x [] r = (refl, r)
  deliver_refines c q xs x ((m, stopping) ∷ attempts) r =
      let (same, first) = enqueue_refines c q xs x m r in
      settle-Agrees c (enqueue q x m).0 (enqueued c xs x m).0 stopping _ _ _ _ same first
        (deliver_refines c (enqueue q x m).1 (enqueued c xs x m).1 x attempts first)

  -- The delivery of a frame ends, with a 0 of enqueue or with the release of the frame, once an
  -- attempt finds the thread told to stop; and whatever other threads do during the waits, its fate and
  -- what the queue then stores are those of the same attempts on the list of stored frames, where
  -- enqueue may drop the frame and return 0.
  pub deliver_lem :
      (c : ℕ) (q : FrameQueue A) (xs : List A) (x : A) (attempts : List (Moment A × Bool))
      → Represents q.queue c xs
      → Stops attempts
      → ((deliver q x attempts).0 ≢ retrying)
        × Agrees c (deliver q x attempts) (delivered c xs x attempts)
  deliver_lem c q xs x attempts r stops =
      (deliver-ends q x attempts stops, deliver_refines c q xs x attempts r)
