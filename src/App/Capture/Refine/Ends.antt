-- ===== src/App/Capture/Refine/Ends.antt =====
-- When the capturing thread ends, and what it loses.
use koala_streamer.Prelude.{
  ℕ, ◌≡◌, ◌<◌, ◌⊎◌, refl, sym, ap, ◌∙◌, subst, inl, inr, true, Option, none, some, List, [], ◌∷◌,
  ◌++◌, ◌==◌, if◌then◌else◌, length, arith, Bool-cases,
}
use koala_streamer.Prelude.Maybe.{◌>>=◌}
use koala_streamer.Fifo.{Op}
use koala_streamer.Frame.{Frame}
use koala_streamer.FrameQueue.{Moment, Status, timed_out, timeout}
use koala_streamer.FrameQueue.Refine.{waited, enqueued}
use koala_streamer.Muxer.{is_some}
use koala_streamer.Stack.Refine as Pool
use koala_streamer.Trim.{my_clean_queue_v, my_clean_queue_a}
use koala_streamer.App.{StreamerCont, yuv_capacity, pcm_capacity, ae_capacity, pool_capacity}
use koala_streamer.App.Capture.{
  same_index, captured, Met, Addresses, Round, read_round, Others, Ran, left, running, read_devices,
}
use koala_streamer.App.Capture.Refine.{
  View, Stores, Shows, shortened, pooled, taken, Viewed, sent, handed, tidied, round_of,
}
use koala_streamer.App.Capture.Refine.Rounds.{RoundAs}
use koala_streamer.App.Capture.Refine.Loop.{
  read_round_refines, listed, viewed_after, views_of, RanAs, read_devices_refines,
}

-- The queues that ff_read_devices hands frames to are there.
abbrev Feeds : View → Type 0
Feeds v = (is_some v.yuv ≡ true) × (is_some v.pcm ≡ true)

-- Some round finds that `stop` was set.
abbrev pub StopsIn : List (Others × Met) → Type 0
StopsIn [] = ⊥
StopsIn ((o, met) ∷ ms) = (o.stops ≡ true) ⊎ StopsIn ms

sent-some :
    (n : ℕ) (o : Option (List Frame)) (f : Frame) (m : Moment Frame)
    → is_some o ≡ true
    → (r : Status × Option (List Frame)) × (sent n o f m ≡ some r) × (is_some r.1 ≡ true)
unfolding sent
sent-some n none f m h = cc
sent-some n (some xs) f m h =
    let (status, ys) = enqueued n xs f m in ((status, some ys), refl, refl)

handed-Feeds :
    (v : View) (f : Frame) (met : Met)
    → Feeds v
    → (l : Viewed) × (handed v f met ≡ some l) × Feeds l.view
unfolding handed
handed-Feeds v f met (yuv, pcm) =
    let (to_yuv, yuv_sent, yuv') = sent-some yuv_capacity v.yuv f met.wait yuv in
    let (to_pcm, pcm_sent, pcm') = sent-some pcm_capacity v.pcm f met.wait pcm in
    elim (Bool-cases (same_index met.packet.stream_index v.video_index)) [
      | inl e ↦ (
        record { view = record v { yuv = to_yuv.1 }; status = some to_yuv.0; released = [] },
        rw (e, yuv_sent) refl,
        (yuv', pcm),
      )
      | inr e ↦ elim (Bool-cases (same_index met.packet.stream_index v.audio_index)) [
        | inl e₁ ↦ (
          record { view = record v { pcm = to_pcm.1 }; status = some to_pcm.0; released = [] },
          rw (e, e₁, pcm_sent) refl,
          (yuv, pcm'),
        )
        | inr e₁ ↦
            (record { view = v; status = none; released = f ∷ [] }, rw (e, e₁) refl, (yuv, pcm))
      ]
    ]

round_of-Feeds :
    (at : Addresses) (v : View) (met : Met)
    → Feeds v
    → (l : Viewed) × (round_of at v met ≡ some l) × Feeds l.view
unfolding round_of tidied
round_of-Feeds at v met h =
    let t = taken v.pool met.fresh in
    let (l, done, feeds) =
      handed-Feeds (record v { pool = t.1 }) (captured at met.packet t.0) met h in
    (tidied l, rw (done, round_of) refl, feeds)

is_some-listed :
    (n : ℕ) (o : Option (List Frame)) (ops : List (Op Frame))
    → is_some o ≡ true
    → is_some (listed n o ops) ≡ true
is_some-listed n none ops h = h
is_some-listed n (some xs) ops h = refl

viewed_after-Feeds : (v : View) (o : Others) → Feeds v → Feeds (viewed_after v o)
unfolding viewed_after
viewed_after-Feeds v o (yuv, pcm) =
    (is_some-listed yuv_capacity v.yuv o.yuv yuv, is_some-listed pcm_capacity v.pcm o.pcm pcm)

viewed_after-stop : (v : View) (o : Others) → o.stops ≡ true → (viewed_after v o).stop ≡ true
unfolding viewed_after
viewed_after-stop v o h = ap (λ b. if b then true else v.stop) h

views_of-left :
    (at : Addresses) (v : View) (ms : List (Others × Met))
    → Feeds v
    → StopsIn ms
    → (v' : View) × (views_of at v ms ≡ some (left v'))
unfolding views_of
views_of-left at v [] feeds stops = elim stops [ ]
views_of-left at v ((o, met) ∷ ms) feeds stops =
    let v₁ = viewed_after v o in
    let (l, done, feeds') = round_of-Feeds at v₁ met (viewed_after-Feeds v o feeds) in
    elim (Bool-cases v₁.stop) [
      | inl e ↦ (
        v₁,
        ap (λ b. if b then some (left v₁) else round_of at v₁ met >>= (λ r. views_of at r.view ms))
            e,
      )
      | inr e ↦ elim stops [
        | inl now ↦ let stopped = viewed_after-stop v o now in cc
        | inr later ↦
            let (v', ends) = views_of-left at l.view ms feeds' later in
            (
              v',
              ap
                    (λ b.
                      if b
                      then some (left v₁)
                      else round_of at v₁ met >>= (λ r. views_of at r.view ms))
                    e
                  ∙ ap (λ o₁. o₁ >>= (λ r. views_of at r.view ms)) done
                  ∙ ends,
            )
      ]
    ]

RanAs-left :
    (o : Option (Ran StreamerCont)) (l : Option (Ran View)) (v : View)
    → RanAs o l
    → l ≡ some (left v)
    → (c : StreamerCont) × (o ≡ some (left c)) × Shows c v
RanAs-left none none v h e = cc
RanAs-left none (some l) v h e = elim h [ ]
RanAs-left (some r) none v h e = cc
RanAs-left (some (left c)) (some (left u)) v h e =
    let same : u ≡ v = cc in (c, refl, subst (Shows c) same h)
RanAs-left (some (left c)) (some (running u)) v h e = elim h [ ]
RanAs-left (some (running c)) (some (left u)) v h e = elim h [ ]
RanAs-left (some (running c)) (some (running u)) v h e = cc

RoundAs-some :
    (o : Option Round) (l : Option Viewed) (x : Viewed)
    → RoundAs o l
    → l ≡ some x
    → (r : Round) × (o ≡ some r)
      × Shows r.cont x.view
      × (r.status ≡ x.status)
      × (r.released ≡ x.released)
RoundAs-some none none x h e = cc
RoundAs-some none (some l) x h e = elim h [ ]
RoundAs-some (some r) none x h e = cc
RoundAs-some (some r) (some l) x h e =
    let same : l ≡ x = cc in
    let agree = subst (λ y. RoundAs (some r) (some y)) same h in
    (r, refl, agree.0, agree.1, agree.2)

-- If the two queues of captured frames are there, the state stands for lists and the fuel of the
-- cleanings is above 400, the capturing thread leaves its loop once another thread has set `stop`
-- before one of its rounds.
pub read_devices_leaves :
    (at : Addresses) (fuel : ℕ) (ms : List (Others × Met)) (c : StreamerCont) (v : View)
    → ae_capacity < fuel
    → Shows c v
    → Feeds v
    → StopsIn ms
    → (c' : StreamerCont) × (read_devices at fuel c ms ≡ some (left c'))
read_devices_leaves at fuel ms c v enough shows feeds stops =
    let (v', ends) = views_of-left at v ms feeds stops in
    let agrees = read_devices_refines at fuel ms c v enough shows in
    let (c', ran, _) = RanAs-left (read_devices at fuel c ms) (views_of at v ms) v' agrees ends in
    (c', ran)

enqueued-late :
    (n : ℕ) (xs : List Frame) (f : Frame) (m : Moment Frame)
    → length xs ≡ n
    → (waited n xs m).0 ≡ timed_out
    → enqueued n xs f m ≡ (timeout, (waited n xs m).1)
enqueued-late n xs f m full late =
    let is_full : (length xs == n) ≡ true = ground (arith, full) in rw (is_full, late) refl

-- What a round leaves that loses its frame: the queue as the other threads left it, and in the pool
-- one frame less, but for the encoded frames that the round released.
pub record Loses (v : View) (met : Met) (xs : List Frame) (r : Round) : Type 0 where
  pub status : r.status ≡ some timeout
  pub yuv : Stores yuv_capacity r.cont.yuv_queue (some (waited yuv_capacity xs met.wait).1)
  pub released :
      r.released ≡ (shortened 80 my_clean_queue_v v.ve).1 ++ (shortened 300 my_clean_queue_a v.ae).1
  pub pool :
      Pool.Represents r.cont.frame_stack pool_capacity
        (pooled (taken v.pool met.fresh).1 r.released)

-- A captured picture whose queue is full until the wait times out is lost: it is neither stored nor
-- released, and its frame is not put back in the pool.
pub read_round-Loses :
    (at : Addresses) (fuel : ℕ) (c : StreamerCont) (v : View) (met : Met) (xs : List Frame)
    → ae_capacity < fuel
    → Shows c v
    → v.yuv ≡ some xs
    → same_index met.packet.stream_index v.video_index ≡ true
    → length xs ≡ yuv_capacity
    → (waited yuv_capacity xs met.wait).0 ≡ timed_out
    → (r : Round) × (read_round at fuel c met ≡ some r) × Loses v met xs r
unfolding round_of handed sent tidied
read_round-Loses at fuel c v met xs enough shows yuv is_video full late =
    let t = taken v.pool met.fresh in
    let ys = (waited yuv_capacity xs met.wait).1 in
    let f = captured at met.packet t.0 in
    let lost : Viewed = record {
      view = record v { pool = t.1; yuv = some ys };
      status = some timeout;
      released = [];
    } in
    let is_late = enqueued-late yuv_capacity xs f met.wait full late in
    let came : round_of at v met ≡ some (tidied lost) =
      rw (yuv, is_video, is_late, round_of) refl in
    let (r, ran, shows', status, released) =
      RoundAs-some (read_round at fuel c met) (round_of at v met) (tidied lost)
        (read_round_refines at fuel c v met enough shows) came in
    (
      r,
      ran,
      record {
        status = status;
        yuv = shows'.yuv;
        released = released;
        pool =
            subst (λ fs. Pool.Represents r.cont.frame_stack pool_capacity (pooled t.1 fs))
              (sym released) shows'.pool;
      },
    )
