-- ===== src/App/Capture/Refine/Loop.antt =====
-- The loop of ff_read_devices, with what the other threads do between its rounds.
use koala_streamer.Prelude.{
  ℕ, ◌≡◌, ◌<◌, refl, ap, Bool, true, false, Option, none, some, List, [], ◌∷◌, ◌++◌, if◌then◌else◌,
  arith,
}
use koala_streamer.Prelude.Maybe.{◌>>=◌}
use koala_streamer.Fifo
use koala_streamer.Fifo.Spec as Lists
use koala_streamer.Frame.{Frame}
use koala_streamer.FrameQueue.{FrameQueue}
use koala_streamer.FrameQueue.Refine.{after-Represents}
use koala_streamer.Stack.{Stack}
use koala_streamer.Stack.Refine as Pool
use koala_streamer.Trim.{my_clean_queue_v, my_clean_queue_a, progress_v, progress_a}
use koala_streamer.App.{
  StreamerCont, get_frame, yuv_capacity, ve_capacity, pcm_capacity, ae_capacity, pool_capacity,
}
use koala_streamer.App.Capture.{
  Met, Addresses, captured, Round, tidy, read_round, Others, used, meet, Ran, left, running,
  read_devices,
}
use koala_streamer.App.Capture.Refine.{
  View, Stores, Shows, shortened, taken, Viewed, tidied, round_of,
}
use koala_streamer.App.Capture.Refine.Rounds.{
  RoundAs, put_all_refines, get_frame_refines, shorten-Stores, hand_on-RoundAs,
}

tidy-RoundAs :
    (fuel : ℕ) (r : Round) (l : Viewed)
    → ae_capacity < fuel
    → RoundAs (some r) (some l)
    → RoundAs (tidy fuel r) (some (tidied l))
unfolding tidy tidied
tidy-RoundAs fuel r l enough (s, status, released) =
    let (ve, ve_done, ve_stores) =
      shorten-Stores 80 my_clean_queue_v fuel ve_capacity r.cont.ve_queue l.view.ve progress_v
        (omega arith) s.ve in
    let (ae, ae_done, ae_stores) =
      shorten-Stores 300 my_clean_queue_a fuel ae_capacity r.cont.ae_queue l.view.ae progress_a
        enough s.ae in
    let extra : List Frame → List Frame = λ fs.
      fs
      ++ (shortened 80 my_clean_queue_v l.view.ve).1
      ++ (shortened 300 my_clean_queue_a l.view.ae).1 in
    let all : extra r.released ≡ extra l.released = ap extra released in
    let pool = put_all_refines r.cont.frame_stack l.view.pool (extra l.released) s.pool in
    rw (ve_done, ae_done, all)
      (
        record {
          stop = s.stop;
          video_index = s.video_index;
          audio_index = s.audio_index;
          yuv = s.yuv;
          pcm = s.pcm;
          ve = ve_stores;
          ae = ae_stores;
          pool = pool;
        },
        status,
        refl,
      )

bind-RoundAs :
    (fuel : ℕ) (o : Option Round) (l : Option Viewed)
    → ae_capacity < fuel
    → RoundAs o l
    → RoundAs
        (o >>= tidy fuel)
        (elim l as (λ _. Option Viewed) [ none ↦ none | some x ↦ some (tidied x) ])
bind-RoundAs fuel none none enough h = tt
bind-RoundAs fuel none (some l) enough h = elim h [ ]
bind-RoundAs fuel (some r) none enough h = elim h [ ]
bind-RoundAs fuel (some r) (some l) enough h = tidy-RoundAs fuel r l enough h

with_pool :
    {c : StreamerCont} {v : View} (s : Stack Frame) (xs : List Frame)
    → Shows c v
    → Pool.Represents s pool_capacity xs
    → Shows (record c { frame_stack = s }) (record v { pool = xs })
with_pool s xs h p = record {
  stop = h.stop;
  video_index = h.video_index;
  audio_index = h.audio_index;
  yuv = h.yuv;
  pcm = h.pcm;
  ve = h.ve;
  ae = h.ae;
  pool = p;
}

-- A round on queues and a pool that stand for lists answers and leaves what `round_of` says of the
-- lists, if its fuel is above 400: the two cleanings end then.
pub read_round_refines :
    (at : Addresses) (fuel : ℕ) (c : StreamerCont) (v : View) (met : Met)
    → ae_capacity < fuel
    → Shows c v
    → RoundAs (read_round at fuel c met) (round_of at v met)
unfolding read_round round_of
read_round_refines at fuel c v met enough s =
    let (same, pool) = get_frame_refines c.frame_stack v.pool met.fresh s.pool in
    let s₁ = with_pool (get_frame c.frame_stack met.fresh).1 (taken v.pool met.fresh).1 s pool in
    let f = captured at met.packet (taken v.pool met.fresh).0 in
    rw same (bind-RoundAs fuel _ _ enough (hand_on-RoundAs _ _ f met s₁))

abbrev pub listed : ℕ → Option (List Frame) → List (Fifo.Op Frame) → Option (List Frame)
listed n none ops = none
listed n (some xs) ops = some (Lists.serve_all n xs ops).1

-- What the other threads make of the lists.
unfoldable pub viewed_after : View → Others → View
viewed_after v o = record v {
  stop = if o.stops then true else v.stop;
  yuv = listed yuv_capacity v.yuv o.yuv;
  pcm = listed pcm_capacity v.pcm o.pcm;
  ve = listed ve_capacity v.ve o.ve;
  ae = listed ae_capacity v.ae o.ae;
  pool = (Pool.serve_all pool_capacity v.pool o.pool).1;
}

used-Stores :
    (n : ℕ) (q : Option (FrameQueue Frame)) (xs : Option (List Frame)) (ops : List (Fifo.Op Frame))
    → Stores n q xs
    → Stores n (used q ops) (listed n xs ops)
used-Stores n none none ops h = tt
used-Stores n none (some xs) ops h = elim h [ ]
used-Stores n (some q) none ops h = elim h [ ]
used-Stores n (some q) (some xs) ops h = after-Represents ops xs h

meet-Shows :
    (c : StreamerCont) (v : View) (o : Others) → Shows c v → Shows (meet c o) (viewed_after v o)
unfolding meet viewed_after
meet-Shows c v o s = record {
  stop = ap (λ b. if o.stops then true else b) s.stop;
  video_index = s.video_index;
  audio_index = s.audio_index;
  yuv = used-Stores yuv_capacity c.yuv_queue v.yuv o.yuv s.yuv;
  pcm = used-Stores pcm_capacity c.pcm_queue v.pcm o.pcm s.pcm;
  ve = used-Stores ve_capacity c.ve_queue v.ve o.ve s.ve;
  ae = used-Stores ae_capacity c.ae_queue v.ae o.ae s.ae;
  pool = (Pool.run_refines o.pool v.pool s.pool).1;
}

-- The loop on lists: it is left at the first round that finds `stop`.
unfoldable pub views_of : Addresses → View → List (Others × Met) → Option (Ran View)
views_of at v [] = some (running v)
views_of at v ((o, met) ∷ ms) =
    let v' = viewed_after v o in
    let rest = round_of at v' met >>= (λ r. views_of at r.view ms) in
    if v'.stop then some (left v') else rest

abbrev pub RanAs : Option (Ran StreamerCont) → Option (Ran View) → Type 0
RanAs none none = Unit
RanAs (some (left c)) (some (left v)) = Shows c v
RanAs (some (running c)) (some (running v)) = Shows c v
RanAs _ _ = ⊥

next-RanAs :
    (at : Addresses) (fuel : ℕ) (ms : List (Others × Met)) (o : Option Round) (l : Option Viewed)
    → ((c : StreamerCont) (v : View)
        → Shows c v
        → RanAs (read_devices at fuel c ms) (views_of at v ms))
    → RoundAs o l
    → RanAs (o >>= (λ r. read_devices at fuel r.cont ms)) (l >>= (λ r. views_of at r.view ms))
next-RanAs at fuel ms none none ih h = tt
next-RanAs at fuel ms none (some l) ih h = elim h [ ]
next-RanAs at fuel ms (some r) none ih h = elim h [ ]
next-RanAs at fuel ms (some r) (some l) ih h = ih r.cont l.view h.0

if-RanAs :
    (b b' : Bool) (o₁ o₂ : Option (Ran StreamerCont)) (l₁ l₂ : Option (Ran View))
    → b ≡ b'
    → RanAs o₁ l₁
    → RanAs o₂ l₂
    → RanAs (if b then o₁ else o₂) (if b' then l₁ else l₂)
if-RanAs true true o₁ o₂ l₁ l₂ e h k = h
if-RanAs false false o₁ o₂ l₁ l₂ e h k = k
if-RanAs true false o₁ o₂ l₁ l₂ e h k = cc
if-RanAs false true o₁ o₂ l₁ l₂ e h k = cc

-- Over any rounds, and whatever the other threads do to the queues, the pool and the flag between
-- them, the capturing thread answers as `views_of` does of the lists and leaves a state that stands
-- for the lists that it leaves, if the fuel of its cleanings is above 400.
pub read_devices_refines :
    (at : Addresses) (fuel : ℕ) (ms : List (Others × Met)) (c : StreamerCont) (v : View)
    → ae_capacity < fuel
    → Shows c v
    → RanAs (read_devices at fuel c ms) (views_of at v ms)
unfolding read_devices views_of
read_devices_refines at fuel [] c v enough s = s
read_devices_refines at fuel ((o, met) ∷ ms) c v enough s =
    let s' = meet-Shows c v o s in
    let round = read_round_refines at fuel (meet c o) (viewed_after v o) met enough s' in
    let rest =
      next-RanAs at fuel ms (read_round at fuel (meet c o) met) (round_of at (viewed_after v o) met)
        (λ c₁ v₁ s₁. read_devices_refines at fuel ms c₁ v₁ enough s₁) round in
    if-RanAs (meet c o).stop (viewed_after v o).stop _ _ _ _ s'.stop s' rest
