-- ===== src/App/Capture/Refine/Rounds.antt =====
-- The parts of a round against the same parts on lists.
use koala_streamer.Prelude.{
  ℕ, ◌≡◌, ◌≤◌, ◌<◌, refl, ap, subst, inl, inr, Option, none, some, List, [], ◌∷◌, ltb, ◌==◌,
  if◌then◌else◌, length, arith, Bool-cases,
}
use koala_streamer.Frame.{Frame}
use koala_streamer.FrameQueue.{FrameQueue, Moment, Status, get_size}
use koala_streamer.FrameQueue.Refine.{enqueue_refines}
use koala_streamer.FrameQueue.Clean.{Progresses, clean_if_lem}
use koala_streamer.Stack.{Stack, push, pop}
use koala_streamer.Stack.Refine as Pool
use koala_streamer.App.{
  StreamerCont, get_frame, put_frame, yuv_capacity, pcm_capacity, pool_capacity,
}
use koala_streamer.App.Capture.{same_index, Met, send, shorten, put_all, Round, hand_on}
use koala_streamer.App.Capture.Refine.{
  View, Stores, Shows, sent, shortened, pooled, taken, Viewed, handed,
}

-- Each operation agrees with its list.
abbrev SentAs :
    ℕ → Option (Status × Option (FrameQueue Frame)) → Option (Status × Option (List Frame)) → Type 0
SentAs c none none = Unit
SentAs c (some r) (some l) = (r.0 ≡ l.0) × Stores c r.1 l.1
SentAs c none (some l) = ⊥
SentAs c (some r) none = ⊥

send-SentAs :
    (c : ℕ) (q : Option (FrameQueue Frame)) (xs : Option (List Frame)) (f : Frame)
    (m : Moment Frame)
    → Stores c q xs
    → SentAs c (send q f m) (sent c xs f m)
unfolding send sent
send-SentAs c none none f m h = tt
send-SentAs c none (some xs) f m h = elim h [ ]
send-SentAs c (some q) none f m h = elim h [ ]
send-SentAs c (some q) (some xs) f m h = enqueue_refines c q xs f m h

pub shorten-Stores :
    (limit : ℕ) (func : ℕ → Frame → ℕ × ℕ) (fuel c : ℕ) (q : Option (FrameQueue Frame))
    (xs : Option (List Frame))
    → Progresses (some func)
    → c < fuel
    → Stores c q xs
    → (q' : Option (FrameQueue Frame)) × (shorten limit func fuel q
        ≡ some (q', (shortened limit func xs).1))
      × Stores c q' (shortened limit func xs).0
unfolding shorten shortened get_size
shorten-Stores limit func fuel c none none p h s = (none, refl, tt)
shorten-Stores limit func fuel c none (some xs) p h s = elim s [ ]
shorten-Stores limit func fuel c (some q) none p h s = elim s [ ]
shorten-Stores limit func fuel c (some q) (some xs) p h s =
    let sized : q.queue.size ≡ length xs = s.holds.sized in
    let bounded : length xs ≤ c = ground (arith, s.valid.size_in, s.same, sized) in
    let done = clean_if_lem (some func) p c fuel 0 q xs s (omega arith) in
    let at_limit : ltb limit q.queue.size ≡ ltb limit (length xs) = ap (ltb limit) sized in
    elim (Bool-cases (ltb limit (length xs))) [
      | inl long ↦ (
        some (record q { queue = done.result.fifo }),
        rw (at_limit, long, done.ended)
            (ap (λ fs. some (some (record q { queue = done.result.fifo }), fs)) done.released),
        rw long done.left,
      )
      | inr short ↦ (some q, rw (at_limit, short) refl, rw short s)
    ]

served_push :
    (xs : List Frame) (f : Frame)
    → (Pool.serve pool_capacity xs (Pool.pushes f)).1
      ≡ (if length xs == pool_capacity then xs else f ∷ xs)
unfolding Pool.serve
served_push xs f = elim (Bool-cases (length xs == pool_capacity)) [
  | inl e ↦ rw e refl
  | inr e ↦ rw e refl
]

pub put_all_refines :
    (s : Stack Frame) (xs fs : List Frame)
    → Pool.Represents s pool_capacity xs
    → Pool.Represents (put_all s fs) pool_capacity (pooled xs fs)
unfolding put_all pooled put_frame
put_all_refines s xs [] r = r
put_all_refines s xs (f ∷ fs) r =
    let pushed = Pool.push_refines f xs r in
    let next = subst (Pool.Represents (push s f).1 pool_capacity) (served_push xs f) pushed.1 in
    put_all_refines (put_frame s f).1 _ fs next

pub get_frame_refines :
    (s : Stack Frame) (xs : List Frame) (fresh : Frame)
    → Pool.Represents s pool_capacity xs
    → ((get_frame s fresh).0 ≡ (taken xs fresh).0)
      × Pool.Represents (get_frame s fresh).1 pool_capacity (taken xs fresh).1
unfolding get_frame Pool.serve
get_frame_refines s [] fresh r =
    let popped = Pool.pop_refines [] r in
    let nothing : (pop s).0 ≡ none = ap Pool.item_of popped.0 in
    (rw (nothing, get_frame) refl, popped.1)
get_frame_refines s (f ∷ fs) fresh r =
    let popped = Pool.pop_refines (f ∷ fs) r in
    let first : (pop s).0 ≡ some f = ap Pool.item_of popped.0 in
    (rw (first, get_frame) refl, popped.1)

-- What a round does agrees with what it makes of the lists.
abbrev pub RoundAs : Option Round → Option Viewed → Type 0
RoundAs none none = Unit
RoundAs (some r) (some l) = Shows r.cont l.view × (r.status ≡ l.status) × (r.released ≡ l.released)
RoundAs none (some l) = ⊥
RoundAs (some r) none = ⊥

-- The frame was sent to a queue, and the rest of the state set by `put` and `show`.
sent-RoundAs :
    (n : ℕ) (put : Option (FrameQueue Frame) → StreamerCont) (show : Option (List Frame) → View)
    (o : Option (Status × Option (FrameQueue Frame))) (l : Option (Status × Option (List Frame)))
    → ((q : Option (FrameQueue Frame)) (xs : Option (List Frame))
        → Stores n q xs
        → Shows (put q) (show xs))
    → SentAs n o l
    → RoundAs
        (elim o as (λ _. Option Round) [
          | none ↦ none
          | some r ↦ some (record { cont = put r.1; status = some r.0; released = [] })
        ])
        (elim l as (λ _. Option Viewed) [
          | none ↦ none
          | some r ↦ some (record { view = show r.1; status = some r.0; released = [] })
        ])
sent-RoundAs n put show none none shows h = tt
sent-RoundAs n put show none (some l) shows h = elim h [ ]
sent-RoundAs n put show (some r) none shows h = elim h [ ]
sent-RoundAs n put show (some r) (some l) shows h = (shows r.1 l.1 h.1, ap some h.0, refl)

with_yuv :
    {c : StreamerCont} {v : View}
    → Shows c v
    → (q : Option (FrameQueue Frame)) (xs : Option (List Frame)) → Stores yuv_capacity q xs
    → Shows (record c { yuv_queue = q }) (record v { yuv = xs })
with_yuv s q xs h = record {
  stop = s.stop;
  video_index = s.video_index;
  audio_index = s.audio_index;
  yuv = h;
  pcm = s.pcm;
  ve = s.ve;
  ae = s.ae;
  pool = s.pool;
}

with_pcm :
    {c : StreamerCont} {v : View}
    → Shows c v
    → (q : Option (FrameQueue Frame)) (xs : Option (List Frame)) → Stores pcm_capacity q xs
    → Shows (record c { pcm_queue = q }) (record v { pcm = xs })
with_pcm s q xs h = record {
  stop = s.stop;
  video_index = s.video_index;
  audio_index = s.audio_index;
  yuv = s.yuv;
  pcm = h;
  ve = s.ve;
  ae = s.ae;
  pool = s.pool;
}

pub hand_on-RoundAs :
    (c : StreamerCont) (v : View) (f : Frame) (met : Met)
    → Shows c v
    → RoundAs (hand_on c f met) (handed v f met)
unfolding hand_on handed
hand_on-RoundAs c v f met s =
    let is_video : same_index met.packet.stream_index c.video_index
        ≡ same_index met.packet.stream_index v.video_index =
      ap (same_index met.packet.stream_index) s.video_index in
    let is_audio : same_index met.packet.stream_index c.audio_index
        ≡ same_index met.packet.stream_index v.audio_index =
      ap (same_index met.packet.stream_index) s.audio_index in
    let to_yuv =
      sent-RoundAs yuv_capacity (λ q. record c { yuv_queue = q }) (λ xs. record v { yuv = xs })
        (send c.yuv_queue f met.wait) (sent yuv_capacity v.yuv f met.wait) (with_yuv s)
        (send-SentAs yuv_capacity c.yuv_queue v.yuv f met.wait s.yuv) in
    let to_pcm =
      sent-RoundAs pcm_capacity (λ q. record c { pcm_queue = q }) (λ xs. record v { pcm = xs })
        (send c.pcm_queue f met.wait) (sent pcm_capacity v.pcm f met.wait) (with_pcm s)
        (send-SentAs pcm_capacity c.pcm_queue v.pcm f met.wait s.pcm) in
    elim (Bool-cases (same_index met.packet.stream_index v.video_index)) [
      | inl e ↦ rw (is_video, e) to_yuv
      | inr e ↦ elim (Bool-cases (same_index met.packet.stream_index v.audio_index)) [
        | inl e₁ ↦ rw (is_video, e, is_audio, e₁) to_pcm
        | inr e₁ ↦ rw (is_video, e, is_audio, e₁) (s, refl, refl)
      ]
    ]
