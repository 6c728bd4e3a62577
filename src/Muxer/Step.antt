-- ===== src/Muxer/Step.antt =====
-- What one call of write_frame does for a muxer that is ready to run.
use koala_streamer.Prelude.{
  ◌≡◌, refl, sym, ap, ◌∙◌, Bool, true, false, ◌⊎◌, inl, inr, Option, some, List, [], ◌∷◌, map,
  if◌then◌else◌, arith,
}
use koala_streamer.Prelude.Int.{ℤ, pos, is_neg}
use koala_streamer.Frame.{Frame}
use koala_streamer.Muxer.{Muxer, Call, is_some}
use koala_streamer.Muxer.Write.{
  Ffmpeg, Stream, video, audio, Packet, notified, Reply, Step, get_frame, anchor, rebase, set_last,
  packet_of, sent_frame, send_frame, accept_frame, write_frame,
}
use koala_streamer.Muxer.Events.{
  packets_of, releases_of, trailers, trailers-append, frames_of, same_stream, packets_of-append,
  releases_of-append,
}

-- What stays as it is during a run: the output is there, no key frame is awaited, and streams and
-- time bases are those of `m₀`.
pub record Ready (m₀ m : Muxer) : Type 0 where
  pub opened : m.opened ≡ true
  pub running : m.req_i_frame ≡ false
  pub video_base : m.con_v_base ≡ m₀.con_v_base
  pub audio_base : m.con_a_base ≡ m₀.con_a_base
  pub video_index : m.video_stream ≡ m₀.video_stream
  pub audio_index : m.audio_stream ≡ m₀.audio_stream
  pub vcb : m.vcb ≡ m₀.vcb
  pub acb : m.acb ≡ m₀.acb

-- A callback that reports success has left a frame, whose decoding time is not negative.
abbrev pub IsUsable : Reply → Type 0
IsUsable r =
    (is_neg r.ret ≡ true)
    ⊎ ((f : Frame) × (is_neg r.ret ≡ false) × (r.frame ≡ some f) × (is_neg f.dts ≡ false))

-- The time origin `o` is the one that the muxer has fixed, if it has.
abbrev pub Anchors : ℤ → Muxer → Type 0
Anchors o m = is_neg m.first_pts ≡ false → m.first_pts ≡ o

abbrev pub callback : Stream → Muxer → Bool
callback video m = is_some m.vcb
callback audio m = is_some m.acb

abbrev pub other : Stream → Stream
other video = audio
other audio = video

module _ (av : Ffmpeg) (m₀ : Muxer) where
  -- The packet of a source's frame, with the time origin `o`.
  abbrev pub sent_as : Stream → ℤ → Frame → Packet
  sent_as s o f = packet_of av s m₀ (rebase o f)

  packet_of-Ready :
      (s : Stream) {m : Muxer} (f : Frame) → Ready m₀ m → packet_of av s m f ≡ packet_of av s m₀ f
  unfolding packet_of
  packet_of-Ready video f r = rw (r.video_base, r.video_index)
  packet_of-Ready audio f r = rw (r.audio_base, r.audio_index)

  -- The packets, the releases and the state of a step, by the time origin of a later state.
  pub record Served (s : Stream) (m : Muxer) (r : Reply) (o : Option Step) : Type 0 where
    pub result : Step
    pub ended : o ≡ some result
    pub ready : Ready m₀ result.muxer
    pub same_end : result.muxer.ended ≡ m.ended
    pub stops : is_neg r.ret ≡ true → result.ret ≡ pos 1
    pub anchored : (t : ℤ) → Anchors t result.muxer → Anchors t m
    pub written :
        (t : ℤ)
        → Anchors t result.muxer
        → packets_of s result.events ≡ map (sent_as s t) (frames_of (r ∷ []))
    pub freed :
        (t : ℤ)
        → Anchors t result.muxer
        → releases_of s result.events ≡ map (rebase t) (frames_of (r ∷ []))
    pub quiet : packets_of (other s) result.events ≡ []
    pub kept : releases_of (other s) result.events ≡ []
    pub plain : trailers result.events ≡ 0

pub get_frame-callback :
    (s : Stream) (m : Muxer) (r : Reply) → callback s m ≡ true → get_frame s m r ≡ r
unfolding get_frame
get_frame-callback video m r h = ground arith
get_frame-callback audio m r h = ground arith

packets_of-notified : (s : Stream) (cs : List Call) → packets_of s (map notified cs) ≡ []
unfolding packets_of
packets_of-notified s [] = refl
packets_of-notified s (c ∷ cs) = packets_of-notified s cs

releases_of-notified : (s : Stream) (cs : List Call) → releases_of s (map notified cs) ≡ []
unfolding releases_of
releases_of-notified s [] = refl
releases_of-notified s (c ∷ cs) = releases_of-notified s cs

trailers-notified : (cs : List Call) → trailers (map notified cs) ≡ 0
unfolding trailers
trailers-notified [] = refl
trailers-notified (c ∷ cs) = trailers-notified cs

module _ (av : Ffmpeg) (s : Stream) (m : Muxer) (f : Frame) (sent : Packet → ℤ) where
  -- The frame as it is sent.
  abbrev pub sent_out : Frame
  sent_out = rebase (anchor m f).first_pts f

  pub packets_of-sent :
      (t : Stream)
      → packets_of t (sent_frame av s m f sent).events
        ≡ (if same_stream t s then packet_of av s (anchor m f) sent_out ∷ [] else [])
  unfolding sent_frame packets_of
  packets_of-sent t = simp (packets_of-append, packets_of-notified) (ground arith)

  pub releases_of-sent :
      (t : Stream)
      → releases_of t (sent_frame av s m f sent).events
        ≡ (if same_stream t s then sent_out ∷ [] else [])
  unfolding sent_frame releases_of
  releases_of-sent t = simp (releases_of-append, releases_of-notified) (ground arith)

  trailers-sent : trailers (sent_frame av s m f sent).events ≡ 0
  unfolding sent_frame trailers
  trailers-sent = simp (trailers-append, trailers-notified)

  first_pts-sent : (sent_frame av s m f sent).muxer.first_pts ≡ (anchor m f).first_pts
  unfolding sent_frame set_last
  first_pts-sent = ground arith

  ended-sent : (sent_frame av s m f sent).muxer.ended ≡ m.ended
  unfolding sent_frame set_last anchor
  ended-sent = ground arith

  sent-Ready : (m₀ : Muxer) → Ready m₀ m → Ready m₀ (sent_frame av s m f sent).muxer
  unfolding sent_frame set_last anchor
  sent-Ready m₀ r = ground arith

anchor_fixed :
    (m : Muxer) (f : Frame) → is_neg f.dts ≡ false → is_neg (anchor m f).first_pts ≡ false
unfolding anchor
anchor_fixed m f h = ground arith

anchor-Anchors : (m : Muxer) (f : Frame) (t : ℤ) → (anchor m f).first_pts ≡ t → Anchors t m
unfolding anchor
anchor-Anchors m f t h k = ground arith

anchor-Ready : (m₀ m : Muxer) (f : Frame) → Ready m₀ m → Ready m₀ (anchor m f)
unfolding anchor
anchor-Ready m₀ m f r = ground arith

pub same_stream_self : (s : Stream) → same_stream s s ≡ true
same_stream_self video = refl
same_stream_self audio = refl

same_stream-other : (s : Stream) → same_stream (other s) s ≡ false
same_stream-other video = refl
same_stream-other audio = refl

module _ (av : Ffmpeg) (m₀ : Muxer) (s : Stream) (m : Muxer) (r : Reply) (sent : Packet → ℤ)
    (ready : Ready m₀ m) (cb : callback s m ≡ true) where
  write_frame-ended : is_neg r.ret ≡ true → Served av m₀ s m r (write_frame av s m r sent)
  unfolding write_frame frames_of packets_of releases_of trailers
  write_frame-ended e = record {
    result = record { ret = pos 1; muxer = m; events = [] };
    ended = ground (arith, get_frame-callback s m r cb);
    ready = ready;
    same_end = refl;
    stops = λ _. refl;
    anchored = λ t a. a;
    written = λ t a. rw e refl;
    freed = λ t a. rw e refl;
    quiet = refl;
    kept = refl;
    plain = refl;
  }

  write_frame-sent :
      (f : Frame)
      → is_neg r.ret ≡ false
      → r.frame ≡ some f
      → is_neg f.dts ≡ false
      → Served av m₀ s m r (write_frame av s m r sent)
  unfolding write_frame frames_of accept_frame send_frame
  write_frame-sent f e g h = record {
    result = sent_frame av s m f sent;
    ended = ground (arith, get_frame-callback s m r cb, ready.opened, ready.running);
    ready = sent-Ready av s m f sent m₀ ready;
    same_end = ended-sent av s m f sent;
    stops = λ k. cc;
    anchored = λ t a. anchor-Anchors m f t (origin t a);
    written = λ t a.
        rw (packets_of-sent av s m f sent s, same_stream_self s, e, g)
          (ap (λ o. packet_of av s (anchor m f) (rebase o f) ∷ []) (origin t a)
            ∙ ap (λ p. p ∷ []) (packet_of-Ready av m₀ s (rebase t f) (anchor-Ready m₀ m f ready)));
    freed = λ t a. rw (releases_of-sent av s m f sent s, same_stream_self s, e, g, origin t a);
    quiet = rw (packets_of-sent av s m f sent (other s), same_stream-other s);
    plain = trailers-sent av s m f sent;
    kept = rw (releases_of-sent av s m f sent (other s), same_stream-other s);
  }
    where
      origin : (t : ℤ) → Anchors t (sent_frame av s m f sent).muxer → (anchor m f).first_pts ≡ t
      origin t a =
          sym (first_pts-sent av s m f sent)
          ∙ a (ap is_neg (first_pts-sent av s m f sent) ∙ anchor_fixed m f h)

  pub write_frame-Served : IsUsable r → Served av m₀ s m r (write_frame av s m r sent)
  write_frame-Served (inl e) = write_frame-ended e
  write_frame-Served (inr (f, e, g, h)) = write_frame-sent f e g h
