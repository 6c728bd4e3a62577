-- ===== src/Muxer/Thread/Order.antt =====
-- The decoding times of the packets that mux_thread writes.
use mathlib.Core.List.{map-append}
use koala_streamer.Prelude.{
  ℕ, ◌+◌, ◌<◌, ◌≡◌, true, false, List, [], ◌∷◌, ◌++◌, map, append-nil, arith, length,
}
use koala_streamer.Prelude.Int.{ℤ, ◌-ℤ◌, ◌≤ℤ◌, int_laws}
use koala_streamer.Frame.{Frame}
use koala_streamer.Muxer.{Muxer}
use koala_streamer.Muxer.Write.{
  Ffmpeg, Stream, video, audio, Packet, Event, trailer, Reply, rebase, packet_of,
}
use koala_streamer.Muxer.Events.{packets_of, packets_of-append, frames_of}
use koala_streamer.Muxer.Step.{sent_as}
use koala_streamer.Muxer.Thread.{World, Loop, finished, mux_thread}
use koala_streamer.Muxer.Thread.Account.{AllUsable, source}
use koala_streamer.Muxer.Thread.Whole.{given, mux_thread_lem}

-- No number is below the one before it.
abbrev pub Rises : List ℤ → Type 0
Rises [] = Unit
Rises (x ∷ []) = Unit
Rises (x ∷ y ∷ xs) = (x ≤ℤ y) × Rises (y ∷ xs)

-- The time of a frame that its packet's decoding time is made from.
abbrev pub stamp : Stream → Frame → ℤ
stamp video f = f.dts
stamp audio f = f.pts

-- What FFmpeg documents of av_rescale, a * b / c rounded to the nearest integer, at the two time
-- bases: it keeps the order of its first argument.
abbrev pub KeepsOrder : Ffmpeg → Muxer → Type 0
KeepsOrder av m =
    ((a b : ℤ)
      → a ≤ℤ b
      → av.av_rescale a m.con_v_base.num m.con_v_base.den
        ≤ℤ av.av_rescale b m.con_v_base.num m.con_v_base.den)
    × ((a b : ℤ)
        → a ≤ℤ b
        → av.av_rescale a m.con_a_base.num m.con_a_base.den
          ≤ℤ av.av_rescale b m.con_a_base.num m.con_a_base.den)

Rises-prefix : (xs ys : List ℤ) → Rises (xs ++ ys) → Rises xs
Rises-prefix [] ys r = tt
Rises-prefix (x ∷ []) ys r = tt
Rises-prefix (x ∷ y ∷ xs) ys r = (r.0, Rises-prefix (y ∷ xs) ys r.1)

module _ {ℓ κ} {A : Type ℓ} {B : Type κ} (key : A → ℤ) (g : A → B) (time : B → ℤ)
    (mono : (a b : A) → key a ≤ℤ key b → time (g a) ≤ℤ time (g b)) where
  Rises-map : (as' : List A) → Rises (map key as') → Rises (map time (map g as'))
  Rises-map [] r = tt
  Rises-map (a ∷ []) r = tt
  Rises-map (a ∷ b ∷ as') r = (mono a b r.0, Rises-map (b ∷ as') r.1)

-ℤ_mono : (a b o : ℤ) → a ≤ℤ b → a -ℤ o ≤ℤ b -ℤ o
-ℤ_mono a b o h = omega int_laws

stamp-rebase :
    (s : Stream) (o : ℤ) (f g : Frame)
    → stamp s f ≤ℤ stamp s g
    → stamp s (rebase o f) ≤ℤ stamp s (rebase o g)
unfolding rebase
stamp-rebase video o f g h = ground (arith, -ℤ_mono f.dts g.dts o)
stamp-rebase audio o f g h = ground (arith, -ℤ_mono f.pts g.pts o)

sent_as-mono :
    (av : Ffmpeg) (m : Muxer) (s : Stream) (o : ℤ) (f g : Frame)
    → KeepsOrder av m
    → stamp s f ≤ℤ stamp s g
    → (sent_as av m s o f).dts ≤ℤ (sent_as av m s o g).dts
unfolding packet_of
sent_as-mono av m video o f g k h = k.0 _ _ (stamp-rebase video o f g h)
sent_as-mono av m audio o f g k h = k.1 _ _ (stamp-rebase audio o f g h)

-- A prefix of what a rising source is sent as rises.
sent-Rises :
    (av : Ffmpeg) (m : Muxer) (s : Stream) (o : ℤ) (fs : List Frame) (ps qs : List Packet)
    → KeepsOrder av m
    → Rises (map (stamp s) fs)
    → ps ++ qs ≡ map (sent_as av m s o) fs
    → Rises (map (λ p. p.dts) ps)
sent-Rises av m s o fs ps qs k r e = Rises-prefix (map (λ p. p.dts) ps) (map (λ p. p.dts) qs) (
    rw (← map-append (λ p. p.dts) ps qs, e)
      (Rises-map (stamp s) (sent_as av m s o) (λ p. p.dts) (λ f g. sent_as-mono av m s o f g k) fs
        r))

-- On a muxer whose output is open and that awaits no key frame, from sources whose successful answers
-- leave a frame with a decoding time of at least 0, and where av_rescale keeps the order of its first
-- argument: if the decoding times of the video frames and the presentation times of the audio frames
-- never fall, then the thread, which ends, has handed FFmpeg for each stream packets whose decoding
-- times never fall.
pub mux_thread-Rises :
    (av : Ffmpeg) (m : Muxer) (w : World) (fuel : ℕ) (videos audios : List Reply)
    → KeepsOrder av m
    → m.opened ≡ true
    → m.req_i_frame ≡ false
    → AllUsable videos
    → AllUsable audios
    → length videos + length audios + 2 < fuel
    → Rises (map (stamp video) (frames_of videos))
    → Rises (map (stamp audio) (frames_of audios))
    → (es : List Event) × (last : Loop) × (mux_thread av w fuel m videos audios ≡ finished es last)
      × ((s : Stream) → Rises (map (λ p. p.dts) (packets_of s es)))
unfolding packets_of
mux_thread-Rises av m w fuel videos audios k opened running vs as' h rv ra =
    let (body, last, o, returned, _, sent, _, _) =
      mux_thread_lem av m w fuel videos audios opened running vs as' h in
    (
      body ++ trailer ∷ [],
      last,
      returned,
      λ s.
          rw (packets_of-append s body (trailer ∷ []), packets_of, append-nil)
            (sent-Rises av m s o (frames_of (given av m w s videos audios)) (packets_of s body)
              (map (sent_as av m s o) (frames_of (source s last))) k (rises s) (sent s)),
    )
  where
    rises : (s : Stream) → Rises (map (stamp s) (frames_of (given av m w s videos audios)))
    rises video = rv
    rises audio = ra
