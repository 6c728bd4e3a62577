-- ===== src/Muxer/Events.antt =====
-- What the events of a muxer say of one stream, and what a source's answers hold.
use koala_streamer.Prelude.{
  ℕ, suc, ◌+◌, ◌≡◌, refl, Bool, true, false, Option, none, some, List, [], ◌∷◌, ◌++◌, if◌then◌else◌,
  arith,
}
use koala_streamer.Prelude.Int.{is_neg}
use koala_streamer.Frame.{Frame}
use koala_streamer.Muxer.Write.{
  Stream, video, audio, Packet, Event, wrote, notified, released, trailer, Reply,
}

abbrev pub same_stream : Stream → Stream → Bool
same_stream video video = true
same_stream audio audio = true
same_stream _ _ = false

-- The packets written for a stream, in order.
unfoldable pub packets_of : Stream → List Event → List Packet
packets_of s [] = []
packets_of s (wrote t p ∷ es) = if same_stream s t then p ∷ packets_of s es else packets_of s es
packets_of s (notified c ∷ es) = packets_of s es
packets_of s (released t f ∷ es) = packets_of s es
packets_of s (trailer ∷ es) = packets_of s es

-- The frames of a stream that were released, in order.
unfoldable pub releases_of : Stream → List Event → List Frame
releases_of s [] = []
releases_of s (released t f ∷ es) =
    if same_stream s t then f ∷ releases_of s es else releases_of s es
releases_of s (notified c ∷ es) = releases_of s es
releases_of s (wrote t p ∷ es) = releases_of s es
releases_of s (trailer ∷ es) = releases_of s es

-- How often the trailer was written.
unfoldable pub trailers : List Event → ℕ
trailers [] = 0
trailers (trailer ∷ es) = suc (trailers es)
trailers (wrote t p ∷ es) = trailers es
trailers (notified c ∷ es) = trailers es
trailers (released t f ∷ es) = trailers es

abbrev cons_frame : Option Frame → List Frame → List Frame
cons_frame none fs = fs
cons_frame (some f) fs = f ∷ fs

-- The frames that a source still has.
unfoldable pub frames_of : List Reply → List Frame
frames_of [] = []
frames_of (r ∷ rs) = if is_neg r.ret then frames_of rs else cons_frame r.frame (frames_of rs)

pub packets_of-append :
    (s : Stream) (es fs : List Event) → packets_of s (es ++ fs) ≡ packets_of s es ++ packets_of s fs
unfolding packets_of
packets_of-append s [] fs = refl
packets_of-append s (wrote t p ∷ es) fs = ground (arith, packets_of-append s es fs)
packets_of-append s (notified c ∷ es) fs = packets_of-append s es fs
packets_of-append s (released t f ∷ es) fs = packets_of-append s es fs
packets_of-append s (trailer ∷ es) fs = packets_of-append s es fs

pub releases_of-append :
    (s : Stream) (es fs : List Event)
    → releases_of s (es ++ fs) ≡ releases_of s es ++ releases_of s fs
unfolding releases_of
releases_of-append s [] fs = refl
releases_of-append s (released t f ∷ es) fs = ground (arith, releases_of-append s es fs)
releases_of-append s (notified c ∷ es) fs = releases_of-append s es fs
releases_of-append s (wrote t p ∷ es) fs = releases_of-append s es fs
releases_of-append s (trailer ∷ es) fs = releases_of-append s es fs

pub trailers-append : (es fs : List Event) → trailers (es ++ fs) ≡ trailers es + trailers fs
unfolding trailers
trailers-append [] fs = omega arith
trailers-append (trailer ∷ es) fs = omega (arith, trailers-append es fs)
trailers-append (wrote t p ∷ es) fs = trailers-append es fs
trailers-append (notified c ∷ es) fs = trailers-append es fs
trailers-append (released t f ∷ es) fs = trailers-append es fs
