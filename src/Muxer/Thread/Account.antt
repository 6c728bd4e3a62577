-- ===== src/Muxer/Thread/Account.antt =====
-- What a whole run of mux_thread does with the frames of its sources.
use mathlib.Core.List.{map-append}
use koala_streamer.Prelude.{
  ℕ, suc, ◌+◌, ◌<◌, ◌≡◌, refl, ap, true, Option, some, List, [], ◌∷◌, ◌++◌, map, if◌then◌else◌,
  arith, length, inl,
}
use koala_streamer.Prelude.Int.{ℤ, pos, is_neg, is_zero}
use koala_streamer.Frame.{Frame}
use koala_streamer.Muxer.{Muxer}
use koala_streamer.Muxer.Write.{Ffmpeg, Stream, video, audio, Event, Reply, rebase}
use koala_streamer.Muxer.Events.{packets_of, releases_of, trailers, frames_of}
use koala_streamer.Muxer.Step.{Ready, IsUsable, Anchors, callback, sent_as}
use koala_streamer.Muxer.Thread.{Loop, next_reply, rest}

-- Every answer of a source is usable.
abbrev pub AllUsable : List Reply → Type 0
AllUsable [] = Unit
AllUsable (r ∷ rs) = IsUsable r × AllUsable rs

abbrev pub source : Stream → Loop → List Reply
source video l = l.videos
source audio l = l.audios

-- What holds before every round.
pub record Runs (m₀ : Muxer) (l : Loop) : Type 0 where
  pub ready : Ready m₀ l.muxer
  pub video_on : l.encode_video ≡ true → callback video m₀ ≡ true
  pub audio_on : l.encode_audio ≡ true → callback audio m₀ ≡ true
  pub videos : AllUsable l.videos
  pub audios : AllUsable l.audios

-- The rounds that can still be made.
abbrev pub work : Loop → ℕ
work l =
    (length l.videos + length l.audios)
    + ((if l.encode_video then 1 else 0) + (if l.encode_audio then 1 else 0))

pub next_reply-IsUsable : (rs : List Reply) → AllUsable rs → IsUsable (next_reply rs)
unfolding next_reply
next_reply-IsUsable [] u = inl refl
next_reply-IsUsable (r ∷ rs) u = u.0

pub rest-AllUsable : (rs : List Reply) → AllUsable rs → AllUsable (rest rs)
rest-AllUsable [] u = tt
rest-AllUsable (r ∷ rs) u = u.1

frames_of-rest :
    (rs : List Reply) → frames_of (next_reply rs ∷ []) ++ frames_of (rest rs) ≡ frames_of rs
unfolding next_reply frames_of
frames_of-rest [] = refl
frames_of-rest (r ∷ rs) = ground arith

pub map-frames_of-rest {ℓ} :
    {B : Type ℓ} (g : Frame → B) (rs : List Reply) {bs : List B}
    → bs ≡ map g (frames_of (next_reply rs ∷ []))
    → bs ++ map g (frames_of (rest rs)) ≡ map g (frames_of rs)
map-frames_of-rest g rs h =
    rw (h, ← map-append g (frames_of (next_reply rs ∷ [])) (frames_of (rest rs)))
      (ap (map g) (frames_of-rest rs))

-- A round uses up an answer, or ends its stream.
pub round-less :
    (rs : List Reply) (ret : ℤ)
    → (is_neg (next_reply rs).ret ≡ true → ret ≡ pos 1)
    → length (rest rs) + (if is_zero ret then 1 else 0) < length rs + 1
unfolding next_reply
round-less [] ret h = ground (arith, h refl)
round-less (r ∷ rs) ret h = ground arith

pub callback-Ready :
    {m₀ m : Muxer} (s : Stream) → Ready m₀ m → callback s m₀ ≡ true → callback s m ≡ true
callback-Ready video r h = ground arith
callback-Ready audio r h = ground arith

module _ (av : Ffmpeg) (m₀ : Muxer) where
  -- The events `es` between the loops `l` and `l'` send and release exactly the frames that the
  -- sources gave meanwhile.
  pub record Accounts (l l' : Loop) (es : List Event) : Type 0 where
    pub anchored : (t : ℤ) → Anchors t l'.muxer → Anchors t l.muxer
    pub written :
        (s : Stream) (t : ℤ)
        → Anchors t l'.muxer
        → packets_of s es ++ map (sent_as av m₀ s t) (frames_of (source s l'))
          ≡ map (sent_as av m₀ s t) (frames_of (source s l))
    pub freed :
        (s : Stream) (t : ℤ)
        → Anchors t l'.muxer
        → releases_of s es ++ map (rebase t) (frames_of (source s l'))
          ≡ map (rebase t) (frames_of (source s l))

  -- A round that goes on.
  pub record Rounded (l : Loop) (o : Option (List Event × Loop)) : Type 0 where
    pub events : List Event
    pub next : Loop
    pub made : o ≡ some (events, next)
    pub runs : Runs m₀ next
    pub less : work next < work l
    pub accounts : Accounts l next events
    pub plain : trailers events ≡ 0
    pub counted : next.round ≡ suc l.round
