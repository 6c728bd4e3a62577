-- ===== src/App/Input.antt =====
-- MacRTMPStreamer.cpp, open_input: which of the camera's streams are used.
use koala_streamer.Prelude.{
  ℕ, zero, suc, ◌+◌, ◌<◌, ◌≡◌, ◌≢◌, ◌⊎◌, refl, ap, sym, ◌∙◌, subst, inl, inr, true, false, not,
  Option, none, some, List, [], ◌∷◌, if◌then◌else◌, arith, get_elem?, Bool-cases,
}
use koala_streamer.Prelude.Int.{ℤ, pos, negsuc, is_neg, is_zero}
use koala_streamer.Frame.{Address}
use koala_streamer.App.Encoder.{MediaType, video, audio, other}

-- A stream of the camera: its address and its codec's type.
pub record InputStream : Type 0 where
  pub address : Address
  pub type : MediaType

-- The members of streamer_cont that open_input sets.
pub record Input : Type 0 where
  pub video_stream : Option Address
  pub audio_stream : Option Address
  pub video_index : ℤ
  pub audio_index : ℤ

-- What main sets before it.
abbrev pub no_input : Input
no_input = record {
  video_stream = none;
  audio_stream = none;
  video_index = negsuc 0;
  audio_index = negsuc 0;
}

unfoldable pub found : ℕ → InputStream → Input → Input
found i s p = elim s.type [
  | video ↦ record p { video_stream = some s.address; video_index = pos i }
  | audio ↦ record p { audio_stream = some s.address; audio_index = pos i }
  | other ↦ p
]

-- The loop over the streams, from number `i` on.
unfoldable scan : ℕ → List InputStream → Input → Input
scan i [] p = p
scan i (s ∷ ss) p = scan (i + 1) ss (found i s p)

-- `opened` and `info` are the results of avformat_open_input and avformat_find_stream_info.
unfoldable pub open_input : ℤ → ℤ → List InputStream → Input → ℤ × Input
unfolding scan
open_input opened info streams p =
    if not (is_zero opened)
    then (negsuc 0, p)
    else if is_neg info
    then (negsuc 0, p)
    else (pos 0, scan 0 streams p)

-- The two kinds of stream that are looked for.
pub data Kind : Type 0 where
  picture sound : Kind

abbrev type_of : Kind → MediaType
type_of picture = video
type_of sound = audio

abbrev index_for : Kind → Input → ℤ
index_for picture p = p.video_index
index_for sound p = p.audio_index

abbrev stream_for : Kind → Input → Option Address
stream_for picture p = p.video_stream
stream_for sound p = p.audio_stream

-- The stream number `j` is the last of its kind.
pub record IsLast (k : Kind) (ss : List InputStream) (j : ℕ) (s : InputStream) : Type 0 where
  pub at : get_elem? ss j ≡ some s
  pub kind : s.type ≡ type_of k
  pub last : (n : ℕ) (t : InputStream) → j < n → get_elem? ss n ≡ some t → t.type ≢ type_of k

abbrev HasNone : Kind → List InputStream → Type 0
HasNone k [] = Unit
HasNone k (s ∷ ss) = (s.type ≢ type_of k) × HasNone k ss

-- What the scan made of `p`, where the first stream has the number `i`.
abbrev pub Chose : Kind → ℕ → List InputStream → Input → Input → Type 0
Chose k i ss p p' =
    (HasNone k ss × (index_for k p' ≡ index_for k p) × (stream_for k p' ≡ stream_for k p))
    ⊎ ((j : ℕ) × (s : InputStream) × IsLast k ss j s
        × (index_for k p' ≡ pos (i + j))
        × (stream_for k p' ≡ some s.address))

HasNone-get :
    (k : Kind) (ss : List InputStream) (n : ℕ) (t : InputStream)
    → HasNone k ss
    → get_elem? ss n ≡ some t
    → t.type ≢ type_of k
HasNone-get k [] n t h e = cc
HasNone-get k (s ∷ ss) zero t h e = λ e₁. h.0 (cc)
HasNone-get k (s ∷ ss) (suc n) t h e = HasNone-get k ss n t h.1 e

none-later :
    (k : Kind) (s : InputStream) (ss : List InputStream)
    → HasNone k ss
    → (n : ℕ) (t : InputStream) → 0 < n
    → get_elem? (s ∷ ss) n ≡ some t
    → t.type ≢ type_of k
none-later k s ss h zero t le e = absurd (omega arith)
none-later k s ss h (suc n) t le e = HasNone-get k ss n t h e

last-later :
    (k : Kind) (s : InputStream) (ss : List InputStream) (j : ℕ) (u : InputStream)
    → IsLast k ss j u
    → (n : ℕ) (t : InputStream) → suc j < n
    → get_elem? (s ∷ ss) n ≡ some t
    → t.type ≢ type_of k
last-later k s ss j u h zero t le e = absurd (omega arith)
last-later k s ss j u h (suc n) t le e = h.last n t (omega arith) e

-- One stream is of the kind, or changes nothing of it.
found_cases :
    (k : Kind) (i : ℕ) (s : InputStream) (p : Input)
    → ((s.type ≡ type_of k)
        × (index_for k (found i s p) ≡ pos i)
        × (stream_for k (found i s p) ≡ some s.address))
      ⊎ ((s.type ≢ type_of k)
          × (index_for k (found i s p) ≡ index_for k p)
          × (stream_for k (found i s p) ≡ stream_for k p))
unfolding found
found_cases picture i s p = ground arith
found_cases sound i s p = ground arith

-- The scan keeps, for pictures and for sound, the number and the address of the last stream of the
-- kind, and what was there before if the camera has none.
scan_lem : (k : Kind) (i : ℕ) (ss : List InputStream) (p : Input) → Chose k i ss p (scan i ss p)
unfolding scan
scan_lem k i [] p = inl (tt, refl, refl)
scan_lem k i (s ∷ ss) p = elim (scan_lem k (i + 1) ss (found i s p)) [
  | inl (none', index, stream) ↦ elim (found_cases k i s p) [
    | inl (kind, index', stream') ↦ inr (
      0,
      s,
      record { at = refl; kind = kind; last = none-later k s ss none' },
      index ∙ index' ∙ ap pos (omega arith),
      stream ∙ stream',
    )
    | inr (other', index', stream') ↦ inl ((other', none'), index ∙ index', stream ∙ stream')
  ]
  | inr (j, t, last, index, stream) ↦ inr (
    suc j,
    t,
    record { at = last.at; kind = last.kind; last = last-later k s ss j t last },
    index ∙ ap pos (omega arith),
    stream,
  )
]

-- open_input succeeds exactly if both of FFmpeg's calls do, and then chooses, for pictures and for
-- sound, the last stream of the kind, or leaves what was there if the camera has none; if it fails
-- it chooses nothing.
pub open_input_lem :
    (opened info : ℤ) (ss : List InputStream) (p : Input)
    → ((is_zero opened ≡ true)
        × (is_neg info ≡ false)
        × ((open_input opened info ss p).0 ≡ pos 0)
        × Chose picture 0 ss p (open_input opened info ss p).1
        × Chose sound 0 ss p (open_input opened info ss p).1)
      ⊎ (((is_zero opened ≡ false) ⊎ (is_neg info ≡ true))
          × (open_input opened info ss p ≡ (negsuc 0, p)))
unfolding open_input
open_input_lem opened info ss p = elim (Bool-cases (is_zero opened)) [
  | inl e ↦ elim (Bool-cases (is_neg info)) [
    | inl e₁ ↦ inr (inr e₁, rw (e, e₁) refl)
    | inr e₁ ↦
        let same : open_input opened info ss p ≡ (pos 0, scan 0 ss p) = rw (e, e₁) refl in
        let chooses : (k : Kind) → Chose k 0 ss p (open_input opened info ss p).1 =
          λ k. subst (λ r. Chose k 0 ss p r.1) (sym same) (scan_lem k 0 ss p) in
        inl (e, e₁, ap (λ r. r.0) same, chooses picture, chooses sound)
  ]
  | inr e ↦ inr (inl e, rw e refl)
]
