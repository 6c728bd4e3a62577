-- ===== src/App/Encoder/Packets.antt =====
-- MacRTMPStreamer.cpp, FFEncoderThread: runs of packets of sound, and what encoding them should leave.
use koala_streamer.Prelude.{
  ℕ, zero, suc, ◌+◌, ◌*◌, ◌<◌, ◌≤◌, ◌≡◌, refl, ap, ap₂, sym, ◌∙◌, subst, inl, inr, false, Option,
  some, List, [], ◌∷◌, ◌++◌, map, ltb, length, arith, append-nil, append_assoc, length-append,
  Bool-cases,
}
use koala_streamer.Prelude.Maybe.{◌>>=◌}
use koala_streamer.Frame.{Address, Frame}
use koala_streamer.App.Encoder.{
  Packet, EncoderThread, Deed, encodes_picture, encodes_sound, releases, Encoded, pcm_bytes, Dealt,
  deal,
}
use koala_streamer.App.Encoder.Buffer.{sounds_of, releases_of, accumulate, Waits, DealsWell}

-- A frame for the thread, with its packet and what FFmpeg answers.
pub record Work : Type 0 where
  pub frame : Frame
  pub packet : Packet
  pub fresh : Frame
  pub reply : Encoded

pub record After : Type 0 where
  pub thread : EncoderThread
  pub deeds : List Deed

-- One frame after the other; no result where one has none.
unfoldable pub encode_all : Address → EncoderThread → List Work → Option After
encode_all releaser e [] = some (record { thread = e; deeds = [] })
encode_all releaser e (w ∷ ws) = do
  r ← deal releaser e w.frame w.packet w.fresh w.reply
  rest ← encode_all releaser r.thread ws
  some (record { thread = rest.thread; deeds = r.deeds ++ rest.deeds })

-- Every packet has `s` bytes.
abbrev pub Uniform : ℕ → List Work → Type 0
Uniform s [] = Unit
Uniform s (w ∷ ws) = (length w.packet.contents ≡ s) × Uniform s ws

abbrev AllFull : List (List ℕ) → Type 0
AllFull [] = Unit
AllFull (b ∷ bs) = (length b ≡ pcm_bytes) × AllFull bs

abbrev pub joined : List (List ℕ) → List ℕ
joined [] = []
joined (b ∷ bs) = b ++ joined bs

abbrev pub bytes_of : List Work → List ℕ
bytes_of [] = []
bytes_of (w ∷ ws) = w.packet.contents ++ bytes_of ws

abbrev pub frame_of : Work → Frame
frame_of w = w.frame

sounds_of-append : (cs ds : List Deed) → sounds_of (cs ++ ds) ≡ sounds_of cs ++ sounds_of ds
unfolding sounds_of
sounds_of-append [] ds = refl
sounds_of-append (encodes_sound s ∷ cs) ds = ap (λ bs. s.samples ∷ bs) (sounds_of-append cs ds)
sounds_of-append (encodes_picture p ∷ cs) ds = sounds_of-append cs ds
sounds_of-append (releases f ∷ cs) ds = sounds_of-append cs ds

releases_of-append : (cs ds : List Deed) → releases_of (cs ++ ds) ≡ releases_of cs ++ releases_of ds
unfolding releases_of
releases_of-append [] ds = refl
releases_of-append (encodes_sound s ∷ cs) ds = releases_of-append cs ds
releases_of-append (encodes_picture p ∷ cs) ds = releases_of-append cs ds
releases_of-append (releases f ∷ cs) ds = ap (λ fs. f ∷ fs) (releases_of-append cs ds)

-- What a run leaves: all bytes, in order, in full blocks but for those that still wait, and all
-- frames released.
pub record EncodesWell (ws : List Work) (before : List ℕ) (a : After) (waiting : List ℕ)
    : Type 0 where
  pub waits : Waits a.thread waiting
  pub whole : joined (sounds_of a.deeds) ++ waiting ≡ before ++ bytes_of ws
  pub full : AllFull (sounds_of a.deeds)
  pub released : releases_of a.deeds ≡ map frame_of ws

-- The bytes are kept, in order, and a block is full where they fit.
pub record Accumulates (before bytes : List ℕ) (next : List ℕ × List (List ℕ)) : Type 0 where
  whole : joined next.1 ++ next.0 ≡ before ++ bytes
  full : AllFull next.1

pub accumulate-Accumulates :
    (before bytes : List ℕ)
    → length before + length bytes ≤ pcm_bytes
    → Accumulates before bytes (accumulate before bytes)
unfolding accumulate
accumulate-Accumulates before bytes h =
    let measured = length-append before bytes in
    elim (Bool-cases (ltb (length (before ++ bytes)) pcm_bytes)) [
      | inl short ↦ rw short (record { whole = refl; full = tt })
      | inr full ↦ rw full (record {
        whole = append-nil (before ++ bytes ++ []) ∙ append-nil (before ++ bytes);
        full = (ground (arith, measured), tt);
      })
    ]

-- After a packet of `s` bytes there is again room for a positive whole number of them.
pub accumulate-room :
    (s k m : ℕ) (before bytes : List ℕ)
    → s * k ≡ pcm_bytes
    → length bytes ≡ s
    → length before + (s + s * m) ≡ pcm_bytes
    → (m' : ℕ) × (0 < m') × (length (accumulate before bytes).0 + s * m' ≡ pcm_bytes)
unfolding accumulate
accumulate-room s zero m before bytes divides sized room = absurd (omega arith)
accumulate-room s (suc k) zero before bytes divides sized room =
    let measured = length-append before bytes in
    let full : ltb (length (before ++ bytes)) pcm_bytes ≡ false = ground (arith, measured) in
    (suc k, omega arith, rw full (omega arith))
accumulate-room s (suc k) (suc m) before bytes divides sized room =
    let measured = length-append before bytes in
    elim (Bool-cases (ltb (length (before ++ bytes)) pcm_bytes)) [
      | inl short ↦ (suc m, omega arith, rw short (omega (arith, measured)))
      | inr full ↦ (suc k, omega arith, rw full (omega arith))
    ]

joined-append : (cs bs : List (List ℕ)) → joined (cs ++ bs) ≡ joined cs ++ joined bs
joined-append [] bs = refl
joined-append (c ∷ cs) bs =
    ap (λ xs. c ++ xs) (joined-append cs bs) ∙ sym (append_assoc c (joined cs) (joined bs))

AllFull-append : (cs bs : List (List ℕ)) → AllFull cs → AllFull bs → AllFull (cs ++ bs)
AllFull-append [] bs h k = k
AllFull-append (c ∷ cs) bs h k = (h.0, AllFull-append cs bs h.1 k)

pub EncodesWell-cons :
    (w : Work) (ws : List Work) (before : List ℕ) (r : Dealt) (next : List ℕ × List (List ℕ))
    (a : After) (waiting : List ℕ)
    → Accumulates before w.packet.contents next
    → DealsWell w.frame r next
    → EncodesWell ws next.0 a waiting
    → EncodesWell (w ∷ ws) before (record { thread = a.thread; deeds = r.deeds ++ a.deeds }) waiting
EncodesWell-cons w ws before r next a waiting acc well rest =
    let sounds = sounds_of-append r.deeds a.deeds in
    record {
      waits = rest.waits;
      whole =
          ap (λ bs. joined bs ++ waiting) (sounds ∙ ap (λ bs. bs ++ sounds_of a.deeds) well.sounds)
          ∙ ap (λ xs. xs ++ waiting) (joined-append next.1 (sounds_of a.deeds))
          ∙ append_assoc (joined next.1) (joined (sounds_of a.deeds)) waiting
          ∙ ap (λ xs. joined next.1 ++ xs) rest.whole
          ∙ sym (append_assoc (joined next.1) next.0 (bytes_of ws))
          ∙ ap (λ xs. xs ++ bytes_of ws) acc.whole
          ∙ append_assoc before w.packet.contents (bytes_of ws);
      full =
          subst AllFull (sym (sounds ∙ ap (λ bs. bs ++ sounds_of a.deeds) well.sounds))
            (AllFull-append next.1 (sounds_of a.deeds) acc.full rest.full);
      released = releases_of-append r.deeds a.deeds ∙ ap₂ (◌++◌) well.released rest.released;
    }
