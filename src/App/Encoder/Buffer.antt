-- ===== src/App/Encoder/Buffer.antt =====
-- FFEncoderThread's buffer of samples over a run of packets.
use koala_streamer.Prelude.{
  ℕ, ◌+◌, ◌<◌, ◌≤◌, ◌≡◌, refl, ap, ◌∙◌, subst, inl, inr, true, false, none, some, List, [], ◌∷◌,
  ◌++◌, ltb, leb, length, take, drop, if◌then◌else◌, arith, Bool-cases, Option-cases, length-append,
  length-take, length-drop,
}
use koala_streamer.Frame.{Address, Frame}
use koala_streamer.App.Encoder.{
  audio, Packet, EncoderThread, Deed, encodes_picture, encodes_sound, releases, Encoded, memcpy,
  pcm_bytes, answer, Dealt, encoder_audio, deal, sound_of, output_frame,
}

take-append : (xs ys : List ℕ) → take (length xs) (xs ++ ys) ≡ xs
take-append [] ys = refl
take-append (x ∷ xs) ys = ap (λ zs. x ∷ zs) (take-append xs ys)

-- A copy that fits keeps the buffer's size and what lies before it.
memcpy_lem :
    (buffer : List ℕ) (at : ℕ) (bytes : List ℕ)
    → at + length bytes ≤ length buffer
    → (buffer' : List ℕ) × (memcpy buffer at bytes ≡ some buffer')
      × (length buffer' ≡ length buffer)
      × (take (at + length bytes) buffer' ≡ take at buffer ++ bytes)
unfolding memcpy
memcpy_lem buffer at bytes h =
    let front = take at buffer ++ bytes in
    let rest = drop (at + length bytes) buffer in
    let fits : leb (at + length bytes) (length buffer) ≡ true = ground arith in
    let measured : length front ≡ at + length bytes =
      omega (arith, length-append (take at buffer) bytes, length-take at buffer) in
    (
      front ++ rest,
      rw fits refl,
      omega (arith, length-append front rest, length-drop (at + length bytes) buffer, measured),
      subst (λ n. take n (front ++ rest) ≡ front) measured (take-append front rest),
    )

unfoldable pub sounds_of : List Deed → List (List ℕ)
sounds_of [] = []
sounds_of (encodes_sound s ∷ ds) = s.samples ∷ sounds_of ds
sounds_of (encodes_picture p ∷ ds) = sounds_of ds
sounds_of (releases f ∷ ds) = sounds_of ds

unfoldable pub releases_of : List Deed → List Frame
releases_of [] = []
releases_of (releases f ∷ ds) = f ∷ releases_of ds
releases_of (encodes_sound s ∷ ds) = releases_of ds
releases_of (encodes_picture p ∷ ds) = releases_of ds

-- The bytes that wait, and the blocks that are encoded, once `bytes` are added to those that wait.
unfoldable pub accumulate : List ℕ → List ℕ → List ℕ × List (List ℕ)
accumulate waiting bytes =
    if ltb (length (waiting ++ bytes)) pcm_bytes
    then (waiting ++ bytes, [])
    else ([], (waiting ++ bytes) ∷ [])

-- An audio thread whose buffer holds the bytes that wait.
pub record Waits (e : EncoderThread) (waiting : List ℕ) : Type 0 where
  pub buffer : List ℕ
  pub is_audio : e.type ≡ audio
  pub has_buffer : e.pcm_buffer ≡ some buffer
  pub room : length buffer ≡ pcm_bytes
  pub sized : e.pcm_size ≡ length waiting
  pub held : take e.pcm_size buffer ≡ waiting

answer-keeps :
    (releaser : Address) (e : EncoderThread) (fresh : Frame) (reply : Encoded) (ds : List Deed)
    → let r = answer releaser e fresh reply ds in
      (r.thread.type ≡ e.type)
      × (r.thread.pcm_buffer ≡ e.pcm_buffer)
      × (r.thread.pcm_size ≡ e.pcm_size)
      × (r.deeds ≡ ds)
unfolding answer output_frame
answer-keeps releaser e fresh reply ds = elim (Option-cases reply.got) [
  | inl e₁ ↦ rw e₁ (refl, refl, refl, refl)
  | inr (pkt, e₁) ↦ rw e₁ (refl, refl, refl, refl)
]

-- A frame is dealt with as `accumulate` says, and released.
pub record DealsWell (f : Frame) (r : Dealt) (next : List ℕ × List (List ℕ)) : Type 0 where
  pub waits : Waits r.thread next.0
  pub sounds : sounds_of r.deeds ≡ next.1
  pub released : releases_of r.deeds ≡ f ∷ []

module _ (releaser : Address) (e : EncoderThread) (frame : Frame) (pkt : Packet) (fresh : Frame)
    (reply : Encoded) where
  pub deal_fits :
      (waiting : List ℕ)
      → Waits e waiting
      → length waiting + length pkt.contents ≤ pcm_bytes
      → (r : Dealt) × (deal releaser e frame pkt fresh reply ≡ some r)
        × DealsWell frame r (accumulate waiting pkt.contents)
  unfolding deal encoder_audio accumulate sounds_of releases_of sound_of answer output_frame
  deal_fits waiting w h =
      let (buffer', copied, room', prefix) =
        memcpy_lem w.buffer e.pcm_size pkt.contents (ground (arith, w.room, w.sized)) in
      let all : take (e.pcm_size + length pkt.contents) buffer' ≡ waiting ++ pkt.contents =
        prefix ∙ ap (λ bs. bs ++ pkt.contents) w.held in
      let measured : e.pcm_size + length pkt.contents ≡ length (waiting ++ pkt.contents) =
        omega (arith, length-append waiting pkt.contents, w.sized) in
      let waiting' = waiting ++ pkt.contents in
      elim (Bool-cases (ltb (length waiting') pcm_bytes)) [
        | inl short ↦ (
          record {
            result = none;
            thread = record e {
              pcm_buffer = some buffer';
              pcm_size = e.pcm_size + length pkt.contents;
            };
            deeds = releases frame ∷ [];
          },
          rw (w.is_audio, w.has_buffer, copied, measured, short) refl,
          rw short (record {
            waits = record {
              buffer = buffer';
              is_audio = w.is_audio;
              has_buffer = refl;
              room = room' ∙ w.room;
              sized = measured;
              held = all;
            };
            sounds = refl;
            released = refl;
          }),
        )
        | inr full ↦
            let filled = record e {
              pcm_buffer = some buffer';
              pcm_size = e.pcm_size + length pkt.contents;
            } in
            let emptied = record filled { pcm_size = 0 } in
            let samples = take (e.pcm_size + length pkt.contents) buffer' in
            let deeds : List Deed =
              encodes_sound (sound_of e.codec_ctx samples pkt.pts) ∷ releases frame ∷ [] in
            let keeps = answer-keeps releaser emptied fresh reply deeds in
            (
              answer releaser emptied fresh reply deeds,
              rw (w.is_audio, w.has_buffer, copied, measured, full) refl,
              rw full (record {
                waits = record {
                  buffer = buffer';
                  is_audio = keeps.0 ∙ w.is_audio;
                  has_buffer = keeps.1;
                  room = room' ∙ w.room;
                  sized = keeps.2;
                  held = rw keeps.2 refl;
                };
                sounds = ap sounds_of keeps.3 ∙ ap (λ bs. bs ∷ []) all;
                released = ap releases_of keeps.3;
              }),
            )
      ]

  pub deal_overruns :
      (waiting : List ℕ)
      → Waits e waiting
      → pcm_bytes < length waiting + length pkt.contents
      → deal releaser e frame pkt fresh reply ≡ none
  unfolding deal encoder_audio memcpy
  deal_overruns waiting w h =
      let outside : leb (e.pcm_size + length pkt.contents) (length w.buffer) ≡ false =
        ground (arith, w.room, w.sized) in
      rw (w.is_audio, w.has_buffer, outside) refl
