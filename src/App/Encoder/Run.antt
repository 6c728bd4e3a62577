-- ===== src/App/Encoder/Run.antt =====
-- MacRTMPStreamer.cpp, FFEncoderThread: what it encodes of a run of packets of sound.
use koala_streamer.Prelude.{
  ℕ, zero, suc, ◌+◌, ◌*◌, ◌<◌, ◌≤◌, ◌≡◌, ◌≢◌, refl, ap, sym, subst, inl, inr, true, none, some,
  List, [], ◌∷◌, ◌++◌, ltb, length, arith, ◌==◌, append-nil, length-append, Bool-cases,
}
use koala_streamer.Frame.{Address}
use koala_streamer.App.Encoder.{EncoderThread, pcm_bytes}
use koala_streamer.App.Encoder.Buffer.{
  sounds_of, releases_of, accumulate, Waits, deal_fits, deal_overruns,
}
use koala_streamer.App.Encoder.Packets.{
  Work, After, encode_all, Uniform, EncodesWell, accumulate-Accumulates, accumulate-room,
  EncodesWell-cons,
}

module _ (releaser : Address) (s k : ℕ) (divides : s * k ≡ pcm_bytes) where
  -- A thread whose buffer of 8192 bytes has room for a positive whole number of packets of `s`
  -- bytes, where `s` divides 8192, encodes any run of such packets without leaving its buffer: the
  -- blocks that it encodes have 8192 bytes each, they and the bytes that still wait are, in order,
  -- the bytes that waited before and those of the packets, and every frame is released once.
  pub encode_all_lem :
      (ws : List Work) (e : EncoderThread) (before : List ℕ) (m : ℕ)
      → Uniform s ws
      → Waits e before
      → 0 < m
      → length before + s * m ≡ pcm_bytes
      → (a : After) × (waiting : List ℕ) × (encode_all releaser e ws ≡ some a)
        × EncodesWell ws before a waiting
  unfolding encode_all sounds_of releases_of
  encode_all_lem [] e before m u w h room = (
    record { thread = e; deeds = [] },
    before,
    refl,
    record { waits = w; whole = sym (append-nil before); full = tt; released = refl },
  )
  encode_all_lem (w ∷ ws) e before zero u waits h room = absurd (omega arith)
  encode_all_lem (w ∷ ws) e before (suc m) u waits h room =
      let next = accumulate before w.packet.contents in
      let opened : length before + (s + s * m) ≡ pcm_bytes = omega arith in
      let fits : length before + length w.packet.contents ≤ pcm_bytes = omega (arith, u.0) in
      let (r, dealt, well) =
        deal_fits releaser e w.frame w.packet w.fresh w.reply before waits fits in
      let (m', positive, room') =
        accumulate-room s k m before w.packet.contents divides u.0 opened in
      let (a, waiting, ran, rest) =
        encode_all_lem ws r.thread next.0 m' u.1 well.waits positive room' in
      (
        record { thread = a.thread; deeds = r.deeds ++ a.deeds },
        waiting,
        rw (dealt, ran) refl,
        EncodesWell-cons w ws before r next a waiting
            (accumulate-Accumulates before w.packet.contents fits) well rest,
      )

module _ (releaser : Address) (s : ℕ) (apart : (k : ℕ) → s * k ≢ pcm_bytes) where
  overruns_from :
      (ws : List Work) (e : EncoderThread) (before : List ℕ) (j : ℕ)
      → Uniform s ws
      → Waits e before
      → length before ≡ s * j
      → length before < pcm_bytes
      → pcm_bytes < s * (j + length ws)
      → encode_all releaser e ws ≡ none
  unfolding encode_all accumulate
  overruns_from [] e before j u waits at below beyond =
      let same : s * (j + 0) ≡ s * j = ap (λ n. s * n) (omega arith) in absurd (omega (arith, same))
  overruns_from (w ∷ ws) e before j u waits at below beyond =
      let more : s * (j + 1) ≡ s * j + s = omega arith in
      let moved : s * (j + 1 + length ws) ≡ s * (j + suc (length ws)) =
        ap (λ n. s * n) (omega arith) in
      let measured = length-append before w.packet.contents in
      elim (Bool-cases (ltb pcm_bytes (length before + s))) [
        | inl over ↦
            let none' =
              deal_overruns releaser e w.frame w.packet w.fresh w.reply before waits
                (ground (arith, u.0)) in
            rw none' refl
        | inr not_over ↦
            let inside : length before + s < pcm_bytes =
              elim (Bool-cases (length before + s == pcm_bytes)) [
                | inl e₁ ↦ absurd (apart (j + 1) (ground (arith, more)))
                | inr e₁ ↦ ground arith
              ] in
            let (r, dealt, well) =
              deal_fits releaser e w.frame w.packet w.fresh w.reply before waits
                (omega (arith, u.0)) in
            let short : ltb (length (before ++ w.packet.contents)) pcm_bytes ≡ true =
              ground (arith, measured, u.0) in
            let next : accumulate before w.packet.contents ≡ (before ++ w.packet.contents, []) =
              rw (accumulate, short) refl in
            let rest =
              overruns_from ws r.thread (before ++ w.packet.contents) (j + 1) u.1
                (subst (λ n. Waits r.thread n.0) next well.waits)
                (omega (arith, measured, more, u.0)) (omega (arith, measured, u.0))
                (omega (arith, moved)) in
            rw (dealt, rest) refl
      ]

  -- A thread with an empty buffer leaves its 8192 bytes in any run of packets of `s` bytes each that
  -- are more than it holds together, if `s` does not divide 8192.
  pub encode_all_overruns :
      (ws : List Work) (e : EncoderThread)
      → Uniform s ws
      → Waits e []
      → pcm_bytes < s * length ws
      → encode_all releaser e ws ≡ none
  encode_all_overruns ws e u waits beyond =
      let same : s * (0 + length ws) ≡ s * length ws = ap (λ n. s * n) (omega arith) in
      overruns_from ws e [] 0 u waits (omega arith) (omega arith) (omega (arith, same))
