-- ===== src/App/Commands/Laws.antt =====
-- MacRTMPStreamer.cpp, main: what its loop over characters does, and when it is left.
use mathlib.Core.List.{map-append}
use koala_streamer.Prelude.{
  ℕ, ◌≡◌, refl, sym, ap, ap₂, ◌∙◌, true, false, some, List, [], ◌∷◌, arith, map, if◌then◌else◌,
  Bool-cases, inl, inr, ◌++◌, append-nil, append_assoc,
}
use koala_streamer.Prelude.Maybe.{◌>>=◌}
use koala_streamer.Prelude.Int.{ℤ}
use koala_streamer.Statistics.History.{rate-ends}
use koala_streamer.Streamer.{index_of, stream_bit_rate, band_wide_factor, reset_statistician}
use koala_streamer.App.{StreamerCont}
use koala_streamer.App.Capture.{meet, left, running}
use koala_streamer.App.Commands.{
  Key, is_quit, is_info, is_last, Report, Commanded, size_of, info, command, commands, heeded,
  quits, met_all, printed, resets, IsInside, AllInside,
}

quit_alone : {H : Type 0} (k : Key H) → is_quit k ≡ true → is_info k ≡ false
quit_alone k h = ground (arith, h)

resets-cons :
    {H : Type 0} (k : Key H) (ks : List (Key H)) → resets (k ∷ ks) ≡ resets (k ∷ []) ++ resets ks
unfolding resets
resets-cons k ks = elim (Bool-cases (is_info k)) [ inl e ↦ rw e refl | inr e ↦ rw e refl ]

module _ {H F : Type 0} (rate : ℕ → ℤ → ℕ) (factor : ℕ → ℤ → F) where
  printed-cons :
      (c : StreamerCont) (k : Key H) (ks : List (Key H))
      → printed rate factor c (k ∷ ks)
        ≡ printed rate factor c (k ∷ []) ++ printed rate factor (meet c k.others) ks
  unfolding printed
  printed-cons c k ks = elim (Bool-cases (is_info k)) [ inl e ↦ rw e refl | inr e ↦ rw e refl ]

  info-ends :
      (c : StreamerCont) (k : Key H)
      → IsInside k.for_video.streamer.video_index
      → IsInside k.for_audio.streamer.audio_index
      → (r : Report F) × (info rate factor c k ≡ some r)
  unfolding info stream_bit_rate index_of
  info-ends c k v a =
      let first = rate-ends rate k.for_video.streamer.statistics _ k.for_video.now v in
      let second = rate-ends rate k.for_audio.streamer.statistics _ k.for_audio.now a in
      let r : Report F = record {
        ve_size = size_of c.ve_queue;
        ae_size = size_of c.ae_queue;
        factor = band_wide_factor factor k.for_factor.streamer k.for_factor.now;
        video_rate = first.0;
        audio_rate = second.0;
      } in
      (r, rw (first.1, second.1) refl)

  -- What a round leaves.
  record Did (m : Commanded H F) (k : Key H) : Type 0 where
    next : Commanded H F
    ends : command rate factor m k ≡ some next
    cont : next.cont ≡ record (meet m.cont k.others) { stop = is_last k }
    reports : map some next.reports ≡ map some m.reports ++ printed rate factor m.cont (k ∷ [])
    renewed : next.renewed ≡ m.renewed ++ resets (k ∷ [])

  command_lem :
      (m : Commanded H F) (k : Key H)
      → m.cont.stop ≡ false
      → IsInside k.for_video.streamer.video_index
      → IsInside k.for_audio.streamer.audio_index
      → Did m k
  unfolding command resets printed meet
  command_lem m k on v a =
      let c = meet m.cont k.others in
      let told = info-ends c k v a in
      let flag : (if k.others.stops then true else m.cont.stop) ≡ k.others.stops =
        ground (arith, on) in
      elim (Bool-cases (is_quit k)) [
        | inl quit ↦ record {
          next = record m { cont = record c { stop = true } };
          ends = rw quit refl;
          cont = rw quit refl;
          reports = rw (quit_alone k quit) (sym (append-nil (map some m.reports)));
          renewed = rw (quit_alone k quit) (sym (append-nil m.renewed));
        }
        | inr other ↦ elim (Bool-cases (is_info k)) [
          | inl asks ↦ record {
            next = record {
              cont = c;
              reports = m.reports ++ told.0 ∷ [];
              renewed = m.renewed ++ reset_statistician k.for_reset k.clock ∷ [];
            };
            ends = rw (other, asks, told.1) refl;
            cont = rw other (ap (λ b. record c { stop = b }) flag);
            reports = rw (asks, told.1) (map-append some m.reports (told.0 ∷ []));
            renewed = rw asks refl;
          }
          | inr silent ↦ record {
            next = record m { cont = c };
            ends = rw (other, silent) refl;
            cont = rw other (ap (λ b. record c { stop = b }) flag);
            reports = rw silent (sym (append-nil (map some m.reports)));
            renewed = rw silent (sym (append-nil m.renewed));
          }
        ]
      ]

  meet-goes :
      (c : StreamerCont) (k : Key H)
      → c.stop ≡ false
      → is_last k ≡ false
      → record (meet c k.others) { stop = is_last k } ≡ meet c k.others
  unfolding meet
  meet-goes c k on goes =
      let same : is_last k ≡ (if k.others.stops then true else c.stop) = ground (arith, on, goes) in
      ap (λ b. record (meet c k.others) { stop = b }) same

  -- The loop's result, what is printed and what is left.
  pub record Answer (m : Commanded H F) (ks : List (Key H)) : Type 0 where
    pub last : Commanded H F
    pub ends : commands rate factor m ks ≡ some (if quits ks then left last else running last)
    pub cont : last.cont ≡ record (met_all m.cont (heeded ks)) { stop = quits ks }
    pub reports :
        map some last.reports ≡ map some m.reports ++ printed rate factor m.cont (heeded ks)
    pub renewed : last.renewed ≡ m.renewed ++ resets (heeded ks)

  commands-stopped :
      (ks : List (Key H)) (m : Commanded H F)
      → m.cont.stop ≡ true
      → commands rate factor m ks ≡ some (left m)
  unfolding commands
  commands-stopped [] m h = rw h refl
  commands-stopped (k ∷ ks) m h = rw h refl

  commands-cons :
      (k : Key H) (ks : List (Key H)) (m m' : Commanded H F)
      → m.cont.stop ≡ false
      → command rate factor m k ≡ some m'
      → commands rate factor m (k ∷ ks) ≡ commands rate factor m' ks
  unfolding commands
  commands-cons k ks m m' on e =
      let rest = command rate factor m k >>= (λ n. commands rate factor n ks) in
      ap (λ b. if b then some (left m) else rest) on
      ∙ ap (λ o. o >>= (λ n. commands rate factor n ks)) e

  -- From a running program, where the two indices are within the array whenever a rate is read, and
  -- whatever the other threads do to the queues, the pool and the streamer meanwhile: the loop
  -- returns; it is left exactly after the first round in which 'q' is typed or another thread has set
  -- `stop` by its end; until then, this round included, it prints for each 'i', in order, the sizes of
  -- the queues as the other threads left them and the statistics of the streamer as each call found
  -- it, and resets the streamer that the reset found; and to the queues and the pool it does nothing.
  pub commands_lem :
      (ks : List (Key H)) (m : Commanded H F) → m.cont.stop ≡ false → AllInside ks → Answer m ks
  unfolding commands quits heeded met_all printed resets
  commands_lem [] m on v = record {
    last = m;
    ends = rw on refl;
    cont = ap (λ b. record m.cont { stop = b }) on;
    reports = sym (append-nil (map some m.reports));
    renewed = sym (append-nil m.renewed);
  }
  commands_lem (k ∷ ks) m on (v, a, inside) =
      let did = command_lem m k on v a in
      let stops = ap (λ c. c.stop) did.cont in
      elim (Bool-cases (is_last k)) [
        | inl over ↦ record {
          last = did.next;
          ends =
              commands-cons k ks m did.next on did.ends
              ∙ rw over (commands-stopped ks did.next (stops ∙ over));
          cont = rw over (did.cont ∙ ap (λ b. record (meet m.cont k.others) { stop = b }) over);
          reports = rw over did.reports;
          renewed = rw over did.renewed;
        }
        | inr goes ↦
            let rest = commands_lem ks did.next (stops ∙ goes) inside in
            let same = did.cont ∙ meet-goes m.cont k on goes in
            record {
              last = rest.last;
              ends = commands-cons k ks m did.next on did.ends ∙ rw goes rest.ends;
              cont = rw goes (
                  rest.cont
                  ∙ ap {A = StreamerCont} (λ c. record (met_all c (heeded ks)) { stop = quits ks })
                      same);
              reports = rw goes (
                  rest.reports
                  ∙ ap₂ (◌++◌) did.reports (ap (λ c. printed rate factor c (heeded ks)) same)
                  ∙ append_assoc (map some m.reports) (printed rate factor m.cont (k ∷ [])) _
                  ∙ ap (λ xs. map some m.reports ++ xs) (sym (printed-cons m.cont k (heeded ks))));
              renewed = rw goes (
                  rest.renewed
                  ∙ ap (λ xs. xs ++ resets (heeded ks)) did.renewed
                  ∙ append_assoc m.renewed (resets (k ∷ [])) (resets (heeded ks))
                  ∙ ap (λ xs. m.renewed ++ xs) (sym (resets-cons k (heeded ks))));
            }
      ]
