-- ===== src/Streamer/Life/Prepare.antt =====
-- MediaStreamer.c: what a statement of the prepare thread leaves.
use koala_streamer.Prelude.{
  if◌then◌else◌, ◌≡◌, ◌&&◌, refl, sym, ◌∙◌, subst, inl, inr, Bool, true, false, some, List, [],
  arith, Bool-cases,
}
use koala_streamer.Prelude.Maybe.{>>=-eq-some, some_injective}
use koala_streamer.Prelude.Int.{ℤ, is_neg}
use koala_streamer.MediaMuxer.{Delegate, muxer_open, muxer_set_listener, muxer_prepare, muxer_start}
use koala_streamer.Streamer.{
  StreamerStatus, preparing, prepared, streaming, error, Streamer, Deed, Functions, start, connect,
  connect_audio, connect_video, prepare_internal, prepare_event_ok, prepare_event_error,
  PreparePoint, absent, beginning, opening, connecting, telling_ok, starting, returning, over,
  readied, telling,
}
use koala_streamer.Streamer.Life.{creations_in, joins_in, Quiet, Quiet-map, Quiet-notify, may_find}
use koala_streamer.Streamer.Life.Points.{lives, is_past}

module _ {H E : Type 0} (d : Delegate H E) (fs : Functions) where
  -- What a step of the prepare thread leaves, which neither creates nor joins.
  pub record Moves (p : PreparePoint) (s : Streamer H)
      (r : PreparePoint × Streamer H × List (Deed E)) : Type 0 where
    pub quiet : Quiet r.2
    pub live : lives p ≡ true
    pub from_past : is_past s.status ≡ true
    pub to_past : is_past r.1.status ≡ true
    pub finds : may_find r.0 r.1.status ≡ true

  connect-status :
      (s : Streamer H) (r : ℤ × Streamer H × List (Deed E))
      → connect d fs s ≡ some r
      → (r.1.status ≡ s.status) × Quiet r.2
  unfolding connect connect_audio connect_video
  connect-status s r e =
      let b₁ =
        >>=-eq-some (muxer_set_listener d (some s.muxer) (some fs.muxer_listener) (some fs.self)) _
          e in
      let b₂ = >>=-eq-some b₁.0.1 _ b₁.2 in
      let s' = connect_video d fs (connect_audio d fs (record s { muxer = b₂.0 })) in
      let b₃ = >>=-eq-some (muxer_prepare d s'.muxer) _ b₂.2 in
      let same : s'.status ≡ s.status = ground arith in
      subst (λ z. (z.1.status ≡ s.status) × Quiet z.2) (some_injective b₃.2)
        (same, Quiet-map b₃.0.2)

  -- A step between two given statuses.
  between-Moves :
      {p : PreparePoint} {s : Streamer H} {r : PreparePoint × Streamer H × List (Deed E)}
      (st st' : StreamerStatus)
      → s.status ≡ st
      → r.1.status ≡ st'
      → Quiet r.2
      → lives p && is_past st && is_past st' && may_find r.0 st' ≡ true
      → Moves p s r
  between-Moves {p} {s} {r} st st' at at' quiet h = record {
    quiet = quiet;
    live = ground (arith, h);
    from_past = rw at (ground (arith, h));
    to_past = rw at' (ground (arith, h));
    finds = rw at' (ground (arith, h));
  }

  opening-finds :
      (b : Bool) → may_find (if b then telling prepare_event_error else connecting) preparing ≡ true
  opening-finds true = refl
  opening-finds false = refl

  readied-Moves :
      (ret : ℤ) (s : Streamer H) (r : PreparePoint × Streamer H × List (Deed E))
      → s.status ≡ preparing
      → prepare_internal d fs (readied ret) s ≡ some r
      → Moves (readied ret) s r
  unfolding prepare_internal creations_in joins_in
  readied-Moves ret s r at e =
      let bad : PreparePoint × Streamer H × List (Deed E) =
        (telling prepare_event_error, record s { status = error }, []) in
      let good : PreparePoint × Streamer H × List (Deed E) =
        (telling_ok, record s { status = prepared }, []) in
      elim (Bool-cases (is_neg ret)) [
        | inl e₁ ↦
            subst (Moves (readied ret) s) (some_injective {a = bad} (sym (rw e₁ refl) ∙ e))
              (between-Moves preparing error at refl (refl, refl) refl)
        | inr e₁ ↦
            subst (Moves (readied ret) s) (some_injective {a = good} (sym (rw e₁ refl) ∙ e))
              (between-Moves preparing prepared at refl (refl, refl) refl)
      ]

  pub prepare_internal-Moves :
      (p : PreparePoint) (s : Streamer H) (r : PreparePoint × Streamer H × List (Deed E))
      → may_find p s.status ≡ true
      → prepare_internal d fs p s ≡ some r
      → Moves p s r
  unfolding prepare_internal start creations_in joins_in
  prepare_internal-Moves absent s r h e = cc
  prepare_internal-Moves beginning s r h e =
      let at : s.status ≡ preparing = ground (arith, h) in
      subst (Moves beginning s) (some_injective e)
        (between-Moves preparing preparing at at (refl, refl) (rw at refl))
  prepare_internal-Moves opening s r h e =
      let at : s.status ≡ preparing = ground (arith, h) in
      let ret = (muxer_open d s.muxer s.out_name s.out_format s.data_cb.element).0 in
      subst (Moves opening s) (some_injective e)
        (between-Moves preparing preparing at at (refl, refl) (opening-finds (is_neg ret)))
  prepare_internal-Moves connecting s r h e =
      let at : s.status ≡ preparing = ground (arith, h) in
      let b = >>=-eq-some (connect d fs s) _ e in
      let (same, quiet) = connect-status s b.0 b.1 in
      subst (Moves connecting s) (some_injective b.2)
        (between-Moves preparing preparing at (same ∙ at) quiet refl)
  prepare_internal-Moves (readied ret) s r h e = readied-Moves ret s r (ground (arith, h)) e
  prepare_internal-Moves (telling event) s r h e =
      subst (Moves (telling event) s) (some_injective e)
        (between-Moves s.status s.status refl refl (Quiet-notify E s event) (ground (arith, h)))
  prepare_internal-Moves telling_ok s r h e = subst (Moves telling_ok s) (some_injective e) (
      between-Moves s.status s.status refl refl (Quiet-notify E s prepare_event_ok)
        (ground (arith, h)))
  prepare_internal-Moves starting s r h e = subst (Moves starting s) (some_injective e) (
      between-Moves s.status streaming refl refl (Quiet-map (muxer_start d s.muxer).2)
        (ground (arith, h)))
  prepare_internal-Moves returning s r h e =
      subst (Moves returning s) (some_injective e)
        (between-Moves s.status s.status refl refl (refl, refl) (ground (arith, h)))
  prepare_internal-Moves over s r h e = cc
