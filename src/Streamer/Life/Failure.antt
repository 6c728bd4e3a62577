-- ===== src/Streamer/Life/Failure.antt =====
-- MediaStreamer.c: a streamer that could not be prepared.
use koala_streamer.Prelude.{◌≡◌, refl, ap, ap₂, sym, ◌∙◌, subst, true, some, List, []}
use koala_streamer.Prelude.Maybe.{some_injective}
use koala_streamer.MediaMuxer.{Delegate}
use koala_streamer.Streamer.{
  error, Streamer, Deed, Functions, stop, prepare_internal, PreparePoint, absent, beginning,
  opening, connecting, telling_ok, starting, returning, over, readied, telling, StopPoint, called,
}
use koala_streamer.Streamer.Life.{
  World, Step, sets, counts, refused, prepares, runs, stops, Reach, here, next, new_world, threads,
  ended_threads, may_find, IsValid,
}
use koala_streamer.Streamer.Life.Threads.{apply-status, prepare_again, Step-IsValid, Reach-IsValid}

module _ {H E : Type 0} (d : Delegate H E) (fs : Functions) where
  -- After an error the prepare thread only tells it and returns.
  error_runs :
      (p : PreparePoint) (s : Streamer H) (r : PreparePoint × Streamer H × List (Deed E))
      → may_find p error ≡ true
      → prepare_internal d fs p s ≡ some r
      → r.1.status ≡ s.status
  unfolding prepare_internal
  error_runs absent s r h e = cc
  error_runs beginning s r h e = cc
  error_runs opening s r h e = cc
  error_runs connecting s r h e = cc
  error_runs telling_ok s r h e = cc
  error_runs starting s r h e = cc
  error_runs (readied ret) s r h e = cc
  error_runs (telling event) s r h e = ap (λ z. z.1.status) (sym (some_injective e))
  error_runs returning s r h e = ap (λ z. z.1.status) (sym (some_injective e))
  error_runs over s r h e = cc

  error_stops :
      (sp : StopPoint) (s : Streamer H)
      → sp ≡ called
      → s.status ≡ error
      → stop d sp s ≡ (called, s, [])
  unfolding stop
  error_stops sp s h k = rw (h, k) refl

  -- Nothing is stopped, and the status is error.
  abbrev Fails : World H → Type 0
  Fails w = (w.streamer.status ≡ error) × (w.stopping ≡ called)

  Step-Fails : (w w' : World H) → IsValid w → Fails w → Step d fs w w' → Fails w'
  Step-Fails w w' v f (sets c e) = subst Fails (sym e) (apply-status w.streamer c ∙ f.0, f.1)
  Step-Fails w w' v f (counts st e) = subst Fails (sym e) f
  Step-Fails w w' v f (refused k e) =
      subst Fails (sym e) (ap (λ s. s.status) (prepare_again E w.streamer k).0 ∙ f.0, f.1)
  Step-Fails w w' v f (prepares k e) = cc
  Step-Fails w w' v f (runs r k e) =
      let found = subst (λ st. may_find w.thread st ≡ true) f.0 v.finds in
      subst Fails (sym e) (error_runs w.thread w.streamer r found k ∙ f.0, f.1)
  Step-Fails w w' v f (stops k e) =
      let r = error_stops w.stopping w.streamer f.1 f.0 in
      subst Fails (sym e) (ap (λ z. z.1.status) r ∙ f.0, ap (λ z. z.0) r)

  after_error : (w v : World H) → IsValid w → Fails w → Reach d fs w v → IsValid v × Fails v
  after_error w v r f here = (r, f)
  after_error w v r f (next {u = u} later step) =
      let (valid, fails) = after_error w u r f later in
      (Step-IsValid d fs u v valid step, Step-Fails u v valid fails step)

  -- Once the status is error while no call of mediaStreamer_stop is past its test, every world that
  -- is reached from there has this status, mediaStreamer_stop never passes its test, one thread was
  -- created and none was joined.
  pub error_stays :
      (w v : World H)
      → Reach d fs new_world w
      → w.stopping ≡ called
      → w.streamer.status ≡ error
      → Reach d fs w v
      → (v.streamer.status ≡ error) × (v.stopping ≡ called) × (v.creations ≡ 1) × (v.joins ≡ 0)
  error_stays w v r outside h later =
      let (valid, (status, still)) = after_error w v (Reach-IsValid d fs w r) (h, outside) later in
      (
        status,
        still,
        valid.created_once ∙ ap threads status,
        valid.joined_once ∙ ap₂ ended_threads still status,
      )
