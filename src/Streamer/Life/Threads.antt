-- ===== src/Streamer/Life/Threads.antt =====
-- MediaStreamer.c: the prepare thread over the life of a streamer, beside a call of mediaStreamer_stop.
use koala_streamer.Prelude.{◌≡◌, ◌≢◌, refl, ap, ap₂, sym, ◌∙◌, subst, true, [], arith}
use koala_streamer.MediaMuxer.{Delegate}
use koala_streamer.Streamer.{
  init, preparing, Streamer, Functions, set_in_put, set_out_put, set_listener, setopt, prepare,
  called,
}
use koala_streamer.Streamer.Life.{
  creations_in, joins_in, Setting, apply, World, Step, sets, counts, refused, prepares, runs, stops,
  Reach, here, next, new_world, threads, ended_threads, may_stop, IsValid,
}
use koala_streamer.Streamer.Life.Points.{live-may_stop, past-threads, init-stops}
use koala_streamer.Streamer.Life.Prepare.{prepare_internal-Moves}
use koala_streamer.Streamer.Life.Stop.{stop-Stopped}

pub apply-status : {H : Type 0} (s : Streamer H) (c : Setting) → (apply s c).status ≡ s.status
unfolding apply set_in_put set_out_put set_listener setopt
apply-status s c = ground arith

prepare_first :
    {H : Type 0} (E : Type 0) (s : Streamer H)
    → s.status ≡ init
    → ((prepare {E = E} s).0.status ≡ preparing)
      × (creations_in (prepare {E = E} s).1 ≡ 1)
      × (joins_in (prepare {E = E} s).1 ≡ 0)
unfolding prepare creations_in joins_in
prepare_first E s h = ground arith

pub prepare_again :
    {H : Type 0} (E : Type 0) (s : Streamer H)
    → s.status ≢ init
    → ((prepare {E = E} s).0 ≡ s) × ((prepare {E = E} s).1 ≡ [])
unfolding prepare
prepare_again E s h = ground arith

module _ {H E : Type 0} (d : Delegate H E) (fs : Functions) where
  pub Step-IsValid : (w w' : World H) → IsValid w → Step d fs w w' → IsValid w'
  unfolding creations_in joins_in
  Step-IsValid w w' v (sets c e) =
      let same = apply-status w.streamer c in
      subst IsValid (sym e) (record {
        created_once = rw same v.created_once;
        joined_once = rw same v.joined_once;
        finds = rw same v.finds;
        stands = rw same v.stands;
      })
  Step-IsValid w w' v (counts st e) = subst IsValid (sym e) (record {
    created_once = v.created_once;
    joined_once = v.joined_once;
    finds = v.finds;
    stands = v.stands;
  })
  Step-IsValid w w' v (refused h e) =
      let (same, nothing) = prepare_again E w.streamer h in
      subst IsValid (sym e) (record {
        created_once = rw (same, nothing, v.created_once) (omega arith);
        joined_once = rw (same, nothing, v.joined_once) (omega arith);
        finds = rw same v.finds;
        stands = rw same v.stands;
      })
  Step-IsValid w w' v (prepares h e) =
      let (status, creates, joins) = prepare_first E w.streamer h in
      let outside : w.stopping ≡ called =
        init-stops w.stopping w.thread
          (subst (λ st. may_stop w.stopping w.thread st ≡ true) h v.stands) in
      let clean : w.creations ≡ 0 = v.created_once ∙ ap threads h in
      let unjoined : w.joins ≡ 0 = v.joined_once ∙ ap₂ ended_threads outside h in
      subst IsValid (sym e) (record {
        created_once = rw (status, creates, clean) refl;
        joined_once = rw (status, joins, unjoined, outside) refl;
        finds = rw status refl;
        stands = rw (status, outside) refl;
      })
  Step-IsValid w w' v (runs r k e) =
      let m = prepare_internal-Moves d fs w.thread w.streamer r v.finds k in
      let (stands, same) =
        live-may_stop w.stopping w.thread r.0 w.streamer.status r.1.status v.stands m.live
          m.from_past m.to_past in
      let past = past-threads w.streamer.status m.from_past in
      let past' = past-threads r.1.status m.to_past in
      subst IsValid (sym e) (record {
        created_once = rw (m.quiet.0, v.created_once, past, past') refl;
        joined_once = rw (m.quiet.1, v.joined_once, same) (omega arith);
        finds = m.finds;
        stands = stands;
      })
  Step-IsValid w w' v (stops h e) =
      let m = stop-Stopped d fs w.stopping w.thread w.streamer v.finds v.stands h in
      subst IsValid (sym e) (record {
        created_once = rw (m.creates, v.created_once, m.same) (omega arith);
        joined_once = rw v.joined_once m.joins;
        finds = m.finds;
        stands = m.stands;
      })

  -- In a world that is reached from a new streamer by calls that set something, countings, prepares,
  -- and the statements of the prepare thread and of mediaStreamer_stop, in any order in which
  -- pthread_join alone waits for the end of the thread: a prepare thread was created exactly if the
  -- status is past the first, and once; it was joined at most once, and was so exactly if
  -- mediaStreamer_stop is past pthread_join or, outside the call and before its test, the status is
  -- stoped; each point of the thread finds only the statuses that may_find lists for it; and during
  -- the call the status is not the first, past pthread_join the thread is over, and before its last
  -- assignment the status is not stoped.
  pub Reach-IsValid : (w : World H) → Reach d fs new_world w → IsValid w
  Reach-IsValid w here = record {
    created_once = refl;
    joined_once = refl;
    finds = refl;
    stands = refl;
  }
  Reach-IsValid w (next {u = u} r step) = Step-IsValid u w (Reach-IsValid u r) step
