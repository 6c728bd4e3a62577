-- ===== src/Streamer/Life/Stop.antt =====
-- MediaStreamer.c: what a statement of mediaStreamer_stop leaves.
use koala_streamer.Prelude.{◌+◌, ◌≡◌, refl, sym, subst, inl, inr, true, List, arith, Bool-cases}
use koala_streamer.MediaMuxer.{Delegate, muxer_end, muxer_close}
use koala_streamer.Streamer.{
  Streamer, Deed, Functions, stop, PreparePoint, over, StopPoint, called, joining, ending, closing,
  settling,
}
use koala_streamer.Streamer.Life.{
  creations_in, joins_in, Quiet-map, threads, ended_threads, may_find, may_stop,
}
use koala_streamer.Streamer.Life.Points.{is_stopped, tested-stands, joined-stands, settled_over}

module _ {H E : Type 0} (d : Delegate H E) (fs : Functions) where
  -- What a step of mediaStreamer_stop leaves, where the thread is over if it was joined.
  pub record Stopped (sp : StopPoint) (p : PreparePoint) (s : Streamer H)
      (r : StopPoint × Streamer H × List (Deed E)) : Type 0 where
    pub creates : creations_in r.2 ≡ 0
    pub joins : ended_threads sp s.status + joins_in r.2 ≡ ended_threads r.0 r.1.status
    pub same : threads r.1.status ≡ threads s.status
    pub finds : may_find p r.1.status ≡ true
    pub stands : may_stop r.0 p r.1.status ≡ true

  pub stop-Stopped :
      (sp : StopPoint) (p : PreparePoint) (s : Streamer H)
      → may_find p s.status ≡ true
      → may_stop sp p s.status ≡ true
      → (sp ≡ joining → p ≡ over)
      → Stopped sp p s (stop d sp s)
  unfolding stop creations_in joins_in
  stop-Stopped called p s h k j = elim (Bool-cases (is_stopped s.status)) [
    | inl e ↦ rw e (record {
      creates = refl;
      joins = omega (arith, (tested-stands s.status p e).1);
      same = refl;
      finds = h;
      stands = (tested-stands s.status p e).0;
    })
    | inr e ↦
        rw e (record { creates = refl; joins = omega arith; same = refl; finds = h; stands = refl })
  ]
  stop-Stopped joining p s h k j =
      let at = j refl in
      record {
        creates = refl;
        joins = refl;
        same = refl;
        finds = h;
        stands = rw at (
            joined-stands s.status (subst (λ q. may_find q s.status ≡ true) at h)
              (subst (λ q. may_stop joining q s.status ≡ true) at k));
      }
  stop-Stopped ending p s h k j =
      let quiet = Quiet-map (muxer_end d s.muxer).1 in
      record {
        creates = quiet.0;
        joins = omega (arith, quiet.1);
        same = refl;
        finds = h;
        stands = k;
      }
  stop-Stopped closing p s h k j =
      let quiet = Quiet-map (muxer_close d s.muxer).1 in
      record {
        creates = quiet.0;
        joins = omega (arith, quiet.1);
        same = refl;
        finds = h;
        stands = k;
      }
  stop-Stopped settling p s h k j =
      let (at, past) = settled_over p s.status k in
      record { creates = refl; joins = refl; same = sym past; finds = rw at refl; stands = refl }
