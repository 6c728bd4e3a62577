-- ===== src/App/Main/Order/Steps.antt =====
-- MacRTMPStreamer.cpp, main: the order of its deeds under one step of a thread.
use koala_streamer.Prelude.{
  ◌≡◌, refl, sym, ap, ◌∙◌, subst, Bool, true, false, not, ◌||◌, Option, none, some, List, ◌∷◌,
  arith, Bool-cases, inl, inr,
}
use koala_streamer.Streamer.{StreamerStatus}
use koala_streamer.App.{StreamerCont}
use koala_streamer.App.Main.{Object, Thread, preparing, muxing, Deed, makes, deletes, starts, joins}
use koala_streamer.App.Main.Uses.{same_object, same_thread, at_object, at_thread}
use koala_streamer.App.Main.Threads.{
  World, Step, made, used, deleted, started, prepared, told, joined, heard, stops, touches, begins,
  spawns, ends, Reach, here, next, before,
}
use koala_streamer.App.Main.Order.{
  runs_after, still_runs, in_order, nobody, same_thread-eq, and_left, and_right, also_runs_self,
  runs_after-keeps, runs_after-spawns, still_runs-fewer, still_runs-spawns,
}

module _ (c : StreamerCont) (s : StreamerStatus) (t : Thread) (o : Object) where
  -- `may_run` has every thread that runs, on what main has left to do, whether the object is there,
  -- and what the threads do.
  pub record IsOrdered (ds : List Deed) (a : Bool) (doing : Thread → Option (List Object))
      : Type 0 where
    pub may_run : Thread → Bool
    pub runs : (u : Thread) (os : List Object) → doing u ≡ some os → may_run u ≡ true
    pub spawns : may_run preparing ≡ true → may_run muxing ≡ true
    pub there : may_run t ≡ true → a ≡ true
    pub order : in_order t o may_run a ds ≡ true

  abbrev pub Orders : World → Type 0
  Orders w = IsOrdered w.todo (w.alive o) w.doing

  -- Main goes on, and nothing else changes.
  Orders-on :
      {d : Deed} {ds : List Deed} {a : Bool} {doing : Thread → Option (List Object)}
      → ((r : Thread → Bool) → in_order t o r a (d ∷ ds) ≡ in_order t o r a ds)
      → IsOrdered (d ∷ ds) a doing
      → IsOrdered ds a doing
  Orders-on same v = record {
    may_run = v.may_run;
    runs = v.runs;
    spawns = v.spawns;
    there = v.there;
    order = sym (same v.may_run) ∙ v.order;
  }

  -- A thread that runs does something else, or ends.
  Orders-doing :
      {ds : List Deed} {a : Bool} {f g : Thread → Option (List Object)} (v : IsOrdered ds a f)
      → ((u : Thread) (os : List Object) → g u ≡ some os → v.may_run u ≡ true)
      → IsOrdered ds a g
  Orders-doing v h = record {
    may_run = v.may_run;
    runs = h;
    spawns = v.spawns;
    there = v.there;
    order = v.order;
  }

  at_thread-runs :
      (r : Thread → Bool) (f : Thread → Option (List Object)) (u : Thread)
      (x : Option (List Object))
      → r u ≡ true
      → ((v : Thread) (os : List Object) → f v ≡ some os → r v ≡ true)
      → (v : Thread) (os : List Object) → at_thread f u x v ≡ some os
      → r v ≡ true
  at_thread-runs r f u x h k v os e = elim (Bool-cases (same_thread u v)) [
    | inl same ↦ subst (λ z. r z ≡ true) (same_thread-eq u v same) h
    | inr other ↦ k v os (sym (rw other refl) ∙ e)
  ]

  not_runs : (r : Bool) → not r ≡ true → r ≡ true → ⊥
  not_runs r h k = cc

  Orders-makes :
      (x : Object) (ds : List Deed) (alive : Object → Bool) (f : Thread → Option (List Object))
      → IsOrdered (makes x ∷ ds) (alive o) f
      → IsOrdered ds (at_object alive x true o) f
  unfolding in_order
  Orders-makes x ds alive f v = record {
    may_run = v.may_run;
    runs = v.runs;
    spawns = v.spawns;
    there = λ h. ground (arith, v.there h);
    order = v.order;
  }

  Orders-deletes :
      (x : Object) (ds : List Deed) (alive : Object → Bool) (f : Thread → Option (List Object))
      → IsOrdered (deletes x ∷ ds) (alive o) f
      → IsOrdered ds (at_object alive x false o) f
  unfolding in_order
  Orders-deletes x ds alive f v = elim (Bool-cases (same_object x o)) [
    | inl same ↦
        let both = sym (rw same refl) ∙ v.order in
        rw same (record {
          may_run = v.may_run;
          runs = v.runs;
          spawns = v.spawns;
          there = λ h. absurd (not_runs (v.may_run t) (and_left _ _ both) h);
          order = and_right (not (v.may_run t)) _ both;
        })
    | inr other ↦ rw other (record {
      may_run = v.may_run;
      runs = v.runs;
      spawns = v.spawns;
      there = v.there;
      order = sym (rw other refl) ∙ v.order;
    })
  ]

  Orders-starts :
      (u : Thread) (x : Option (List Object)) (ds : List Deed) (a : Bool)
      (f : Thread → Option (List Object))
      → IsOrdered (starts u ∷ ds) a f
      → IsOrdered ds a (at_thread f u x)
  unfolding in_order
  Orders-starts u x ds a f v =
      let r = runs_after v.may_run u in
      let fits = and_left (not (r t) || a) (in_order t o r a ds) v.order in
      record {
        may_run = runs_after v.may_run u;
        runs =
            at_thread-runs (runs_after v.may_run u) f u x (rw (also_runs_self u) refl)
              (λ w os e. runs_after-keeps v.may_run u w (v.runs w os e));
        spawns = runs_after-spawns v.may_run u v.spawns;
        there = λ h. ground (arith, fits, h);
        order = and_right (not (r t) || a) (in_order t o r a ds) v.order;
      }

  Orders-joins :
      (u : Thread) (ds : List Deed) (a : Bool) (f : Thread → Option (List Object))
      → f u ≡ none
      → IsOrdered (joins u ∷ ds) a f
      → IsOrdered ds a f
  unfolding in_order
  Orders-joins u ds a f over v = record {
    may_run = still_runs v.may_run u;
    runs = λ w os e. elim (Bool-cases (same_thread u w)) [
      | inl same ↦ absurd (let here = ap f (same_thread-eq u w same) in cc)
      | inr other ↦ rw other (v.runs w os e)
    ];
    spawns = still_runs-spawns v.may_run u v.spawns;
    there = λ h. v.there (still_runs-fewer v.may_run u t v.spawns h);
    order = v.order;
  }

  Orders-todo :
      (w : World) {ds : List Deed} → Orders w → w.todo ≡ ds → IsOrdered ds (w.alive o) w.doing
  Orders-todo w v h = subst (λ ds. IsOrdered ds (w.alive o) w.doing) h v

  -- One step keeps the order.
  Step-Orders : (w w' : World) → Orders w → Step c s w w' → Orders w'
  unfolding in_order
  Step-Orders w w' v (made x ds h e) =
      subst Orders (sym e) (Orders-makes x ds w.alive w.doing (Orders-todo w v h))
  Step-Orders w w' v (used x ds h e) =
      subst Orders (sym e) (Orders-on (λ r. refl) (Orders-todo w v h))
  Step-Orders w w' v (deleted x ds h e) =
      subst Orders (sym e) (Orders-deletes x ds w.alive w.doing (Orders-todo w v h))
  Step-Orders w w' v (started u ds h k e) =
      subst Orders (sym e) (Orders-starts u _ ds _ w.doing (Orders-todo w v h))
  Step-Orders w w' v (prepared os ds h k e) =
      subst Orders (sym e) (Orders-starts preparing _ ds _ w.doing (Orders-todo w v h))
  Step-Orders w w' v (told u ds h e) =
      subst Orders (sym e) (Orders-on (λ r. refl) (Orders-todo w v h))
  Step-Orders w w' v (joined u ds h k e) =
      subst Orders (sym e) (Orders-joins u ds _ w.doing k (Orders-todo w v h))
  Step-Orders w w' v (heard ds h k e) =
      subst Orders (sym e) (Orders-on (λ r. refl) (Orders-todo w v h))
  Step-Orders w w' v (stops e) = subst Orders (sym e) v
  Step-Orders w w' v (touches u x os h e) =
      subst Orders (sym e)
        (Orders-doing v (at_thread-runs v.may_run w.doing u _ (v.runs u _ h) v.runs))
  Step-Orders w w' v (begins u os h k r e) =
      subst Orders (sym e)
        (Orders-doing v (at_thread-runs v.may_run w.doing u _ (v.runs u _ h) v.runs))
  Step-Orders w w' v (spawns os h k r e) =
      let prepares = v.runs preparing _ h in
      let after = at_thread-runs v.may_run w.doing muxing (some os) (v.spawns prepares) v.runs in
      subst Orders (sym e)
        (Orders-doing v (at_thread-runs v.may_run _ preparing none prepares after))
  Step-Orders w w' v (ends u h k e) =
      subst Orders (sym e)
        (Orders-doing v (at_thread-runs v.may_run w.doing u _ (v.runs u _ h) v.runs))

  Reach-Orders : (w w' : World) → Orders w → Reach c s w w' → Orders w'
  Reach-Orders w w' v here = v
  Reach-Orders w w' v (next {u = u} r st) = Step-Orders u w' (Reach-Orders w u v r) st

  -- The test of an order of deeds is enough: over every interleaving, the object is there as long as
  -- the thread runs.
  pub in_order_lem :
      (ds : List Deed) (w : World)
      → in_order t o nobody false ds ≡ true
      → Reach c s (before ds) w
      → (os : List Object) → w.doing t ≡ some os
      → w.alive o ≡ true
  in_order_lem ds w h r os e =
      let v =
        Reach-Orders (before ds) w
          (record {
            may_run = nobody;
            runs = λ u us k. cc;
            spawns = λ k. cc;
            there = λ k. cc;
            order = h;
          })
          r in
      v.there (v.runs t os e)
