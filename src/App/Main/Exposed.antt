-- ===== src/App/Main/Exposed.antt =====
-- MacRTMPStreamer.cpp, main: about the objects that destroyMediaThread deletes before the joins.
use koala_streamer.Prelude.{
  ℕ, ◌≡◌, ◌⊎◌, refl, sym, ◌∙◌, subst, inl, inr, Bool, true, Option, none, some, List, [], ◌∷◌,
  Bool-cases,
}
use koala_streamer.Prelude.Maybe.{some_injective}
use koala_streamer.Streamer.{StreamerStatus}
use koala_streamer.App.{StreamerCont}
use koala_streamer.App.Main.{Object, Thread, preparing, muxing, Deed, Places, stoppable, main}
use koala_streamer.App.Main.Uses.{at_thread, same_thread}
use koala_streamer.App.Main.Threads.{
  World, Step, made, used, deleted, started, prepared, told, joined, heard, stops, touches, begins,
  spawns, ends, Reach, here, next, before,
}
use koala_streamer.App.Main.Order.{same_thread-eq}
use koala_streamer.App.Main.Guarded.{guarded, main-guarded}
use koala_streamer.App.Main.Rounds.{exposed, usable, All, Round-All}

module _ (st : Bool) where
  -- Every thread has only such uses left.
  abbrev Usable : (Thread → Option (List Object)) → Type 0
  Usable doing = (t : Thread) (os : List Object) → doing t ≡ some os → All (usable st t) os

  at_thread-Usable :
      (f : Thread → Option (List Object)) (t : Thread) (x : Option (List Object))
      → ((os : List Object) → x ≡ some os → All (usable st t) os)
      → Usable f
      → Usable (at_thread f t x)
  at_thread-Usable f t x h k u os e = elim (Bool-cases (same_thread t u)) [
    | inl same ↦
        subst (λ v. All (usable st v) os) (same_thread-eq t u same) (h os (sym (rw same refl) ∙ e))
    | inr other ↦ k u os (sym (rw other refl) ∙ e)
  ]

  All-some :
      (t : Thread) (xs os : List Object)
      → All (usable st t) xs
      → some xs ≡ some os
      → All (usable st t) os
  All-some t xs os h e = subst (All (usable st t)) (some_injective e) h

  Step-Usable :
      (c : StreamerCont) (s : StreamerStatus) (w w' : World)
      → Usable w.doing
      → Step c s w w'
      → Usable w'.doing
  Step-Usable c s w w' v (made x ds h e) = rw e v
  Step-Usable c s w w' v (used x ds h e) = rw e v
  Step-Usable c s w w' v (deleted x ds h e) = rw e v
  Step-Usable c s w w' v (started u ds h k e) =
      rw e (at_thread-Usable w.doing u _ (λ os. All-some u [] os tt) v)
  Step-Usable c s w w' v (prepared xs ds h k e) = rw e (
      at_thread-Usable w.doing preparing _
        (λ os. All-some preparing xs os (Round-All st c preparing xs k)) v)
  Step-Usable c s w w' v (told u ds h e) = rw e v
  Step-Usable c s w w' v (joined u ds h k e) = rw e v
  Step-Usable c s w w' v (heard ds h k e) = rw e v
  Step-Usable c s w w' v (stops e) = rw e v
  Step-Usable c s w w' v (touches u x xs h e) =
      rw e (at_thread-Usable w.doing u _ (λ os. All-some u xs os (v u (x ∷ xs) h).1) v)
  Step-Usable c s w w' v (begins u xs h k r e) =
      rw e (at_thread-Usable w.doing u _ (λ os. All-some u xs os (Round-All st c u xs r)) v)
  Step-Usable c s w w' v (spawns xs h k r e) =
      let first =
        at_thread-Usable w.doing muxing _ (λ os. All-some muxing xs os (Round-All st c muxing xs r))
          v in
      rw e
        (at_thread-Usable (at_thread w.doing muxing (some xs)) preparing none (λ os k₁. cc) first)
  Step-Usable c s w w' v (ends u h k e) = rw e (at_thread-Usable w.doing u none (λ os k₁. cc) v)

  Reach-Usable :
      (c : StreamerCont) (s : StreamerStatus) (ds : List Deed) (w : World)
      → Reach c s (before ds) w
      → Usable w.doing
  Reach-Usable c s ds w here = λ t os e. cc
  Reach-Usable c s ds w (next {u = u} r step) = Step-Usable c s u w (Reach-Usable c s ds u r) step

-- However main and the threads that it starts take turns, from its first deed to its last: the object
-- that a thread is about to use is there, unless it is one of the encoders and queues, used by the
-- capturing thread or by a thread of the streamer, or the status that mediaStreamer_stop finds makes
-- it join nothing and a thread of the streamer uses the object. No encoder thread uses an object that
-- is not there.
pub about_to_use_lem :
    (fuel : ℕ) (at : Places) (c : StreamerCont) (s : StreamerStatus) (ds : List Deed) (w : World)
    (t : Thread) (o : Object) (os : List Object)
    → main fuel at c s ≡ some ds
    → Reach c s (before ds) w
    → w.doing t ≡ some (o ∷ os)
    → (w.alive o ≡ true) ⊎ (exposed (stoppable s) t o ≡ true)
about_to_use_lem fuel at c s ds w t o os builds r e =
    let mine = (Reach-Usable (stoppable s) c s ds w r t (o ∷ os) e).0 in
    elim (Bool-cases (guarded (stoppable s) t o)) [
      | inl guards ↦ inl (main-guarded fuel at c s ds w t o (o ∷ os) builds guards r e)
      | inr open_use ↦ inr (sym (rw open_use refl) ∙ mine)
    ]
