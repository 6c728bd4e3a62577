-- ===== src/App/Main/Race.antt =====
-- MacRTMPStreamer.cpp, main: its deeds in destroyMediaThread while the capturing thread and the
-- muxing thread stand still in the middle of a round.
use koala_streamer.Prelude.{
  ◌≡◌, refl, sym, ap, ◌∙◌, subst, inl, inr, Bool, true, false, ◌&&◌, Option, none, some, List, [],
  ◌∷◌, ◌++◌, Bool-cases, arith, Option-cases,
}
use koala_streamer.Streamer.{StreamerStatus}
use koala_streamer.App.{StreamerCont}
use koala_streamer.App.Main.{
  Object, Thread, capturing, preparing, muxing, encoding_video, encoding_audio, Deed, makes, uses,
  deletes, starts, tells, joins, waits_stop,
}
use koala_streamer.App.Main.Uses.{at_object, at_thread, same_thread}
use koala_streamer.App.Main.Threads.{
  World, made, used, deleted, told, joined, touches, ends, Reach, here, next, Reach-trans, may_end,
}
use koala_streamer.App.Main.Order.{same_thread-eq}

abbrev pub is_encoder : Thread → Bool
is_encoder encoding_video = true
is_encoder encoding_audio = true
is_encoder _ = false

-- Main starts nothing and waits for nothing but encoders that were told to end.
unfoldable pub is_clear : (Thread → Bool) → List Deed → Bool
is_clear asked [] = true
is_clear asked (makes o ∷ ds) = is_clear asked ds
is_clear asked (uses o ∷ ds) = is_clear asked ds
is_clear asked (deletes o ∷ ds) = is_clear asked ds
is_clear asked (starts t ∷ ds) = false
is_clear asked (waits_stop ∷ ds) = false
is_clear asked (tells t ∷ ds) = is_clear (at_thread asked t true) ds
is_clear asked (joins t ∷ ds) = is_encoder t && asked t && is_clear asked ds

unfoldable pub alive_after : (Object → Bool) → List Deed → Object → Bool
alive_after f [] = f
alive_after f (makes o ∷ ds) = alive_after (at_object f o true) ds
alive_after f (deletes o ∷ ds) = alive_after (at_object f o false) ds
alive_after f (d ∷ ds) = alive_after f ds

-- A world that main reaches with nobody else but the encoders moving.
pub record Gone (c : StreamerCont) (s : StreamerStatus) (w : World) (ds rest : List Deed)
    : Type 0 where
  pub last : World
  pub reach : Reach c s w last
  pub todo : last.todo ≡ rest
  pub alive : last.alive ≡ alive_after w.alive ds
  pub others : (t : Thread) → is_encoder t ≡ false → last.doing t ≡ w.doing t

module _ (c : StreamerCont) (s : StreamerStatus) where
  -- An encoder that was told to end finishes its round and ends.
  record Ended (w : World) (t : Thread) : Type 0 where
    last : World
    reach : Reach c s w last
    todo : last.todo ≡ w.todo
    alive : last.alive ≡ w.alive
    told : last.told ≡ w.told
    over : last.doing t ≡ none
    others : (u : Thread) → is_encoder u ≡ false → last.doing u ≡ w.doing u

  same_self : (t : Thread) → same_thread t t ≡ true
  same_self t = ground arith

  at_thread-other :
      (f : Thread → Option (List Object)) (t u : Thread) (x : Option (List Object))
      → is_encoder t ≡ true
      → is_encoder u ≡ false
      → at_thread f t x u ≡ f u
  at_thread-other f t u x h k = elim (Bool-cases (same_thread t u)) [
    | inl same ↦ absurd (let e = ap is_encoder (same_thread-eq t u same) in cc)
    | inr other ↦ rw other refl
  ]

  may_end_told :
      (w : World) (t : Thread) → is_encoder t ≡ true → w.told t ≡ true → may_end w t ≡ true
  may_end_told w capturing h k = cc
  may_end_told w preparing h k = refl
  may_end_told w muxing h k = refl
  may_end_told w encoding_video h k = k
  may_end_told w encoding_audio h k = k

  finish :
      (os : List Object) (w : World) (t : Thread)
      → is_encoder t ≡ true
      → w.told t ≡ true
      → w.doing t ≡ some os
      → Ended w t
  finish [] w t h k e = record {
    last = record w { doing = at_thread w.doing t none };
    reach = next here (ends t e (may_end_told w t h k) refl);
    todo = refl;
    alive = refl;
    told = refl;
    over = rw (same_self t) refl;
    others = λ u j. at_thread-other w.doing t u none h j;
  }
  finish (o ∷ os) w t h k e =
      let w₁ = record w { doing = at_thread w.doing t (some os) } in
      let rest = finish os w₁ t h k (rw (same_self t) refl) in
      record {
        last = rest.last;
        reach = Reach-trans (next here (touches t o os e refl)) rest.reach;
        todo = rest.todo;
        alive = rest.alive;
        told = rest.told;
        over = rest.over;
        others = λ u j. rest.others u j ∙ at_thread-other w.doing t u (some os) h j;
      }

  wait_for : (w : World) (t : Thread) → is_encoder t ≡ true → w.told t ≡ true → Ended w t
  wait_for w t h k = elim (Option-cases (w.doing t)) [
    | inl e ↦ record {
      last = w;
      reach = here;
      todo = refl;
      alive = refl;
      told = refl;
      over = e;
      others = λ u j. refl;
    }
    | inr (os, e) ↦ finish os w t h k e
  ]

  -- Main's deed leads to `w₁`, where nothing else is different, and it goes on from there.
  after_deed :
      (w w₁ : World) (d : Deed) (ds rest : List Deed)
      → Reach c s w w₁
      → Gone c s w₁ ds rest
      → alive_after w₁.alive ds ≡ alive_after w.alive (d ∷ ds)
      → ((t : Thread) → is_encoder t ≡ false → w₁.doing t ≡ w.doing t)
      → Gone c s w (d ∷ ds) rest
  after_deed w w₁ d ds rest r g h k = record {
    last = g.last;
    reach = Reach-trans r g.reach;
    todo = g.todo;
    alive = g.alive ∙ h;
    others = λ t j. g.others t j ∙ k t j;
  }

  both : (a b : Bool) → (a && b) ≡ true → (a ≡ true) × (b ≡ true)
  both a b h = ground (arith, h)

  pub main_goes :
      (ds rest : List Deed) (w : World)
      → w.todo ≡ ds ++ rest
      → is_clear w.told ds ≡ true
      → Gone c s w ds rest
  unfolding is_clear alive_after
  main_goes [] rest w e h = record {
    last = w;
    reach = here;
    todo = e;
    alive = refl;
    others = λ t k. refl;
  }
  main_goes (makes o ∷ ds) rest w e h =
      let w₁ = record w { todo = ds ++ rest; alive = at_object w.alive o true } in
      after_deed w w₁ (makes o) ds rest (next here (made o (ds ++ rest) e refl))
        (main_goes ds rest w₁ refl h) refl (λ t k. refl)
  main_goes (uses o ∷ ds) rest w e h =
      let w₁ = record w { todo = ds ++ rest } in
      after_deed w w₁ (uses o) ds rest (next here (used o (ds ++ rest) e refl))
        (main_goes ds rest w₁ refl h) refl (λ t k. refl)
  main_goes (deletes o ∷ ds) rest w e h =
      let w₁ = record w { todo = ds ++ rest; alive = at_object w.alive o false } in
      after_deed w w₁ (deletes o) ds rest (next here (deleted o (ds ++ rest) e refl))
        (main_goes ds rest w₁ refl h) refl (λ t k. refl)
  main_goes (tells t ∷ ds) rest w e h =
      let w₁ = record w { todo = ds ++ rest; told = at_thread w.told t true } in
      after_deed w w₁ (tells t) ds rest (next here (told t (ds ++ rest) e refl))
        (main_goes ds rest w₁ refl h) refl (λ u k. refl)
  main_goes (joins t ∷ ds) rest w e h =
      let first = both (is_encoder t && w.told t) (is_clear w.told ds) h in
      let asked = both (is_encoder t) (w.told t) first.0 in
      let over = wait_for w t asked.0 asked.1 in
      let w₁ = record over.last { todo = ds ++ rest } in
      let clear = subst (λ f. is_clear f ds ≡ true) (sym over.told) first.1 in
      after_deed w w₁ (joins t) ds rest
        (next over.reach (joined t (ds ++ rest) (over.todo ∙ e) over.over refl))
        (main_goes ds rest w₁ refl clear) (ap (λ f. alive_after f ds) over.alive) over.others
  main_goes (starts t ∷ ds) rest w e h = cc
  main_goes (waits_stop ∷ ds) rest w e h = cc
