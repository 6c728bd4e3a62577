-- ===== src/App/Main/Sound.antt =====
-- MacRTMPStreamer.cpp, main: whether the objects that main itself uses are there.
use koala_streamer.Prelude.{◌≡◌, refl, Bool, true, false, ◌&&◌, List, [], ◌∷◌, ◌++◌, map, arith}
use koala_streamer.App.Main.{Object, Deed, makes, uses, deletes, starts, tells, joins, waits_stop}
use koala_streamer.App.Main.Uses.{at_object}
use koala_streamer.App.Main.Race.{alive_after}

-- Whether every object that main itself uses is there.
unfoldable pub is_sound : (Object → Bool) → List Deed → Bool
is_sound f [] = true
is_sound f (uses o ∷ ds) = f o && is_sound f ds
is_sound f (makes o ∷ ds) = is_sound (at_object f o true) ds
is_sound f (deletes o ∷ ds) = is_sound (at_object f o false) ds
is_sound f (d ∷ ds) = is_sound f ds

pub is_sound-append :
    (f : Object → Bool) (xs ys : List Deed)
    → is_sound f (xs ++ ys) ≡ (is_sound f xs && is_sound (alive_after f xs) ys)
unfolding is_sound alive_after
is_sound-append f [] ys = refl
is_sound-append f (uses o ∷ xs) ys = ground (arith, is_sound-append f xs ys)
is_sound-append f (makes o ∷ xs) ys = is_sound-append (at_object f o true) xs ys
is_sound-append f (deletes o ∷ xs) ys = is_sound-append (at_object f o false) xs ys
is_sound-append f (starts t ∷ xs) ys = is_sound-append f xs ys
is_sound-append f (tells t ∷ xs) ys = is_sound-append f xs ys
is_sound-append f (joins t ∷ xs) ys = is_sound-append f xs ys
is_sound-append f (waits_stop ∷ xs) ys = is_sound-append f xs ys

pub alive_after-append :
    (f : Object → Bool) (xs ys : List Deed)
    → alive_after f (xs ++ ys) ≡ alive_after (alive_after f xs) ys
unfolding alive_after
alive_after-append f [] ys = refl
alive_after-append f (uses o ∷ xs) ys = alive_after-append f xs ys
alive_after-append f (makes o ∷ xs) ys = alive_after-append (at_object f o true) xs ys
alive_after-append f (deletes o ∷ xs) ys = alive_after-append (at_object f o false) xs ys
alive_after-append f (starts t ∷ xs) ys = alive_after-append f xs ys
alive_after-append f (tells t ∷ xs) ys = alive_after-append f xs ys
alive_after-append f (joins t ∷ xs) ys = alive_after-append f xs ys
alive_after-append f (waits_stop ∷ xs) ys = alive_after-append f xs ys

pub alive_after-uses :
    (f : Object → Bool) (os : List Object) (ds : List Deed)
    → alive_after f (map uses os ++ ds) ≡ alive_after f ds
unfolding alive_after
alive_after-uses f [] ds = refl
alive_after-uses f (o ∷ os) ds = alive_after-uses f os ds
