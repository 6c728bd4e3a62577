-- ===== src/Muxer/Open/Acts.antt =====
-- What an opening of a muxer does outside its state: the mutex and the events.
use koala_streamer.Prelude.{
  ◌≡◌, refl, ap, Bool, true, false, Option, none, some, List, [], ◌∷◌, ◌++◌, if◌then◌else◌, arith,
}
use koala_streamer.Prelude.Int.{ℤ}
use koala_streamer.Muxer.Open.{
  Act, lock, unlock, configured, io_open, io_close, header, free_context, heard,
}

module _ {A : Type 0} where
  -- Whether the API mutex is held after some acts, from whether it was held; `none` is a second
  -- lock, or an unlock of a free mutex.
  unfoldable pub held : Bool → List (Act A) → Option Bool
  held b [] = some b
  held b (lock ∷ as') = let r = held true as' in if b then none else r
  held b (unlock ∷ as') = let r = held false as' in if b then r else none
  held b (configured c ∷ as') = held b as'
  held b (io_open t ∷ as') = held b as'
  held b (io_close ∷ as') = held b as'
  held b (header ∷ as') = held b as'
  held b (free_context ∷ as') = held b as'
  held b (heard f x e ∷ as') = held b as'

  -- The events that the listener is told.
  unfoldable pub told : List (Act A) → List (Option ℤ)
  told [] = []
  told (heard f x e ∷ as') = e ∷ told as'
  told (lock ∷ as') = told as'
  told (unlock ∷ as') = told as'
  told (configured c ∷ as') = told as'
  told (io_open t ∷ as') = told as'
  told (io_close ∷ as') = told as'
  told (header ∷ as') = told as'
  told (free_context ∷ as') = told as'

  pub held-append :
      (b c : Bool) (xs ys : List (Act A)) → held b xs ≡ some c → held b (xs ++ ys) ≡ held c ys
  unfolding held
  held-append b c [] ys h = ground arith
  held-append b c (lock ∷ xs) ys h = ground (arith, held-append true c xs ys)
  held-append b c (unlock ∷ xs) ys h = ground (arith, held-append false c xs ys)
  held-append b c (configured x ∷ xs) ys h = held-append b c xs ys h
  held-append b c (io_open t ∷ xs) ys h = held-append b c xs ys h
  held-append b c (io_close ∷ xs) ys h = held-append b c xs ys h
  held-append b c (header ∷ xs) ys h = held-append b c xs ys h
  held-append b c (free_context ∷ xs) ys h = held-append b c xs ys h
  held-append b c (heard f x e ∷ xs) ys h = held-append b c xs ys h

  pub told-append : (xs ys : List (Act A)) → told (xs ++ ys) ≡ told xs ++ told ys
  unfolding told
  told-append [] ys = refl
  told-append (lock ∷ xs) ys = told-append xs ys
  told-append (unlock ∷ xs) ys = told-append xs ys
  told-append (configured x ∷ xs) ys = told-append xs ys
  told-append (io_open t ∷ xs) ys = told-append xs ys
  told-append (io_close ∷ xs) ys = told-append xs ys
  told-append (header ∷ xs) ys = told-append xs ys
  told-append (free_context ∷ xs) ys = told-append xs ys
  told-append (heard f x e ∷ xs) ys = ap (◌∷◌ e) (told-append xs ys)
