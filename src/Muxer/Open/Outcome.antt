-- ===== src/Muxer/Open/Outcome.antt =====
-- How koala_muxer_init_open ends, on every path.
use koala_streamer.Prelude.{
  ◌≡◌, refl, ◌∙◌, ◌||◌, ◌&&◌, Bool, true, false, not, Option, none, some, List, [], ◌∷◌, ◌++◌,
  if◌then◌else◌, arith,
}
use koala_streamer.Prelude.Int.{ℤ, pos, negsuc, is_neg}
use koala_streamer.Muxer.{Muxer, is_some}
use koala_streamer.Muxer.Open.{
  Output, OpenWorld, Act, lock, unlock, io_close, free_context, Opening, Flow, goes, fails, ◌>>=◌,
  hear, add_audio, add_video, open_io, write_header, leave, open_output, koala_muxer_init_open,
}
use koala_streamer.Muxer.Open.Acts.{held, told, held-append, told-append}
use koala_streamer.Muxer.Open.Paths.{
  audio_fails, video_fails, io_fails, Inside, Ran, Ran->>=, add_audio-Ran, add_video-Ran,
  write_header-Ran, open_io-Ran,
}

module _ {A : Type 0} (w : OpenWorld A) (m : Muxer) where
  abbrev pub no_meta : Bool
  no_meta = (audio_fails w m) || (video_fails w m)

  -- Whether the opening fails, and what the variable `ret` then holds.
  abbrev pub opening_fails : Output → Bool
  opening_fails out = (no_meta || io_fails w m out) || is_neg w.header_ret

  abbrev pub ret_of : Output → Option ℤ
  ret_of out =
      if no_meta then none else (if io_fails w m out then some w.io_ret else some w.header_ret)

  opening-Ran :
      (out : Output) (o : Opening A)
      → Inside m none o
      → Ran m
          (opening_fails out)
          (if no_meta || io_fails w m out
            then (if no_meta
                then (if (audio_fails w m) then none else none)
                else (if out.nofile
                    then (if (audio_fails w m) then none else none)
                    else some w.io_ret))
            else some w.header_ret)
          (add_audio w out o >>= add_video w out >>= open_io w out >>= write_header w)
  opening-Ran out o i =
      let a = add_audio-Ran w m none out o i in
      let v =
        Ran->>= m (audio_fails w m) (video_fails w m) none none _ (add_video w out) a
          (λ o'. add_video-Ran w m none out o') in
      let f =
        Ran->>= m _ (io_fails w m out) _ _ _ (open_io w out) v (λ o'. open_io-Ran w m _ out o') in
      Ran->>= m _ (is_neg w.header_ret) _ _ _ (write_header w) f (λ o'. write_header-Ran w m _ o')

  -- How the operation ends, whether it fails and with what in `ret`.
  abbrev pub Ends : Bool → Option ℤ → ℤ × Muxer × List (Act A) → Type 0
  Ends failed r x =
      (x.0 ≡ (if failed then negsuc 0 else pos 0))
      × (x.1.opened ≡ not failed)
      × (held false x.2 ≡ some false)
      × (told x.2 ≡ (if failed && is_some m.listener then r ∷ [] else []))

  closed_told :
      (b : Bool) (as' : List (Act A)) → told ((if b then [] else io_close ∷ []) ++ as') ≡ told as'
  unfolding told
  closed_told true as' = refl
  closed_told false as' = refl

  closed_held :
      (b c : Bool) (as' : List (Act A))
      → held b ((if c then [] else io_close ∷ []) ++ as') ≡ held b as'
  unfolding held
  closed_held b true as' = refl
  closed_held b false as' = refl

  told-hear :
      (x : Muxer) (r : Option ℤ) → told (hear w x r) ≡ (if is_some x.listener then r ∷ [] else [])
  unfolding told hear
  told-hear x r = ground arith

  held-hear : (x : Muxer) (r : Option ℤ) → held false (hear w x r) ≡ some false
  unfolding held hear
  held-hear x r = ground arith

  leave-Ends :
      (failed : Bool) (r : Option ℤ) (out : Output) (x : Flow A)
      → Ran m failed r x
      → Ends failed r (leave w out x)
  unfolding leave held told
  leave-Ends failed r out (goes o) (e, i) = rw e (
    refl,
    i.opened,
    held-append false true o.acts (unlock ∷ []) i.locked,
    told-append o.acts (unlock ∷ []) ∙ rw i.untold refl,
  )
  leave-Ends failed r out (fails o) (e, i) =
      let heard' = hear w o.muxer o.ret in
      let freed : List (Act A) = free_context ∷ unlock ∷ heard' in
      let rest : List (Act A) = (if out.nofile then [] else io_close ∷ []) ++ freed in
      let told' : told heard' ≡ (if is_some m.listener then r ∷ [] else []) =
        told-hear o.muxer o.ret ∙ rw (i.listener, i.ret) refl in
      rw e (
        refl,
        refl,
        held-append false true o.acts rest i.locked
            ∙ closed_held true out.nofile freed
            ∙ held-hear o.muxer o.ret,
        told-append o.acts rest ∙ rw i.untold (closed_told out.nofile freed ∙ told'),
      )

  start : Opening A
  start = record { muxer = record m { opened = true }; ret = none; acts = lock ∷ [] }

  started : Inside m none start
  unfolding start held told
  started = record {
    locked = refl;
    untold = refl;
    opened = refl;
    vcb = refl;
    acb = refl;
    listener = refl;
    ret = refl;
  }

  ret_told :
      (a v file neg h l : Bool) (x y : Option ℤ)
      → (if (((a || v) || (if file then false else neg)) || h) && l
          then (if (a || v) || (if file then false else neg)
              then (if a || v
                  then (if a then none else none)
                  else (if file then (if a then none else none) else x))
              else y)
            ∷ []
          else [])
        ≡ (if (((a || v) || (if file then false else neg)) || h) && l
            then (if a || v then none else (if (if file then false else neg) then x else y)) ∷ []
            else [])
  ret_told a v file neg h l x y = ground arith

  open_output-Ends : (out : Output) → Ends (opening_fails out) (ret_of out) (open_output w m out)
  unfolding open_output start
  open_output-Ends out =
      let e = leave-Ends (opening_fails out) _ out _ (opening-Ran out start started) in
      (
        e.0,
        e.1,
        e.2,
        e.3
            ∙ ret_told (audio_fails w m) (video_fails w m) out.nofile (is_neg w.io_ret)
                (is_neg w.header_ret) (is_some m.listener) (some w.io_ret) (some w.header_ret),
      )

  -- With an output context, opening fails exactly if a registered source has no description, or the
  -- output is a file that cannot be opened, or the header cannot be written; the result is then -1
  -- and the muxer has no output, else 0 and it has one. The mutex is released on each path. A
  -- listener is told only of a failure: of the code that failed, and of a variable that was never
  -- given a value where it was a source that had no description.
  pub koala_muxer_init_open_lem :
      (out : Output)
      → w.context ≡ some out
      → Ends (opening_fails out) (ret_of out) (koala_muxer_init_open w m true)
  unfolding koala_muxer_init_open
  koala_muxer_init_open_lem out e = rw e (open_output-Ends out)
