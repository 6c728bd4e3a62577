-- ===== src/Muxer/Open/Paths.antt =====
-- The parts of koala_muxer_init_open, each with what it leaves.
use koala_streamer.Prelude.{
  ◌≡◌, refl, ap, sym, ◌∙◌, ◌||◌, Bool, true, false, Option, some, [], ◌∷◌, if◌then◌else◌,
}
use koala_streamer.Prelude.Int.{ℤ, is_neg}
use koala_streamer.Muxer.{Muxer, is_some, have_video, have_audio}
use koala_streamer.Muxer.Open.{
  Output, OpenWorld, Act, io_open, header, Opening, Flow, goes, fails, ◌>>=◌, acted, add_audio,
  add_video, open_io, write_header,
}
use koala_streamer.Muxer.Open.Acts.{held, told, held-append, told-append}

module _ {A : Type 0} (m : Muxer) where
  -- What holds inside the operation: the mutex is held, nothing was told, and callbacks and
  -- listener are those of `m`.
  pub record Inside (r : Option ℤ) (o : Opening A) : Type 0 where
    pub locked : held false o.acts ≡ some true
    pub untold : told o.acts ≡ []
    pub opened : o.muxer.opened ≡ true
    pub vcb : o.muxer.vcb ≡ m.vcb
    pub acb : o.muxer.acb ≡ m.acb
    pub listener : o.muxer.listener ≡ m.listener
    pub ret : o.ret ≡ r

  pub changed-Inside :
      {r s : Option ℤ} {o : Opening A} (x : Muxer) (y : Option ℤ)
      → x.opened ≡ o.muxer.opened
      → x.vcb ≡ o.muxer.vcb
      → x.acb ≡ o.muxer.acb
      → x.listener ≡ o.muxer.listener
      → y ≡ s
      → Inside r o
      → Inside s (record o { muxer = x; ret = y })
  changed-Inside x y p v a l e i = record {
    locked = i.locked;
    untold = i.untold;
    opened = p ∙ i.opened;
    vcb = v ∙ i.vcb;
    acb = a ∙ i.acb;
    listener = l ∙ i.listener;
    ret = e;
  }

  -- A part fails as `failed` says, with `r` in the variable `ret`.
  abbrev pub Ran : Bool → Option ℤ → Flow A → Type 0
  Ran failed r (goes o) = (failed ≡ false) × Inside r o
  Ran failed r (fails o) = (failed ≡ true) × Inside r o

  pub Ran->>= :
      (f g : Bool) (r s : Option ℤ) (x : Flow A) (k : Opening A → Flow A)
      → Ran f r x
      → ((o : Opening A) → Inside r o → Ran g s (k o))
      → Ran (f || g) (if f then r else s) (x >>= k)
  Ran->>= f g r s (goes o) k h next = rw h.0 (next o h.1)
  Ran->>= f g r s (fails o) k h next = rw h.0 (refl, h.1)

  pub acted-Inside :
      {r : Option ℤ} {o : Opening A} (w : OpenWorld A) (a : Act A)
      → held true (a ∷ []) ≡ some true
      → told (a ∷ []) ≡ []
      → Inside r o
      → Inside r (acted w o a)
  unfolding acted
  acted-Inside {r} {o} w a h t i = record {
    locked = held-append false true o.acts (a ∷ []) i.locked ∙ h;
    untold = told-append o.acts (a ∷ []) ∙ (rw (i.untold, t));
    opened = i.opened;
    vcb = i.vcb;
    acb = i.acb;
    listener = i.listener;
    ret = i.ret;
  }

module _ {A : Type 0} (w : OpenWorld A) (m : Muxer) where
  abbrev pub audio_fails : Bool
  audio_fails = if is_some m.acb then is_neg w.audio_meta.0 else false

  abbrev pub video_fails : Bool
  video_fails = if is_some m.vcb then is_neg w.video_meta.0 else false

  abbrev pub io_fails : Output → Bool
  io_fails out = if out.nofile then false else is_neg w.io_ret

  branch-Ran :
      (some' neg : Bool) (r : Option ℤ) (o o' : Opening A)
      → Inside m r o
      → Inside m r o'
      → Ran m
          (if some' then neg else false)
          r
          (if some' then (if neg then fails o else goes o') else goes o)
  branch-Ran true true r o o' i i' = (refl, i)
  branch-Ran true false r o o' i i' = (refl, i')
  branch-Ran false neg r o o' i i' = (refl, i)

  skip-Ran :
      (skip neg : Bool) (r s : Option ℤ) (o o' : Opening A)
      → Inside m r o
      → Inside m s o'
      → Ran m
          (if skip then false else neg)
          (if skip then r else s)
          (if skip then goes o else (if neg then fails o' else goes o'))
  skip-Ran true neg r s o o' i i' = (refl, i)
  skip-Ran false true r s o o' i i' = (refl, i')
  skip-Ran false false r s o o' i i' = (refl, i')

  pub add_audio-Ran :
      (r : Option ℤ) (out : Output) (o : Opening A)
      → Inside m r o
      → Ran m audio_fails r (add_audio w out o)
  unfolding add_audio have_audio held told
  add_audio-Ran r out o i = rw (ap is_some (sym i.acb)) (
      branch-Ran (is_some o.muxer.acb) (is_neg w.audio_meta.0) r o _ i
        (acted-Inside m w _ refl refl (changed-Inside m _ o.ret refl refl refl refl i.ret i)))

  pub add_video-Ran :
      (r : Option ℤ) (out : Output) (o : Opening A)
      → Inside m r o
      → Ran m video_fails r (add_video w out o)
  unfolding add_video have_video held told
  add_video-Ran r out o i = rw (ap is_some (sym i.vcb)) (
      branch-Ran (is_some o.muxer.vcb) (is_neg w.video_meta.0) r o _ i
        (acted-Inside m w _ refl refl (changed-Inside m _ o.ret refl refl refl refl i.ret i)))

  pub write_header-Ran :
      (r : Option ℤ) (o : Opening A)
      → Inside m r o
      → Ran m (is_neg w.header_ret) (some w.header_ret) (write_header w o)
  unfolding write_header held told
  write_header-Ran r o i =
      let i' =
        acted-Inside m w header refl refl
          (changed-Inside m o.muxer (some w.header_ret) refl refl refl refl refl i) in
      branch-Ran true (is_neg w.header_ret) (some w.header_ret) _ _ i' i'

  -- Whether the output is a file that cannot be opened, and `ret` after that part.
  pub open_io-Ran :
      (r : Option ℤ) (out : Output) (o : Opening A)
      → Inside m r o
      → Ran m (io_fails out) (if out.nofile then r else some w.io_ret) (open_io w out o)
  unfolding open_io held told
  open_io-Ran r out o i =
      let i' = acted-Inside m w (io_open o.muxer.io_timeout_ms) refl refl (
        changed-Inside m (record o.muxer { hostip = w.hostip }) (some w.io_ret) refl refl refl refl
          refl i) in
      skip-Ran out.nofile (is_neg w.io_ret) r (some w.io_ret) o _ i i'
