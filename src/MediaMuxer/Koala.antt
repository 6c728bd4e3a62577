-- ===== src/MediaMuxer/Koala.antt =====
-- MediaMuxer/KoalaMuxer.c: the delegate over the koala muxer.
use koala_streamer.Prelude.{
  ℕ, ◌%◌, ◌/◌, ◌==◌, ◌≡◌, ap, sym, Bool, false, Option, none, some, List, [], ◌∷◌, if◌then◌else◌,
  map, arith,
}
use koala_streamer.Prelude.Int.{ℤ, pos, negsuc}
use koala_streamer.CString.{Bytes, bytes, same_nocase, atoi}
use koala_streamer.Frame.{Address}
use koala_streamer.Muxer.{
  Muxer, is_some, koala_get_muxer_handle, reg_data_callback, koala_muxer_start, koala_muxer_end,
  koala_muxer_setopt, koala_muxer_set_listener, koala_muxer_get_hostip,
}
use koala_streamer.Muxer.Open.{OpenWorld, Act, koala_muxer_init_open, koala_muxer_close}
use koala_streamer.MediaMuxer.{StreamType, unknown, video, audio, sub, num, Delegate, IsTimed}

-- `koala_dele`; `koala` is the muxer that `pKoalaHandle` points to.
pub record KoalaDele : Type 0 where
  pub koala : Muxer
  pub out_name : Option Bytes
  pub out_format : Option Bytes
  pub elem : ℕ
  pub acb : Option Address
  pub vcb : Option Address
  pub acbarg : Option Address
  pub vcbarg : Option Address

-- What a call does beside changing the state: an act of opening or closing, or the creation or the
-- joining of the thread.
pub data Deed (A : Type 0) : Type 0 where
  act : Act A → Deed A
  created joined : Deed A

unfoldable pub set_callback : KoalaDele → StreamType → Option Address → Option Address → KoalaDele
set_callback h audio func arg = record h { acb = func; acbarg = arg }
set_callback h video func arg = record h { vcb = func; vcbarg = arg }
set_callback h unknown func arg = h
set_callback h sub func arg = h
set_callback h num func arg = h

unfoldable pub koala_muxer_open : Option Bytes → Option Bytes → ℕ → Option KoalaDele
koala_muxer_open name format elem = some (record {
  koala = koala_get_muxer_handle;
  out_name = name;
  out_format = format;
  elem = elem;
  acb = none;
  vcb = none;
  acbarg = none;
  vcbarg = none;
})

-- audio_callback and video_callback: the program's callback answers, if there is one.
unfoldable pub forward : {B : Type 0} → Option Address → ℤ × B → ℤ × B
forward cb (ret, data') = if is_some cb then (ret, data') else (negsuc 0, data')

-- The addresses of the two callbacks and of the context, and the thread that would be created.
module _ {A : Type 0} (w : OpenWorld A) (audio_at video_at self : Address) (thread : ℕ) where
  -- The sources' descriptions come through the callbacks.
  unfoldable pub described : KoalaDele → OpenWorld A
  unfolding forward
  described h = record w {
    audio_meta = forward h.acb w.audio_meta;
    video_meta = forward h.vcb w.video_meta;
  }

  -- `elem & ELEMENT_VIDEO` and `elem & ELEMENT_AUDIO` are its bits 1 and 0.
  unfoldable pub koala_muxer_prepare : KoalaDele → ℤ × KoalaDele × List (Deed A)
  unfolding described
  koala_muxer_prepare h =
      let registered =
        reg_data_callback h.koala (if h.elem % 2 == 1 then some audio_at else none) (some self)
          (if h.elem / 2 % 2 == 1 then some video_at else none) (some self) in
      let (ret, m, acts) = koala_muxer_init_open (described h) registered (is_some h.out_name) in
      (ret, record h { koala = m }, map act acts)

  unfoldable pub koala_delegate_setopt : KoalaDele → Bytes → Bytes → ℤ × KoalaDele
  koala_delegate_setopt h key value =
      let (ret, m) = koala_muxer_setopt (some h.koala) key value in
      (ret, elim m [ none ↦ h | some m' ↦ record h { koala = m' } ])

  unfoldable pub koala_delegate_set_listener :
      KoalaDele → Option Address → Option Address → ℤ × KoalaDele
  koala_delegate_set_listener h listener arg =
      let (ret, m) = koala_muxer_set_listener (some h.koala) listener arg in
      (ret, elim m [ none ↦ h | some m' ↦ record h { koala = m' } ])

  unfoldable pub koala_delegate_start : KoalaDele → ℤ × KoalaDele × List (Deed A)
  koala_delegate_start h =
      let (new, m) = koala_muxer_start h.koala thread in
      (pos 0, record h { koala = m }, (if new then created ∷ [] else []))

  unfoldable pub koala_delegate_end : KoalaDele → KoalaDele × List (Deed A)
  koala_delegate_end h =
      let (ended, m) = koala_muxer_end h.koala in
      (record h { koala = m }, (if ended then joined ∷ [] else []))

  -- Whether the output's format opens no file.
  unfoldable pub koala_delegate_close : KoalaDele → List (Deed A)
  koala_delegate_close h =
      let nofile : Bool = elim w.context [ none ↦ false | some out ↦ out.nofile ] in
      map act (koala_muxer_close h.koala nofile)

  -- `KoalaMuxer_delegate`.
  unfoldable pub koala_delegate : Delegate KoalaDele (Deed A)
  koala_delegate = record {
    probe = pos 1;
    open_context = koala_muxer_open;
    set_callback = set_callback;
    prepare = koala_muxer_prepare;
    get_hostip = λ h. koala_muxer_get_hostip h.koala;
    start = koala_delegate_start;
    end = koala_delegate_end;
    close = koala_delegate_close;
    setopt = koala_delegate_setopt;
    set_listener = koala_delegate_set_listener;
  }

  abbrev time_limit : Option KoalaDele → ℤ
  time_limit none = pos 0
  time_limit (some h) = h.koala.io_timeout_ms

  pub koala_muxer_open_timeout :
      (name format : Option Bytes) (elem : ℕ) (h : KoalaDele)
      → koala_muxer_open name format elem ≡ some h
      → h.koala.io_timeout_ms ≡ pos 0
  unfolding koala_muxer_open
  koala_muxer_open_timeout name format elem h e = sym (ap time_limit e)

  pub koala_delegate_setopt_timeout :
      (h : KoalaDele) (key value : Bytes)
      → (koala_delegate_setopt h key value).1.koala.io_timeout_ms
        ≡ (if same_nocase (bytes "io_timeout_ms") key then atoi value else h.koala.io_timeout_ms)
  unfolding koala_delegate_setopt koala_muxer_setopt
  koala_delegate_setopt_timeout h key value = ground arith

  unfoldable pub koala_delegate_timed : IsTimed koala_delegate
  unfolding koala_delegate
  koala_delegate_timed = record {
    timeout = λ h. h.koala.io_timeout_ms;
    timeout-open_context = koala_muxer_open_timeout;
    timeout-setopt = koala_delegate_setopt_timeout;
  }
