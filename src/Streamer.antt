-- ===== src/Streamer.antt =====
-- MediaStreamer.c: the streamer that a program drives, over any delegate of the media muxer. Its
-- prepare thread is in `Streamer/Life`, the callbacks that count frames in `Streamer/Callbacks`.
pub mod Callbacks
pub mod Counting
pub mod Life
use koala_streamer.Prelude.{
  ℕ, ◌+◌, ◌/◌, ◌%◌, ◌≡◌, Bool, true, false, ◌&&◌, Option, none, some, List, [], ◌∷◌, ◌++◌, map, ltb,
  ◌==◌, if◌then◌else◌,
}
use koala_streamer.Prelude.Maybe.{◌>>=◌}
use koala_streamer.Prelude.Int.{ℤ, pos, negsuc, is_neg}
use koala_streamer.CString.{Bytes}
use koala_streamer.Frame.{Address}
use koala_streamer.MediaMuxer.{
  StreamType, video, audio, Delegate, Handle, create_muxer_handle, muxer_setopt, muxer_open,
  muxer_get_hostip, muxer_release_handle, muxer_prepare, muxer_set_listener, muxer_set_callback,
  muxer_start, muxer_end, muxer_close,
}
use koala_streamer.Statistics.{
  Statistician, streamer_statistician_create, add_stream, get_stream_bit_rate,
  get_stream_band_wide_factor, reset,
}
use koala_streamer.Options.Release.{Heap, Outcome}

-- `mediastreamer_status`, with the values of its enumerators.
pub data StreamerStatus : Type 0 where
  init preparing prepared streaming stoped error : StreamerStatus

abbrev pub status_value : StreamerStatus → ℕ
status_value init = 0
status_value preparing = 1
status_value prepared = 2
status_value streaming = 3
status_value stoped = 4
status_value error = 5

-- `MediaStreamerCB`.
pub record MediaStreamerCb : Type 0 where
  pub element : ℕ
  pub audio_callback : Option Address
  pub acbarg : Option Address
  pub video_callback : Option Address
  pub vcbarg : Option Address

-- `mediaStreamer`, without its mutex, which guards the listener alone. Allocation is taken to
-- succeed, so that `mMuxer` and `pInputStastic` are there.
pub record Streamer (H : Type 0) : Type 0 where
  pub muxer : Handle H
  pub data_cb : MediaStreamerCb
  pub out_name : Option Bytes
  pub out_format : Option Bytes
  pub status : StreamerStatus
  pub listener : Option Address
  pub listener_arg : Option Address
  pub statistics : Statistician
  pub video_index : ℤ
  pub audio_index : ℤ

abbrev pub prepare_event_ok : ℤ
prepare_event_ok = pos 4096

abbrev pub prepare_event_error : ℤ
prepare_event_error = pos 4097

-- What a call does beside changing the state: an effect of the muxer's, a call of the listener, and
-- the creation and the joining of the prepare thread.
pub data Deed (E : Type 0) : Type 0 where
  muxed : E → Deed E
  notified : Address → Option Address → ℤ → Deed E
  created joined : Deed E

-- Where the prepare thread stands: not created, at a statement of its body that others can tell from
-- the one before, before its return, and over. `telling` tells a failure, after which it returns.
pub data PreparePoint : Type 0 where
  absent beginning opening connecting telling_ok starting returning over : PreparePoint
  readied telling : ℤ → PreparePoint

-- Where mediaStreamer_stop stands: outside the call or at its test, at pthread_join, at muxer_end, at
-- muxer_close and at its last assignment.
pub data StopPoint : Type 0 where
  called joining ending closing settling : StopPoint

abbrev pub create_media_streamer : {H : Type 0} → Streamer H
create_media_streamer = record {
  muxer = create_muxer_handle;
  data_cb = record {
    element = 0;
    audio_callback = none;
    acbarg = none;
    video_callback = none;
    vcbarg = none;
  };
  out_name = none;
  out_format = none;
  status = init;
  listener = none;
  listener_arg = none;
  statistics = streamer_statistician_create;
  video_index = pos 0;
  audio_index = pos 0;
}

module _ {H : Type 0} where
  unfoldable pub set_in_put : Streamer H → MediaStreamerCb → Streamer H
  set_in_put s cb = record s { data_cb = cb }

  -- A null name or format leaves the one that was set.
  unfoldable pub set_out_put : Streamer H → Option Bytes → Option Bytes → Streamer H
  set_out_put s name format = record s {
    out_name = elim name [ none ↦ s.out_name | some n ↦ some n ];
    out_format = elim format [ none ↦ s.out_format | some n ↦ some n ];
  }

  unfoldable pub set_listener : Streamer H → Option Address → Option Address → Streamer H
  set_listener s listener arg = record s { listener = listener; listener_arg = arg }

  unfoldable pub setopt : Streamer H → Option Bytes → Option Bytes → ℤ × Streamer H
  setopt s key value =
      let (ret, m) = muxer_setopt (some s.muxer) key value in
      (ret, elim m [ none ↦ s | some m' ↦ record s { muxer = m' } ])

  -- Notify, and mediastreamer_muxerListener on a streamer that is there.
  unfoldable pub notify : {E : Type 0} → Streamer H → ℤ → List (Deed E)
  notify s event = elim s.listener [ none ↦ [] | some f ↦ notified f s.listener_arg event ∷ [] ]

  -- mediaStreamer_prepare: the thread is created from the first status alone.
  unfoldable pub prepare : {E : Type 0} → Streamer H → Streamer H × List (Deed E)
  prepare s =
      if status_value s.status == status_value init
      then (record s { status = preparing }, created ∷ [])
      else (s, [])

  -- The index under which a stream is counted.
  unfoldable pub index_of : Streamer H → StreamType → ℤ
  index_of s video = s.video_index
  index_of s _ = s.audio_index

  unfoldable pub stream_bit_rate : (ℕ → ℤ → ℕ) → Streamer H → StreamType → ℤ → Option ℕ
  unfolding index_of
  stream_bit_rate rate s type now = get_stream_bit_rate rate s.statistics (index_of s type) now

  unfoldable pub band_wide_factor {ℓ} : {F : Type ℓ} → (ℕ → ℤ → F) → Streamer H → ℤ → F
  band_wide_factor factor s now = get_stream_band_wide_factor factor s.statistics now

  unfoldable pub reset_statistician : Streamer H → (ℕ → ℤ) → Streamer H
  reset_statistician s clock = record s { statistics = reset s.statistics clock }

-- The addresses of the muxer's listener, of the two callbacks, and of the streamer itself.
pub record Functions : Type 0 where
  pub muxer_listener : Address
  pub audio_callback : Address
  pub video_callback : Address
  pub self : Address

abbrev pub has_audio : ℕ → Bool
has_audio element = element % 2 == 1

abbrev pub has_video : ℕ → Bool
has_video element = element / 2 % 2 == 1

module _ {H E : Type 0} (d : Delegate H E) where
  -- mediaStreamer_start.
  unfoldable pub start : Streamer H → ℤ × Streamer H × List (Deed E)
  start s =
      let (ret, m, es) = muxer_start d s.muxer in
      (ret, record s { status = streaming; muxer = m }, map muxed es)

  unfoldable get_host_ip : Streamer H → Option Address
  get_host_ip s = muxer_get_hostip d s.muxer

  -- mediaStreamer_release: it does not stop the streamer first.
  unfoldable pub release : Streamer H → ℕ → Option ℕ → Heap → List E × Outcome
  release s fuel opt h = muxer_release_handle d s.muxer fuel opt h

  -- mediaStreamer_stop, from one point to the next: only a status between the first and `stoped` is
  -- stopped; the thread is then joined, whatever the status has become.
  unfoldable pub stop : StopPoint → Streamer H → StopPoint × Streamer H × List (Deed E)
  stop called s =
      if ltb (status_value init) (status_value s.status)
        && ltb (status_value s.status) (status_value stoped)
      then (joining, s, [])
      else (called, s, [])
  stop joining s = (ending, s, joined ∷ [])
  stop ending s =
      let (m, es) = muxer_end d s.muxer in (closing, record s { muxer = m }, map muxed es)
  stop closing s =
      let (m, es) = muxer_close d s.muxer in (settling, record s { muxer = m }, map muxed es)
  stop settling s = (called, record s { status = stoped }, [])

  -- A stream of the muxer's calls the streamer's callback, and is counted under a new index.
  unfoldable pub connect_audio : Functions → Streamer H → Streamer H
  connect_audio fs s =
      let (index, statistics) = add_stream s.statistics audio in
      if has_audio s.data_cb.element
      then record s {
        muxer = muxer_set_callback d s.muxer audio (some fs.audio_callback) (some fs.self);
        statistics = statistics;
        audio_index = index;
      }
      else s

  unfoldable pub connect_video : Functions → Streamer H → Streamer H
  connect_video fs s =
      let (index, statistics) = add_stream s.statistics video in
      if has_video s.data_cb.element
      then record s {
        muxer = muxer_set_callback d s.muxer video (some fs.video_callback) (some fs.self);
        statistics = statistics;
        video_index = index;
      }
      else s

  -- The part on an open muxer, up to the result of muxer_prepare; no result where a null pointer is
  -- followed.
  unfoldable pub connect : Functions → Streamer H → Option (ℤ × Streamer H × List (Deed E))
  unfolding connect_audio connect_video
  connect fs s = do
    listened ← muxer_set_listener d (some s.muxer) (some fs.muxer_listener) (some fs.self)
    m ← listened.1
    let s' = connect_video fs (connect_audio fs (record s { muxer = m }))
    ready ← muxer_prepare d s'.muxer
    some (ready.0, record s' { muxer = ready.1 }, map muxed ready.2)

  -- mediaStreamer_prepare_internal, the body of the prepare thread, from one point to the next; no
  -- result where the thread does not run.
  unfoldable pub prepare_internal :
      Functions → PreparePoint → Streamer H → Option (PreparePoint × Streamer H × List (Deed E))
  unfolding connect notify start
  prepare_internal fs absent s = none
  prepare_internal fs beginning s =
      some (if status_value s.status == status_value streaming then returning else opening, s, [])
  prepare_internal fs opening s =
      let (ret, m) = muxer_open d s.muxer s.out_name s.out_format s.data_cb.element in
      some
        (if is_neg ret then telling prepare_event_error else connecting, record s { muxer = m }, [])
  prepare_internal fs connecting s = do r ← connect fs s; some (readied r.0, r.1, r.2)
  prepare_internal fs (readied ret) s =
      if is_neg ret
      then some (telling prepare_event_error, record s { status = error }, [])
      else some (telling_ok, record s { status = prepared }, [])
  prepare_internal fs (telling event) s = some (returning, s, notify s event)
  prepare_internal fs telling_ok s = some (starting, s, notify s prepare_event_ok)
  prepare_internal fs starting s = let (_, s', es) = start s in some (returning, s', es)
  prepare_internal fs returning s = some (over, s, [])
  prepare_internal fs over s = none
