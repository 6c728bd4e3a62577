-- ===== src/Muxer/Open.antt =====
-- koala_muxer.c, koala_muxer_init_open and koala_muxer_close. What FFmpeg and the data callbacks
-- answer is the environment's (`OpenWorld`).
pub mod Acts
pub mod Paths
pub mod Outcome
use koala_streamer.Prelude.{
  ℕ, zero, suc, ◌+◌, ◌≡◌, Bool, true, false, not, ◌&&◌, Option, none, some, List, [], ◌∷◌, ◌++◌,
  if◌then◌else◌,
}
use koala_streamer.Prelude.Int.{ℤ, pos, negsuc, is_neg, ltb_ℤ}
use koala_streamer.CString.{Bytes, bytes, starts_with}
use koala_streamer.Codec.{KoalaCodecId, AvCodecIds, koala_codec_id_to_av}
use koala_streamer.Frame.{Address}
use koala_streamer.Muxer.{Muxer, Rational, have_video, have_audio}
use koala_streamer.Muxer.Write.{Stream, video, audio}

-- The members of Stream_meta that are read here; `avg_fps` is what the cast to `int` leaves of it.
pub record Meta : Type 0 where
  pub codec : KoalaCodecId
  pub channels : ℤ
  pub samplerate : ℤ
  pub frame_size : ℤ
  pub sample_fmt : ℤ
  pub width : ℤ
  pub height : ℤ
  pub avg_fps : ℤ
  pub extradata : Option Address
  pub extradata_size : ℤ

-- What is written into a new AVStream.
pub record StreamConfig (A : Type 0) : Type 0 where
  pub kind : Stream
  pub codec_id : A
  pub sample_rate : ℤ
  pub channel_layout : ℤ
  pub channels : ℤ
  pub sample_fmt : ℤ
  pub frame_size : ℤ
  pub width : ℤ
  pub height : ℤ
  pub frame_rate : ℤ
  pub extradata : Option Address
  pub extradata_size : ℤ

-- The output context that avformat_alloc_output_context2 makes: its format's name, and whether the
-- format opens no file (AVFMT_NOFILE).
pub record Output : Type 0 where
  pub name : Bytes
  pub nofile : Bool

pub record OpenWorld (A : Type 0) : Type 0 where
  pub codecs : AvCodecIds A
  pub nb_channels : ℤ → ℤ
  pub context : Option Output
  pub audio_meta : ℤ × Meta
  pub video_meta : ℤ × Meta
  pub audio_index : ℕ
  pub video_index : ℕ
  pub io_ret : ℤ
  pub hostip : Option Address
  pub header_ret : ℤ

-- What the operation does outside the muxer's state. The listener's event is `none` where the
-- variable `ret` was never given a value.
pub data Act (A : Type 0) : Type 0 where
  lock unlock : Act A
  configured : StreamConfig A → Act A
  -- With the muxer's `io_timeout_ms`.
  io_open : ℤ → Act A
  io_close : Act A
  header : Act A
  free_context : Act A
  heard : Address → Option Address → Option ℤ → Act A

-- A state within the operation: the muxer, the variable `ret` of the function, the acts so far.
pub record Opening (A : Type 0) : Type 0 where
  pub muxer : Muxer
  pub ret : Option ℤ
  pub acts : List (Act A)

-- Whether a part goes on, or jumps to `fail`.
pub data Flow (A : Type 0) : Type 0 where
  goes : Opening A → Flow A
  fails : Opening A → Flow A

infixl 5 ◌>>=◌
abbrev pub ◌>>=◌ : {A : Type 0} → Flow A → (Opening A → Flow A) → Flow A
goes o >>= k = k o
fails o >>= k = fails o

module _ {A : Type 0} (w : OpenWorld A) where
  unfoldable pub acted : Opening A → Act A → Opening A
  acted o a = record o { acts = o.acts ++ a ∷ [] }

  -- sendEvent, with a variable that may hold nothing.
  unfoldable pub hear : Muxer → Option ℤ → List (Act A)
  hear m ret = elim m.listener [ none ↦ [] | some f ↦ heard f m.listener_arg ret ∷ [] ]

  -- The bytes are copied only if there are some.
  extradata_of : Meta → Option Address
  extradata_of meta = if ltb_ℤ (pos 0) meta.extradata_size then meta.extradata else none

  audio_config : Meta → StreamConfig A
  unfolding extradata_of
  audio_config meta = record {
    kind = audio;
    codec_id = koala_codec_id_to_av w.codecs meta.codec;
    sample_rate = meta.samplerate;
    channel_layout = w.nb_channels meta.channels;
    channels = meta.channels;
    sample_fmt = meta.sample_fmt;
    frame_size = meta.frame_size;
    width = pos 0;
    height = pos 0;
    frame_rate = pos 0;
    extradata = extradata_of meta;
    extradata_size = meta.extradata_size;
  }

  video_config : Meta → StreamConfig A
  unfolding extradata_of
  video_config meta = record {
    kind = video;
    codec_id = koala_codec_id_to_av w.codecs meta.codec;
    sample_rate = pos 0;
    channel_layout = pos 0;
    channels = pos 0;
    sample_fmt = pos 0;
    frame_size = pos 0;
    width = meta.width;
    height = meta.height;
    frame_rate = meta.avg_fps;
    extradata = extradata_of meta;
    extradata_size = meta.extradata_size;
  }

  -- An inner variable `ret` hides the function's, which keeps what it had.
  unfoldable pub add_audio : Output → Opening A → Flow A
  unfolding acted audio_config
  add_audio out o =
      let (ret, meta) = w.audio_meta in
      let base : Rational =
        (if starts_with out.name (bytes "flv")
          then record { num = pos 1; den = pos 1000 }
          else record { num = meta.samplerate; den = pos 1000000 }) in
      if have_audio o.muxer
      then (if is_neg ret
          then fails o
          else goes (
              acted
                (record o {
                  muxer = record o.muxer { audio_stream = w.audio_index; con_a_base = base };
                })
                (configured (audio_config meta))))
      else goes o

  unfoldable pub add_video : Output → Opening A → Flow A
  unfolding acted video_config
  add_video out o =
      let (ret, meta) = w.video_meta in
      let base : Rational =
        (if starts_with out.name (bytes "flv")
          then record { num = pos 1; den = pos 1000 }
          else record { num = pos 1; den = pos 1 }) in
      if have_video o.muxer
      then (if is_neg ret
          then fails o
          else goes (
              acted
                (record o {
                  muxer = record o.muxer { video_stream = w.video_index; con_v_base = base };
                })
                (configured (video_config meta))))
      else goes o

  unfoldable pub open_io : Output → Opening A → Flow A
  unfolding acted
  open_io out o =
      let o' : Opening A =
        acted (record o { muxer = record o.muxer { hostip = w.hostip }; ret = some w.io_ret })
          (io_open o.muxer.io_timeout_ms) in
      if out.nofile then goes o else (if is_neg w.io_ret then fails o' else goes o')

  unfoldable pub write_header : Opening A → Flow A
  unfolding acted
  write_header o =
      let o' : Opening A = acted (record o { ret = some w.header_ret }) header in
      if is_neg w.header_ret then fails o' else goes o'

  -- The end of the function, at its last statement or from `fail` on.
  leave : Output → Flow A → ℤ × Muxer × List (Act A)
  unfolding hear
  leave out (goes o) = (pos 0, o.muxer, o.acts ++ unlock ∷ [])
  leave out (fails o) =
      let closed = if out.nofile then [] else io_close ∷ [] in
      (
        negsuc 0,
        record o.muxer { opened = false },
        o.acts ++ (closed ++ free_context ∷ unlock ∷ hear o.muxer o.ret),
      )

  open_output : Muxer → Output → ℤ × Muxer × List (Act A)
  unfolding leave
  open_output m out = leave out (
      add_audio out (record { muxer = record m { opened = true }; ret = none; acts = lock ∷ [] })
      >>= add_video out
      >>= open_io out
      >>= write_header)

  -- `out_name` is whether there is a name.
  unfoldable pub koala_muxer_init_open : Muxer → Bool → ℤ × Muxer × List (Act A)
  unfolding open_output
  koala_muxer_init_open m out_name =
      if out_name
      then elim w.context [
        | none ↦ (negsuc 0, record m { opened = false }, lock ∷ unlock ∷ [])
        | some out ↦ open_output m out
      ]
      else (negsuc 0, m, lock ∷ (hear m none ++ unlock ∷ []))

-- Closing frees the muxer itself; `nofile` is its output format's flag.
unfoldable pub koala_muxer_close : {A : Type 0} → Muxer → Bool → List (Act A)
koala_muxer_close m nofile =
    let closed = if m.opened && not nofile then io_close ∷ [] else [] in
    lock ∷ (closed ++ free_context ∷ unlock ∷ [])
