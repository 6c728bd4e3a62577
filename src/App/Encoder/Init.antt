-- ===== src/App/Encoder/Init.antt =====
-- MacRTMPStreamer.cpp, FFEncoderThread::initThread, over what FFmpeg finds and allocates.
use koala_streamer.Prelude.{
  ℕ, zero, suc, ◌*◌, ◌≡◌, refl, ap, Bool, true, ◌&&◌, Option, none, some, List, [], leb, length,
  if◌then◌else◌, arith,
}
use koala_streamer.Prelude.Int.{ℤ}
use koala_streamer.CString.{Bytes, bytes}
use koala_streamer.Frame.{Address, Frame}
use koala_streamer.Stack.{Stack}
use koala_streamer.App.Encoder.{
  MediaType, video, audio, other, CodecContext, EncoderThread, pcm_bytes,
}
use koala_streamer.App.Encoder.Buffer.{Waits}
use koala_streamer.App.Encoder.Packets.{Work, After, Uniform, encode_all, EncodesWell}
use koala_streamer.App.Encoder.Run.{encode_all_lem}

-- What initThread reads of a stream's codec.
pub record StreamCodec : Type 0 where
  pub codec_type : MediaType
  pub codec_id : ℕ
  pub pix_fmt : ℤ
  pub width : ℕ
  pub height : ℕ
  pub sample_fmt : ℤ
  pub sample_rate : ℤ
  pub channels : ℕ
  pub channel_layout : ℕ
  pub time_base : ℤ × ℤ

-- FFmpeg: an encoder that is found is given by its type, and `alloc_context` is what
-- avcodec_alloc_context3 fills in.
pub record Ffmpeg : Type 0 where
  pub h264 : ℕ
  pub aac : ℕ
  pub first_audio : ℕ
  pub pcm_s16be_planar : ℕ
  pub find_encoder : ℕ → Option MediaType
  pub find_encoder_by_name : Bytes → Option MediaType
  pub alloc_context : Option MediaType → CodecContext
  pub bytes_per_sample : ℤ → ℕ

-- The codec is one of those from AV_CODEC_ID_FIRST_AUDIO to AV_CODEC_ID_PCM_S16BE_PLANAR.
unfoldable pub is_pcm : Ffmpeg → ℕ → Bool
is_pcm ff id = leb ff.first_audio id && leb id ff.pcm_s16be_planar

-- The name of mEnc is printed at the end: there is no thread without an encoder.
unfoldable pub built :
    Address
    → Option (Stack Frame)
    → Option MediaType
    → CodecContext
    → Option (List ℕ)
    → Option EncoderThread
built self stack none ctx buffer = none
built self stack (some type) ctx buffer = some (record {
  self = self;
  type = type;
  codec_ctx = ctx;
  pcm_buffer = buffer;
  pcm_size = 0;
  frame_stack = stack;
})

-- `malloced` is what malloc(1024 * 8) hands out.
unfoldable pub init_thread :
    Ffmpeg → Address → Option (Stack Frame) → ℕ → StreamCodec → ℕ → List ℕ → Option EncoderThread
unfolding is_pcm built
init_thread ff self stack codec_id c bit_rate malloced =
    let enc = ff.find_encoder codec_id in
    let ctx = record (ff.alloc_context enc) { time_base = c.time_base; bit_rate = bit_rate } in
    let aac = ff.find_encoder_by_name (bytes "aac_at") in
    let ctx_video = record ctx {
      pix_fmt = c.pix_fmt;
      height = c.height;
      width = c.width;
      global_header = true;
    } in
    let ctx_audio = record (ff.alloc_context aac) {
      sample_fmt = c.sample_fmt;
      sample_rate = c.sample_rate;
      time_base = c.time_base;
      channels = c.channels;
      channel_layout = c.channel_layout;
      bytes_per_sample = ff.bytes_per_sample c.sample_fmt;
    } in
    elim c.codec_type [
      | video ↦ built self stack enc ctx_video none
      | audio ↦
          if is_pcm ff c.codec_id
          then built self stack aac ctx_audio (some malloced)
          else built self stack enc ctx none
      | other ↦ built self stack enc ctx none
    ]

-- If FFmpeg has an audio encoder of the name aac_at, a thread that is initialised for a stream of
-- uncompressed sound encodes any run of packets of `s` bytes each, where `s` divides 8192, in order
-- and in blocks of 8192 bytes without leaving its buffer, and releases every frame once.
pub init_thread_encodes :
    (ff : Ffmpeg) (self releaser : Address) (stack : Option (Stack Frame)) (codec_id : ℕ)
    (c : StreamCodec) (bit_rate : ℕ) (malloced : List ℕ) (s k : ℕ) (ws : List Work)
    → ff.find_encoder_by_name (bytes "aac_at") ≡ some audio
    → c.codec_type ≡ audio
    → is_pcm ff c.codec_id ≡ true
    → length malloced ≡ pcm_bytes
    → s * k ≡ pcm_bytes
    → Uniform s ws
    → (e : EncoderThread) × (a : After) × (waiting : List ℕ) × (init_thread ff self stack codec_id c
          bit_rate malloced
        ≡ some e)
      × (encode_all releaser e ws ≡ some a)
      × EncodesWell ws [] a waiting
unfolding init_thread built
init_thread_encodes ff self releaser stack codec_id c bit_rate malloced s zero ws aac sound pcm room
      divides uniform =
    absurd (omega arith)
init_thread_encodes ff self releaser stack codec_id c bit_rate malloced s (suc k) ws aac sound pcm
      room divides uniform =
    let thread : EncoderThread = record {
      self = self;
      type = audio;
      codec_ctx = record (ff.alloc_context (ff.find_encoder_by_name (bytes "aac_at"))) {
        sample_fmt = c.sample_fmt;
        sample_rate = c.sample_rate;
        time_base = c.time_base;
        channels = c.channels;
        channel_layout = c.channel_layout;
        bytes_per_sample = ff.bytes_per_sample c.sample_fmt;
      };
      pcm_buffer = some malloced;
      pcm_size = 0;
      frame_stack = stack;
    } in
    let waits : Waits thread [] = record {
      buffer = malloced;
      is_audio = refl;
      has_buffer = refl;
      room = room;
      sized = refl;
      held = refl;
    } in
    let made : init_thread ff self stack codec_id c bit_rate malloced ≡ some thread =
      rw (sound, pcm) (ap (λ enc. built self stack enc thread.codec_ctx (some malloced)) aac) in
    let (a, waiting, ran, well) =
      encode_all_lem releaser s (suc k) divides ws thread [] (suc k) uniform waits (omega arith)
        (omega arith) in
    (thread, a, waiting, made, ran, well)
