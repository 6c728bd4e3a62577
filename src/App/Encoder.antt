-- ===== src/App/Encoder.antt =====
-- MacRTMPStreamer.cpp, class FFEncoderThread: what it does with one frame. FFmpeg's answers are
-- arguments; there is no result where the code follows a null pointer or leaves its buffer.
pub mod Buffer
pub mod Packets
pub mod Run
pub mod Init
use koala_streamer.Prelude.{
  ℕ, ◌+◌, ◌*◌, ◌/◌, ◌%◌, Bool, true, Option, none, some, List, [], ◌∷◌, ◌++◌, ltb, leb, length,
  take, drop, if◌then◌else◌,
}
use koala_streamer.Prelude.Maybe.{◌>>=◌}
use koala_streamer.Prelude.Int.{ℤ, pos}
use koala_streamer.Frame.{Address, Frame, set_release}
use koala_streamer.Stack.{Stack, get_media_frame}

-- AVMEDIA_TYPE_VIDEO, AVMEDIA_TYPE_AUDIO and the other types of a codec.
pub data MediaType : Type 0 where
  video audio other : MediaType

-- What the class reads of an AVPacket; its size is the number of its bytes.
pub record Packet : Type 0 where
  pub address : Address
  pub data_at : Option Address
  pub contents : List ℕ
  pub pts : ℤ
  pub dts : ℤ
  pub flags : ℕ
  pub stream_index : ℤ

-- What it reads of its AVCodecContext, with av_get_bytes_per_sample of the sample format.
pub record CodecContext : Type 0 where
  pub width : ℕ
  pub height : ℕ
  pub pix_fmt : ℤ
  pub sample_fmt : ℤ
  pub sample_rate : ℤ
  pub channels : ℕ
  pub channel_layout : ℕ
  pub bytes_per_sample : ℕ
  pub time_base : ℤ × ℤ
  pub bit_rate : ℕ
  pub global_header : Bool

-- `self` is the address of the thread, and `type` the type of mEnc.
pub record EncoderThread : Type 0 where
  pub self : Address
  pub type : MediaType
  pub codec_ctx : CodecContext
  pub pcm_buffer : Option (List ℕ)
  pub pcm_size : ℕ
  pub frame_stack : Option (Stack Frame)

-- The AVFrame of a picture and of sound; the bytes of sound stand for their address.
pub record Picture : Type 0 where
  pub luma : Address
  pub chroma : Address
  pub linesize : ℕ
  pub height : ℕ
  pub width : ℕ
  pub format : ℤ
  pub pts : ℤ

pub record Sound : Type 0 where
  pub nb_samples : ℕ
  pub channel_layout : ℕ
  pub format : ℤ
  pub sample_rate : ℤ
  pub channels : ℕ
  pub samples : List ℕ
  pub pts : ℤ

pub data Deed : Type 0 where
  encodes_picture : Picture → Deed
  encodes_sound : Sound → Deed
  releases : Frame → Deed

-- What an encoder answers: its result, and the packet that it got.
pub record Encoded : Type 0 where
  pub ret : ℤ
  pub got : Option Packet

-- memcpy into a buffer.
unfoldable pub memcpy : List ℕ → ℕ → List ℕ → Option (List ℕ)
memcpy buffer at bytes =
    if leb (at + length bytes) (length buffer)
    then some (take at buffer ++ bytes ++ drop (at + length bytes) buffer)
    else none

-- 1024 * 8, the bytes of the buffer.
abbrev pub pcm_bytes : ℕ
pcm_bytes = 8192

-- The frame that passes on an encoded packet; `releaser` is the address of release_pkt_buffer, and
-- `fresh` the frame that mediaFrameCreate would make.
unfoldable pub output_frame : Address → EncoderThread → Frame → Packet → Frame × EncoderThread
output_frame releaser e fresh pkt =
    let (frame, _, stack) = get_media_frame e.frame_stack fresh in
    (
      record (set_release (record frame { appending = some e.self }) (some releaser)
          (some pkt.address)) {
            size = pos (length pkt.contents);
            buffer = pkt.data_at;
            pts = pkt.pts;
            dts = pkt.dts;
            flag = pos (pkt.flags % 2);
          },
      record e { frame_stack = stack },
    )

-- What is left of a call: its result, the thread, and what it did.
pub record Dealt : Type 0 where
  pub result : Option Frame
  pub thread : EncoderThread
  pub deeds : List Deed

-- The end of both encoders; AV_PKT_FLAG_KEY is the lowest bit.
unfoldable pub answer : Address → EncoderThread → Frame → Encoded → List Deed → Dealt
unfolding output_frame
answer releaser e fresh reply deeds = elim reply.got [
  | none ↦ record { result = none; thread = e; deeds = deeds }
  | some pkt ↦
      let (frame, e') = output_frame releaser e fresh pkt in
      record { result = some frame; thread = e'; deeds = deeds }
]

-- `pkt` is the packet that the frame's buffer points to.
unfoldable encoder_video : Address → EncoderThread → Frame → Packet → Frame → Encoded → Option Dealt
unfolding answer
encoder_video releaser e frame pkt fresh reply = elim pkt.data_at [
  | none ↦ none
  | some at ↦
      let picture : Picture = record {
        luma = at + 64;
        chroma = at + 64 + e.codec_ctx.height * e.codec_ctx.width;
        linesize = e.codec_ctx.width;
        height = e.codec_ctx.height;
        width = e.codec_ctx.width;
        format = e.codec_ctx.pix_fmt;
        pts = pkt.pts;
      } in
      some (answer releaser e fresh reply (encodes_picture picture ∷ releases frame ∷ []))
]

-- The sound that is encoded once the buffer is full.
unfoldable pub sound_of : CodecContext → List ℕ → ℤ → Sound
sound_of ctx samples pts = record {
  nb_samples = length samples / ctx.bytes_per_sample / ctx.channels;
  channel_layout = ctx.channel_layout;
  format = ctx.sample_fmt;
  sample_rate = ctx.sample_rate;
  channels = ctx.channels;
  samples = samples;
  pts = pts;
}

unfoldable pub encoder_audio :
    Address → EncoderThread → Frame → Packet → Frame → Encoded → Option Dealt
unfolding answer sound_of
encoder_audio releaser e frame pkt fresh reply = do
  buffer ← e.pcm_buffer
  buffer' ← memcpy buffer e.pcm_size pkt.contents
  let size = e.pcm_size + length pkt.contents
  let filled = record e { pcm_buffer = some buffer'; pcm_size = size }
  let emptied = record filled { pcm_size = 0 }
  let sound = sound_of e.codec_ctx (take size buffer') pkt.pts
  let waiting : Dealt = record { result = none; thread = filled; deeds = releases frame ∷ [] }
  let full = answer releaser emptied fresh reply (encodes_sound sound ∷ releases frame ∷ [])
  some (if ltb size pcm_bytes then waiting else full)

unfoldable pub deal : Address → EncoderThread → Frame → Packet → Frame → Encoded → Option Dealt
unfolding encoder_video encoder_audio
deal releaser e frame pkt fresh reply = elim e.type [
  | video ↦ encoder_video releaser e frame pkt fresh reply
  | audio ↦ encoder_audio releaser e frame pkt fresh reply
  | other ↦ some (record { result = none; thread = e; deeds = releases frame ∷ [] })
]
