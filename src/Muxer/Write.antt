-- ===== src/Muxer/Write.antt =====
-- koala_muxer.c, get_audio_frame, get_video_frame and write_frame: one frame from its source to the
-- output. FFmpeg's functions are parameters.
use koala_streamer.Prelude.{
  ℕ, Bool, false, ◌||◌, not, Option, none, some, List, [], ◌∷◌, ◌++◌, map, ◌==◌, if◌then◌else◌,
}
use koala_streamer.Prelude.Int.{ℤ, pos, negsuc, ◌-ℤ◌, ltb_ℤ, is_neg, is_zero}
use koala_streamer.Frame.{Frame, Address}
use koala_streamer.Muxer.{Muxer, Rational, Call, send_event}

-- What the muxer asks of FFmpeg: av_rescale(a, b, c), av_compare_ts, AV_TIME_BASE, and the error codes
-- AVERROR(ETIMEDOUT), AVERROR(EPIPE) and AVERROR(ENOTRECOVERABLE).
pub record Ffmpeg : Type 0 where
  pub av_rescale : ℤ → ℤ → ℤ → ℤ
  pub av_compare_ts : ℤ → Rational → ℤ → Rational → ℤ
  pub av_time_base : ℤ
  pub etimedout : ℤ
  pub epipe : ℤ
  pub enotrecoverable : ℤ

-- `stream_type`.
pub data Stream : Type 0 where
  video audio : Stream

-- What a data callback hands back: its result, and the frame that it left in `*data`.
pub record Reply : Type 0 where
  pub ret : ℤ
  pub frame : Option Frame

-- What the packet given to av_interleaved_write_frame says.
pub record Packet : Type 0 where
  pub stream_index : ℕ
  pub payload : Option Address
  pub size : ℤ
  pub pts : ℤ
  pub dts : ℤ
  pub flags : ℤ

-- What a call does outside the muxer's state, in order.
pub data Event : Type 0 where
  wrote : Stream → Packet → Event
  notified : Call → Event
  released : Stream → Frame → Event
  trailer : Event

unfoldable pub get_audio_frame : Muxer → Reply → Reply
get_audio_frame m r = elim m.acb [ none ↦ record { ret = negsuc 0; frame = none } | some _ ↦ r ]

unfoldable pub get_video_frame : Muxer → Reply → Reply
get_video_frame m r = elim m.vcb [ none ↦ record { ret = negsuc 0; frame = none } | some _ ↦ r ]

unfoldable pub get_frame : Stream → Muxer → Reply → Reply
unfolding get_audio_frame get_video_frame
get_frame video m r = get_video_frame m r
get_frame audio m r = get_audio_frame m r

-- A result of write_frame: what it returns, the state and the events.
pub record Step : Type 0 where
  pub ret : ℤ
  pub muxer : Muxer
  pub events : List Event

-- A frame dropped while a key frame is awaited.
drop_frame : Stream → Muxer → Frame → Muxer
drop_frame video m f = record m { last_video_pts = f.dts }
drop_frame audio m f = record m { last_audio_pts = f.dts }

-- Whether the awaited key frame has come.
is_key_video : Stream → Frame → Bool
is_key_video video f = not (is_zero f.flag)
is_key_video audio f = false

-- The first time stamp is kept from the first frame whose own is not negative.
unfoldable pub anchor : Muxer → Frame → Muxer
anchor m f = if is_neg m.first_pts then record m { first_pts = f.dts } else m

unfoldable pub rebase : ℤ → Frame → Frame
rebase first f =
    if ltb_ℤ (pos 0) first then record f { dts = f.dts -ℤ first; pts = f.pts -ℤ first } else f

unfoldable pub set_last : Stream → Muxer → Frame → Muxer
set_last video m f = record m { last_video_pts = f.pts }
set_last audio m f = record m { last_audio_pts = f.pts }

-- `x == y` on `int`.
abbrev pub same_int : ℤ → ℤ → Bool
same_int (pos a) (pos b) = a == b
same_int (negsuc a) (negsuc b) = a == b
same_int _ _ = false

module _ (av : Ffmpeg) where
  unfoldable pub packet_of : Stream → Muxer → Frame → Packet
  packet_of video m f = record {
    stream_index = m.video_stream;
    payload = f.buffer;
    size = f.size;
    pts = av.av_rescale f.pts m.con_v_base.num m.con_v_base.den;
    dts = av.av_rescale f.dts m.con_v_base.num m.con_v_base.den;
    flags = f.flag;
  }
  packet_of audio m f =
      let ts = av.av_rescale f.pts m.con_a_base.num m.con_a_base.den in
      record {
        stream_index = m.audio_stream;
        payload = f.buffer;
        size = f.size;
        pts = ts;
        dts = ts;
        flags = f.flag;
      }

  unfoldable pub is_broken : ℤ → Bool
  is_broken ret =
      same_int av.etimedout ret || same_int av.epipe ret || same_int av.enotrecoverable ret

  -- The part after a frame is accepted; `sent` is the result of av_interleaved_write_frame.
  unfoldable pub sent_frame : Stream → Muxer → Frame → (Packet → ℤ) → Step
  unfolding is_broken
  sent_frame stream m f sent =
      let m₁ = anchor m f in
      let f₁ = rebase m₁.first_pts f in
      let pkt = packet_of stream m₁ f₁ in
      let m₂ = set_last stream m₁ f₁ in
      let ret = sent pkt in
      let notes = map notified (if is_broken ret then send_event m₂ ret else []) in
      record { ret = ret; muxer = m₂; events = wrote stream pkt ∷ notes ++ released stream f₁ ∷ [] }

  -- `none` is the access to a context that is not there.
  unfoldable pub send_frame : Stream → Muxer → Frame → (Packet → ℤ) → Option Step
  send_frame stream m f sent = if m.opened then some (sent_frame stream m f sent) else none

  unfoldable pub accept_frame : Stream → Muxer → Frame → (Packet → ℤ) → Option Step
  unfolding drop_frame is_key_video send_frame
  accept_frame stream m f sent =
      if m.req_i_frame
      then (if is_key_video stream f
          then send_frame stream
              (record m { req_i_frame = false; last_video_pts = pos 0; last_audio_pts = pos 0 }) f
              sent
          else some (record {
            ret = pos 0;
            muxer = drop_frame stream m f;
            events = released stream f ∷ [];
          }))
      else send_frame stream m f sent

  -- `none` also stands for a callback that reports a frame and leaves a null pointer.
  unfoldable pub write_frame : Stream → Muxer → Reply → (Packet → ℤ) → Option Step
  unfolding get_frame accept_frame
  write_frame stream m reply sent =
      let got = get_frame stream m reply in
      if is_neg got.ret
      then some (record { ret = pos 1; muxer = m; events = [] })
      else elim got.frame [ none ↦ none | some f ↦ accept_frame stream m f sent ]
