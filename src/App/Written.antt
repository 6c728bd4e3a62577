-- ===== src/App/Written.antt =====
-- MacRTMPStreamer.cpp and koala_muxer.c: a packet from the encoder to the output, as a frame that the
-- encoder's thread makes and write_frame takes apart.
use koala_streamer.Prelude.{
  ◌%◌, ◌≡◌, refl, ap, ◌∙◌, Bool, true, false, Option, some, List, [], ◌∷◌, length, arith,
  if◌then◌else◌,
}
use koala_streamer.Prelude.Int.{ℤ, pos, ◌-ℤ◌, ltb_ℤ, is_neg}
use koala_streamer.Frame.{Address, Frame, call, default_release, release, set_release}
use koala_streamer.App.Encoder.{Packet, EncoderThread, Encoded, Deed, answer, output_frame}
use koala_streamer.Muxer.{Muxer}
use koala_streamer.Muxer.Write.{
  Ffmpeg, Stream, video, audio, Reply, Step, get_frame, anchor, rebase, packet_of, sent_frame,
  send_frame, accept_frame, write_frame,
}
use koala_streamer.Muxer.Write as Write
use koala_streamer.Muxer.Events.{packets_of, releases_of}
use koala_streamer.Muxer.Step.{
  callback, get_frame-callback, packets_of-sent, releases_of-sent, same_stream_self,
}

-- What the program's callback hands out for a frame of the encoder, and where there is none.
abbrev pub handed : Option Frame → Reply
handed f = record { ret = pos 0; frame = f }

-- The time origin of the output, and a time of the packet from there on.
abbrev pub origin : Muxer → Packet → ℤ
origin m pkt = if is_neg m.first_pts then pkt.dts else m.first_pts

abbrev pub since : Muxer → Packet → ℤ → ℤ
since m pkt t = if ltb_ℤ (pos 0) (origin m pkt) then t -ℤ origin m pkt else t

-- The packet that the output should get: the same bytes and key flag, and times from the origin on in
-- the time base of its stream; sound is stamped with its presentation time alone.
unfoldable pub expected : Ffmpeg → Stream → Muxer → Packet → Write.Packet
expected av video m pkt = record {
  stream_index = m.video_stream;
  payload = pkt.data_at;
  size = pos (length pkt.contents);
  pts = av.av_rescale (since m pkt pkt.pts) m.con_v_base.num m.con_v_base.den;
  dts = av.av_rescale (since m pkt pkt.dts) m.con_v_base.num m.con_v_base.den;
  flags = pos (pkt.flags % 2);
}
expected av audio m pkt = record {
  stream_index = m.audio_stream;
  payload = pkt.data_at;
  size = pos (length pkt.contents);
  pts = av.av_rescale (since m pkt pkt.pts) m.con_a_base.num m.con_a_base.den;
  dts = av.av_rescale (since m pkt pkt.pts) m.con_a_base.num m.con_a_base.den;
  flags = pos (pkt.flags % 2);
}

-- The packet and the release that a call of write_frame makes.
pub record Delivers (av : Ffmpeg) (s : Stream) (m : Muxer) (releaser : Address) (pkt : Packet)
    (o : Option Step) : Type 0 where
  pub result : Step
  pub ended : o ≡ some result
  pub written : packets_of s result.events ≡ expected av s m pkt ∷ []
  pub frame : Frame
  pub freed : releases_of s result.events ≡ frame ∷ []
  pub releases : release frame ≡ call releaser (some pkt.address) ∷ []

-- The frame that passes a packet on.
record Carries (releaser : Address) (pkt : Packet) (f : Frame) : Type 0 where
  buffer : f.buffer ≡ pkt.data_at
  size : f.size ≡ pos (length pkt.contents)
  pts : f.pts ≡ pkt.pts
  dts : f.dts ≡ pkt.dts
  flag : f.flag ≡ pos (pkt.flags % 2)
  releases : release f ≡ call releaser (some pkt.address) ∷ []

output_frame-Carries :
    (releaser : Address) (e : EncoderThread) (fresh : Frame) (pkt : Packet)
    → Carries releaser pkt (output_frame releaser e fresh pkt).0
unfolding output_frame set_release release
output_frame-Carries releaser e fresh pkt = record {
  buffer = refl;
  size = refl;
  pts = refl;
  dts = refl;
  flag = refl;
  releases = refl;
}

packet_of-expected :
    (av : Ffmpeg) (s : Stream) (m : Muxer) (releaser : Address) (pkt : Packet) (f : Frame)
    → Carries releaser pkt f
    → packet_of av s (anchor m f) (rebase (anchor m f).first_pts f) ≡ expected av s m pkt
unfolding packet_of expected anchor rebase
packet_of-expected av video m releaser pkt f c = ground (arith, c)
packet_of-expected av audio m releaser pkt f c = ground (arith, c)

release-if :
    (b : Bool) (f g : Frame) → release f ≡ release g → release (if b then f else g) ≡ release g
release-if true f g h = h
release-if false f g h = refl

release-rebase : (t : ℤ) (f : Frame) → release (rebase t f) ≡ release f
unfolding rebase release default_release
release-rebase t f =
    release-if (ltb_ℤ (pos 0) t) (record f { dts = f.dts -ℤ t; pts = f.pts -ℤ t }) f refl

-- What the encoder's thread makes of a packet that its encoder gives, handed out to a muxer whose
-- output is open and awaits no key frame: write_frame writes one packet, with the bytes, the size and
-- the key flag of the encoder's, its times counted from the origin and in the time base of its
-- stream, whatever the frame taken from the pool held before, and releases one frame, whose release
-- frees the encoder's packet.
pub answer-Delivers :
    (av : Ffmpeg) (s : Stream) (m : Muxer) (releaser : Address) (e : EncoderThread) (fresh : Frame)
    (reply : Encoded) (deeds : List Deed) (pkt : Packet) (sent : Write.Packet → ℤ)
    → reply.got ≡ some pkt
    → m.opened ≡ true
    → m.req_i_frame ≡ false
    → callback s m ≡ true
    → Delivers av s m releaser pkt
        (write_frame av s m (handed (answer releaser e fresh reply deeds).result) sent)
unfolding answer write_frame accept_frame send_frame
answer-Delivers av s m releaser e fresh reply deeds pkt sent got opened running there =
    let f = (output_frame releaser e fresh pkt).0 in
    let carries = output_frame-Carries releaser e fresh pkt in
    let given : (answer releaser e fresh reply deeds).result ≡ some f = rw got refl in
    let passed = get_frame-callback s m (handed (some f)) there in
    record {
      result = sent_frame av s m f sent;
      ended = rw (given, passed, opened, running) refl;
      written =
          packets_of-sent av s m f sent s
          ∙ rw (same_stream_self s)
              (ap (λ p. p ∷ []) (packet_of-expected av s m releaser pkt f carries));
      frame = rebase (anchor m f).first_pts f;
      freed = releases_of-sent av s m f sent s ∙ rw (same_stream_self s) refl;
      releases = release-rebase (anchor m f).first_pts f ∙ carries.releases;
    }
