-- ===== src/Tests/Starting.antt =====
-- The program's threads as it starts them, with a concrete FFmpeg.
use koala_streamer.Prelude.{
  ℕ, ◌≡◌, refl, inr, inl, some, none, List, [], ◌==◌, if◌then◌else◌, replicate, length-replicate,
  arith,
}
use koala_streamer.Prelude.Int.{pos}
use koala_streamer.Frame.{Frame, blank}
use koala_streamer.App.{StreamerCont}
use koala_streamer.App.Input.{Input}
use koala_streamer.App.Encoder.{EncoderThread, video, audio}
use koala_streamer.App.Encoder.Init.{
  Ffmpeg, StreamCodec, init_thread, init_thread_encodes, is_pcm, built,
}
use koala_streamer.App.Encoder.Packets.{After, encode_all, EncodesWell}
use koala_streamer.App.Start.{Started, init_media_thread, opened_cont, new_thread, started_leaves}
use koala_streamer.App.Capture.{left, read_devices}
use koala_streamer.Tests.Encoding.{thread, works, works-Uniform}
use koala_streamer.Tests.Capturing.{addresses, rounds}

abbrev ffmpeg : Ffmpeg
ffmpeg = record {
  h264 = 27;
  aac = 86018;
  first_audio = 65536;
  pcm_s16be_planar = 65564;
  find_encoder = λ id. some (if id == 27 then video else audio);
  find_encoder_by_name = λ name. some audio;
  alloc_context = λ enc. thread.codec_ctx;
  bytes_per_sample = λ format. 4;
}

abbrev sound : StreamCodec
sound = record {
  codec_type = audio;
  codec_id = 65557;
  pix_fmt = pos 0;
  width = 0;
  height = 0;
  sample_fmt = pos 3;
  sample_rate = pos 44100;
  channels = 2;
  channel_layout = 3;
  time_base = (pos 1, pos 44100);
}

init_thread_encodes_example :
    (e : EncoderThread) × (a : After) × (waiting : List ℕ) × (init_thread ffmpeg 5 none 86018 sound
        65536
        (replicate 8192 0)
      ≡ some e)
    × (encode_all 9 e (works 2048) ≡ some a)
    × EncodesWell (works 2048) [] a waiting
unfolding is_pcm
init_thread_encodes_example =
    init_thread_encodes ffmpeg 5 9 none 86018 sound 65536 (replicate 8192 0) 2048 4 (works 2048)
      refl refl refl (length-replicate {A = ℕ} 8192 0) refl (works-Uniform 2048)

abbrev input : Input
input = record {
  video_stream = some 1;
  audio_stream = some 2;
  video_index = pos 0;
  audio_index = pos 1;
}

abbrev cells : ℕ → List Frame
cells n = replicate n blank

abbrev picture : StreamCodec
picture = record sound { codec_type = video; codec_id = 13; width = 1280; height = 720 }

-- What initMediaThread returns, if it does.
abbrev started : Started
started =
    elim (init_media_thread ffmpeg cells (5, 6) (picture, sound) ([], replicate 8192 0)
      (opened_cont cells input)) [
        | none ↦ record { cont = opened_cont cells input; video_thread = none; audio_thread = none }
        | some st ↦ st
      ]

started_leaves_example :
    (c : StreamerCont) × (read_devices addresses 401 started.cont rounds ≡ some (left c))
unfolding init_media_thread new_thread init_thread is_pcm built opened_cont
started_leaves_example =
    started_leaves ffmpeg cells (5, 6) (picture, sound) ([], replicate 8192 0) input 0 1 started
      addresses 401 rounds (λ n. length-replicate n blank) refl refl refl (omega arith)
      (inr (inr (inl refl)))
