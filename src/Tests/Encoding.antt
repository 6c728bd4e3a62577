-- ===== src/Tests/Encoding.antt =====
-- An encoder thread at concrete packets.
use koala_streamer.Prelude.{
  ℕ, ◌≡◌, refl, false, some, none, List, [], ◌∷◌, replicate, length-replicate, arith,
}
use koala_streamer.Prelude.Int.{pos}
use koala_streamer.Frame.{blank}
use koala_streamer.App.Encoder.{EncoderThread, audio}
use koala_streamer.App.Encoder.Buffer.{Waits}
use koala_streamer.App.Encoder.Packets.{Work, encode_all, Uniform}
use koala_streamer.App.Encoder.Run.{encode_all_overruns}

abbrev pub thread : EncoderThread
thread = record {
  self = 1;
  type = audio;
  codec_ctx = record {
    width = 0;
    height = 0;
    pix_fmt = pos 0;
    sample_fmt = pos 3;
    sample_rate = pos 44100;
    channels = 2;
    channel_layout = 3;
    bytes_per_sample = 4;
    time_base = (pos 1, pos 44100);
    bit_rate = 65536;
    global_header = false;
  };
  pcm_buffer = some (replicate 8192 0);
  pcm_size = 0;
  frame_stack = none;
}

thread-Waits : Waits thread []
thread-Waits = record {
  buffer = replicate 8192 0;
  is_audio = refl;
  has_buffer = refl;
  room = length-replicate {A = ℕ} 8192 0;
  sized = refl;
  held = refl;
}

-- A frame with a packet of `s` bytes.
abbrev work : ℕ → Work
work s = record {
  frame = blank;
  packet = record {
    address = 2;
    data_at = some 3;
    contents = replicate s 0;
    pts = pos 0;
    dts = pos 0;
    flags = 1;
    stream_index = pos 0;
  };
  fresh = blank;
  reply = record { ret = pos 0; got = none };
}

abbrev pub works : ℕ → List Work
works s = work s ∷ work s ∷ work s ∷ work s ∷ work s ∷ []

pub works-Uniform : (s : ℕ) → Uniform s (works s)
works-Uniform s =
    let sized = length-replicate s 0 in (sized, (sized, (sized, (sized, (sized, tt)))))

encode_all_overruns_example : encode_all 9 thread (works 3000) ≡ none
encode_all_overruns_example =
    encode_all_overruns 9 3000 (λ k e. omega arith) (works 3000) thread (works-Uniform 3000)
      thread-Waits (omega arith)
