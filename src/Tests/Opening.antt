-- ===== src/Tests/Opening.antt =====
-- The opening of the koala muxer, its codecs and its log at concrete inputs.
use koala_streamer.Prelude.{
  ℕ, ◌≡◌, ◌≤◌, ◌<◌, ◌⊎◌, refl, true, false, none, some, List, [], ◌∷◌, map,
}
use koala_streamer.Prelude.Int.{pos, negsuc}
use koala_streamer.CString.{Bytes, bytes, starts_with, same_nocase, to_lower, atoi}
use koala_streamer.Codec.{h264, AvCodecIds}
use koala_streamer.KoalaLog.{AvLevels, LogState, log_back}
use koala_streamer.KoalaLog.Laws.{log_back_lem, AllFit, IsDocumented}
use koala_streamer.Muxer.{Muxer, koala_get_muxer_handle, reg_data_callback}
use koala_streamer.Muxer.Open.{Meta, Output, OpenWorld, koala_muxer_init_open}
use koala_streamer.Muxer.Open.Outcome.{Ends, koala_muxer_init_open_lem}
use koala_streamer.MediaMuxer.{Handle, create_muxer_handle, muxer_open}
use koala_streamer.MediaMuxer.Settings.{set_all, last_value, muxer_open-set_all}
use koala_streamer.MediaMuxer.Koala.{
  KoalaDele, koala_muxer_open, koala_delegate, koala_delegate_timed,
}

abbrev codec_ids : AvCodecIds ℕ
codec_ids = record {
  id_aac = 86018;
  id_ac3 = 86019;
  id_eac3 = 86056;
  id_mp3 = 86017;
  id_mp2 = 86016;
  id_mp1 = 86058;
  id_pcm_mulaw = 65542;
  id_ape = 86048;
  id_flac = 86028;
  id_h264 = 27;
  id_hevc = 173;
  id_none = 0;
  id_pcm_s16le = 65536;
}

abbrev levels : AvLevels
levels = record {
  fatal = 8;
  error = 16;
  warning = 24;
  info = 32;
  verbose = 40;
  debug = 48;
  trace = 56;
}

levels-IsDocumented : IsDocumented levels
levels-IsDocumented = record {
  at_fatal = refl;
  at_error = refl;
  at_warning = refl;
  at_info = refl;
  at_verbose = refl;
  at_debug = refl;
  at_trace = refl;
}

abbrev logging : LogState
logging = record { av_log_callback = some 7; av_log_level = 32; koala_log_level = 32 }

log_back_lem_example :
    let ms = log_back logging 16 (some (bytes "flv")) none (bytes "broken") in
    AllFit ms
    × (((to : ℕ) × (logging.av_log_callback ≡ some to)
          × (16 ≤ 32)
          × (map (λ m. m.level) ms ≡ 16 ∷ []))
        ⊎ (((logging.av_log_callback ≡ none) ⊎ (32 < 16)) × (ms ≡ [])))
log_back_lem_example = log_back_lem logging 16 (some (bytes "flv")) none (bytes "broken")

abbrev meta : Meta
meta = record {
  codec = h264;
  channels = pos 0;
  samplerate = pos 0;
  frame_size = pos 0;
  sample_fmt = pos 0;
  width = pos 640;
  height = pos 480;
  avg_fps = pos 25;
  extradata = some 99;
  extradata_size = pos 40;
}

abbrev flv : Output
flv = record { name = bytes "flv"; nofile = false }

-- The video source is described, the audio source is not.
abbrev world : OpenWorld ℕ
world = record {
  codecs = codec_ids;
  nb_channels = λ n. n;
  context = some flv;
  audio_meta = (negsuc 0, meta);
  video_meta = (pos 0, meta);
  audio_index = 0;
  video_index = 1;
  io_ret = pos 0;
  hostip = none;
  header_ret = pos 0;
}

-- A muxer with both sources and a listener.
abbrev both : Muxer
both = record (reg_data_callback koala_get_muxer_handle (some 1) none (some 2) none) {
  listener = some 3;
}

-- The failure of the audio source is told with a value that nothing gave.
koala_muxer_init_open_lem_example :
    Ends world both true none (koala_muxer_init_open world both true)
unfolding starts_with reg_data_callback
koala_muxer_init_open_lem_example = koala_muxer_init_open_lem world both flv refl

abbrev settings : List (Bytes × Bytes)
settings = (bytes "io_timeout_ms", bytes "100") ∷ (bytes "IO_TIMEOUT_MS", bytes "250") ∷ []

muxer_open-set_all_example :
    (p : Handle KoalaDele) × (set_all (some create_muxer_handle) settings ≡ some p)
    × ((muxer_open (koala_delegate world 1 2 4 5) p (some (bytes "rtmp")) none 3).0 ≡ pos 0)
    × ((h' : KoalaDele) × ((muxer_open
            (koala_delegate world 1 2 4 5)
            p
            (some (bytes "rtmp"))
            none
            3).1.delcnt
          ≡ some h')
        × (h'.koala.io_timeout_ms ≡ pos 250))
unfolding koala_delegate koala_delegate_timed koala_muxer_open last_value same_nocase to_lower atoi
muxer_open-set_all_example =
    muxer_open-set_all (koala_delegate world 1 2 4 5) (koala_delegate_timed world 1 2 4 5) settings
      (some (bytes "rtmp")) none 3 _ refl refl
