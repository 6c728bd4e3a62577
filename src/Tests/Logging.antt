-- ===== src/Tests/Logging.antt =====
-- The text of a message at a concrete time.
use koala_streamer.Prelude.{◌+◌, ◌≤◌, ◌≡◌, true, length, arith}
use koala_streamer.CString.{bytes}
use koala_streamer.Logger.Format.{LocalTime, Process, content, format_log, ends_line, out_buf_size}
use koala_streamer.Logger.Format.Bounds.{format_log_lem}

abbrev noon : LocalTime
noon = record { mon = 7; mday = 1; hour = 12; min = 5; sec = 9; msec = 42 }

abbrev process : Process
process = record { pid = 4711; tid = 4712; git_ver = bytes "g1a2b3c" }

format_log_lem_example :
    let text =
      format_log noon process 8 (bytes "MediaStreamer") (content (bytes "open muxer error")) in
    (length text + 1 ≤ out_buf_size) × (ends_line text ≡ true)
format_log_lem_example =
    format_log_lem noon process 8 (bytes "MediaStreamer") (bytes "open muxer error")
      (record {
        mon = omega arith;
        mday = omega arith;
        hour = omega arith;
        min = omega arith;
        sec = omega arith;
        msec = omega arith;
      })
      (omega arith)
