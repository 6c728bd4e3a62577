-- ===== src/KoalaLog.antt =====
-- KoalaPlayer/src/koala_common.c: log levels and filters, the lock manager and the first use of
-- FFmpeg; and `callback` of MediaMuxer/KoalaMuxer.c, which hands messages to the program's log.
pub mod Laws
use koala_streamer.Prelude.{
  ℕ, ◌-◌, ◌≤◌, ◌<◌, ◌≡◌, ◌⊎◌, refl, inl, inr, Bool, true, false, not, ◌||◌, Option, none, some,
  List, [], ◌∷◌, ltb, ◌==◌, if◌then◌else◌, arith, length, length-append, length-take, map,
  Bool-cases, Option-cases, take, ◌++◌,
}
use koala_streamer.CString.{Bytes}

-- FFmpeg's levels AV_LOG_FATAL to AV_LOG_TRACE.
pub record AvLevels : Type 0 where
  pub fatal : ℕ
  pub error : ℕ
  pub warning : ℕ
  pub info : ℕ
  pub verbose : ℕ
  pub debug : ℕ
  pub trace : ℕ

-- KOALA_LOG_FATAL to KOALA_LOG_TRACE.
abbrev pub koala_fatal : ℕ
koala_fatal = 1

abbrev pub koala_error : ℕ
koala_error = 2

abbrev pub koala_warning : ℕ
koala_warning = 4

abbrev pub koala_info : ℕ
koala_info = 8

abbrev pub koala_debug : ℕ
koala_debug = 16

abbrev pub koala_trace : ℕ
koala_trace = 32

-- LOG_LEVEL_DEBUG to LOG_LEVEL_FATAL of utils/logger.h.
abbrev pub log_debug : ℕ
log_debug = 1

abbrev pub log_info : ℕ
log_info = 2

abbrev pub log_warning : ℕ
log_warning = 4

abbrev pub log_error : ℕ
log_error = 8

abbrev pub log_fatal : ℕ
log_fatal = 16

-- The static variables: the callback's address, and the two levels.
pub record LogState : Type 0 where
  pub av_log_callback : Option ℕ
  pub av_log_level : ℕ
  pub koala_log_level : ℕ

-- A message handed to the callback: its level and its text.
pub record Message : Type 0 where
  pub to : ℕ
  pub level : ℕ
  pub text : Bytes

module _ (av : AvLevels) where
  unfoldable pub level_koala_to_av : ℕ → ℕ
  level_koala_to_av l =
      if l == koala_fatal
      then av.fatal
      else (if l == koala_error
          then av.error
          else (if l == koala_warning
              then av.warning
              else (if l == koala_info
                  then av.info
                  else (if l == koala_debug
                      then av.debug
                      else (if l == koala_trace then av.trace else av.info)))))

  unfoldable pub koala_set_log_level : LogState → ℕ → LogState
  unfolding level_koala_to_av
  koala_set_log_level s level = record s {
    koala_log_level = level;
    av_log_level = level_koala_to_av level;
  }

  -- The level at which `callback` of KoalaMuxer.c prints a message of FFmpeg's level.
  unfoldable pub print_level : ℕ → ℕ
  print_level level =
      if level == av.trace || level == av.debug || level == av.verbose
      then log_debug
      else (if level == av.info
          then log_info
          else (if level == av.warning then log_warning else log_error))

unfoldable pub regist_log_call_back : LogState → Option ℕ → LogState
regist_log_call_back s callback = record s { av_log_callback = callback }

-- koala_log formats into 1024 bytes with no bound: `none` is a text that does not fit.
unfoldable pub koala_log : LogState → ℕ → Bytes → Option (List Message)
koala_log s prio text = elim s.av_log_callback [
  | none ↦ some []
  | some to ↦
      if ltb s.koala_log_level prio
      then some []
      else (if ltb (length text) 1024
          then some (record { to = to; level = prio; text = text } ∷ [])
          else none)
]

-- snprintf into what is left of the 1024 bytes of `line`.
unfoldable pub append_line : Bytes → Bytes → Bytes
append_line line text = line ++ take (1023 - length line) text

unfoldable pub with_context : Option Bytes → Bytes → Bytes
with_context none line = line
with_context (some c) line = append_line line c

-- log_back: `parent` and `item` are the texts of the two contexts, where there are such.
unfoldable pub log_back : LogState → ℕ → Option Bytes → Option Bytes → Bytes → List Message
log_back s level parent item text = elim s.av_log_callback [
  | none ↦ []
  | some to ↦
      if ltb s.av_log_level level
      then []
      else record {
        to = to;
        level = level;
        text = append_line (with_context item (with_context parent [])) text;
      }
        ∷ []
]

-- enum AVLockOp.
pub data LockOp : Type 0 where
  create obtain release destroy : LockOp

-- lockmgr: the result, from whether memory for a mutex was found and from the results of
-- pthread_mutex_lock and pthread_mutex_unlock.
unfoldable pub lockmgr : LockOp → Bool → ℕ → ℕ → ℕ
lockmgr create allocated locked unlocked = if allocated then 0 else 1
lockmgr obtain allocated locked unlocked = if locked == 0 then 0 else 1
lockmgr release allocated locked unlocked = if unlocked == 0 then 0 else 1
lockmgr destroy allocated locked unlocked = 0

-- koala_init_ffmpeg: whether FFmpeg is set up in this call, and the static variable afterwards.
unfoldable pub koala_init_ffmpeg : Bool → Bool × Bool
koala_init_ffmpeg inited = if not inited then (true, true) else (false, inited)
