-- ===== src/Logger/Format.antt =====
-- utils/logger.c, the text of a message: get_local_time, get_char_lev, format_log and linux_print.
pub mod Bounds
use koala_streamer.Prelude.{
  ℕ, zero, suc, ◌+◌, ◌-◌, ◌/◌, ◌%◌, ◌<◌, ◌≤◌, ◌≡◌, refl, ap, sym, ◌∙◌, inl, inr, Bool, true, false,
  Option, none, some, List, [], ◌∷◌, ◌++◌, ltb, ◌==◌, if◌then◌else◌, length, take, replicate,
  length-append, length-take, length-replicate, arith, Bool-cases,
}
use koala_streamer.CString.{Bytes, bytes}
use koala_streamer.KoalaLog.{log_debug, log_info, log_warning, log_error, log_fatal}

-- "%d" of a number of at most ten digits, as an `int` that is not negative has.
unfoldable pub decimal_from : ℕ → ℕ → Bytes
decimal_from zero n = []
decimal_from (suc digits) n =
    let front = decimal_from digits (n / 10) in
    if ltb n 10 then (48 + n) ∷ [] else front ++ (48 + n % 10) ∷ []

unfoldable pub decimal : ℕ → Bytes
unfolding decimal_from
decimal n = decimal_from 10 n

-- "%02d" and "%03d".
unfoldable pub padded : ℕ → ℕ → Bytes
unfolding decimal
padded width n = replicate (width - length (decimal n)) 48 ++ decimal n

-- The parts of a format, one after the other.
abbrev joined : List Bytes → Bytes
joined [] = []
joined (part ∷ parts) = part ++ joined parts

-- The members of struct tm that are read, and the milliseconds.
pub record LocalTime : Type 0 where
  pub mon : ℕ
  pub mday : ℕ
  pub hour : ℕ
  pub min : ℕ
  pub sec : ℕ
  pub msec : ℕ

unfoldable pub get_local_time : LocalTime → Bytes
unfolding padded
get_local_time t = joined (
    padded 2 (t.mon + 1)
    ∷ bytes "-"
    ∷ padded 2 t.mday
    ∷ bytes " "
    ∷ padded 2 t.hour
    ∷ bytes ":"
    ∷ padded 2 t.min
    ∷ bytes ":"
    ∷ padded 2 t.sec
    ∷ bytes "."
    ∷ padded 3 t.msec
    ∷ [])

-- The letter of a level, and the colour of its text behind the escape character.
abbrev escaped : Bytes → Bytes
escaped code = 27 ∷ code

unfoldable get_char_lev : ℕ → ℕ × Bytes
get_char_lev lev =
    if lev == log_info
    then (73, escaped (bytes "[m"))
    else if lev == log_debug
    then (68, escaped (bytes "[m"))
    else if lev == log_warning
    then (87, escaped (bytes "[1;33m"))
    else if lev == log_error
    then (69, escaped (bytes "[0;32;31m"))
    else if lev == log_fatal
    then (70, escaped (bytes "[1;31m"))
    else (32, escaped (bytes "[m"))

-- The prints of linux_print: the colour, the text, and the colour reset.
unfoldable linux_print : ℕ → Bytes → List Bytes
unfolding get_char_lev
linux_print prio text = (get_char_lev prio).1 ∷ text ∷ escaped (bytes "[m") ∷ []

-- Whether the last byte is a line feed.
unfoldable pub ends_line : Bytes → Bool
ends_line [] = false
ends_line (b ∷ []) = b == 10
ends_line (b ∷ c ∷ bs) = ends_line (c ∷ bs)

-- The call of vsnprintf with 1023: at most 1022 bytes before the terminator.
unfoldable pub content : Bytes → Bytes
content message = take 1022 message

pub record Process : Type 0 where
  pub pid : ℕ
  pub tid : ℕ
  pub git_ver : Bytes

unfoldable pub prefix : LocalTime → Process → ℕ → Bytes → Bytes
unfolding get_local_time decimal get_char_lev
prefix t p prio tag = joined (
    get_local_time t
    ∷ bytes " "
    ∷ decimal p.pid
    ∷ bytes " "
    ∷ decimal p.tid
    ∷ bytes " "
    ∷ ((get_char_lev prio).0 ∷ [])
    ∷ bytes " ["
    ∷ p.git_ver
    ∷ bytes "] ["
    ∷ tag
    ∷ bytes "]: "
    ∷ [])

-- format_log, without the terminator.
unfoldable pub format_log : LocalTime → Process → ℕ → Bytes → Bytes → Bytes
unfolding prefix ends_line
format_log t p prio tag cont =
    let text = prefix t p prio tag ++ cont in if ends_line text then text else text ++ 10 ∷ []

-- sizeof(out_buf).
abbrev pub out_buf_size : ℕ
out_buf_size = 1280
