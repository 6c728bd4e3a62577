-- ===== src/Logger/Platform.antt =====
-- utils/logger.c and utils/logger.h: the version that a message names, the output on Android, and the
-- dump of bytes.
use koala_streamer.Prelude.{
  ℕ, suc, ◌+◌, ◌/◌, ◌%◌, ◌≡◌, refl, ap, Option, none, some, List, [], ◌∷◌, ◌++◌, length, ltb, ◌==◌,
  if◌then◌else◌,
}
use koala_streamer.CString.{Bytes, bytes}

-- strrchr: what follows the last `c`, with it.
unfoldable strrchr : ℕ → Bytes → Option Bytes
strrchr c [] = none
strrchr c (b ∷ bs) =
    let later = strrchr c bs in
    elim later [ none ↦ if b == c then some (b ∷ bs) else none | some s ↦ some s ]

-- `version` is VERSION.
unfoldable git_ver : Bytes → Bytes
unfolding strrchr
git_ver version = elim (strrchr b'g' version) [ none ↦ version | some s ↦ s ]

-- The version of the source has no 'g'.
git_ver_dashes : git_ver (bytes "--") ≡ bytes "--"
unfolding git_ver
git_ver_dashes = refl

-- The levels of <android/log.h>.
pub record AndroidLevels : Type 0 where
  pub default : ℕ
  pub info : ℕ
  pub warn : ℕ
  pub error : ℕ
  pub fatal : ℕ

-- The case LOG_LEVEL_DEBUG runs on into LOG_LEVEL_INFO.
unfoldable lec_lev2android_lev : AndroidLevels → ℕ → ℕ
lec_lev2android_lev a prio =
    if prio == 1
    then a.info
    else if prio == 2
    then a.info
    else if prio == 4
    then a.warn
    else if prio == 8
    then a.error
    else if prio == 16
    then a.fatal
    else a.default

-- What __android_log_print gets: the level and the text "[%s] [%s] :%s".
unfoldable android_print : AndroidLevels → ℕ → Bytes → Bytes → Bytes → ℕ × Bytes
unfolding lec_lev2android_lev
android_print a prio ver tag printf_buf = (
  lec_lev2android_lev a prio,
  bytes "[" ++ ver ++ bytes "] [" ++ tag ++ bytes "] :" ++ printf_buf,
)

-- "%02x " of a byte.
abbrev hex_digit : ℕ → ℕ
hex_digit n = if ltb n 10 then 48 + n else 87 + n

unfoldable hex_byte : ℕ → Bytes
hex_byte b = hex_digit (b / 16 % 16) ∷ hex_digit (b % 16) ∷ 32 ∷ []

-- The messages of lec_hex_dump, each one call of LOGD.
unfoldable lec_hex_dump : List ℕ → List Bytes
unfolding hex_byte
lec_hex_dump [] = bytes "\n" ∷ []
lec_hex_dump (b ∷ bs) = hex_byte b ∷ lec_hex_dump bs

-- A dump is one message for each byte and one more.
length-lec_hex_dump : (bs : List ℕ) → length (lec_hex_dump bs) ≡ suc (length bs)
unfolding lec_hex_dump
length-lec_hex_dump [] = refl
length-lec_hex_dump (b ∷ bs) = ap suc (length-lec_hex_dump bs)

dumped : lec_hex_dump (0x1f ∷ 0xa0 ∷ []) ≡ bytes "1f " ∷ bytes "a0 " ∷ bytes "\n" ∷ []
unfolding lec_hex_dump
dumped = refl
