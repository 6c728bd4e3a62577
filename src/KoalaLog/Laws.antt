-- ===== src/KoalaLog/Laws.antt =====
-- koala_common.c: the levels of its messages and the bounds of their texts.
use koala_streamer.Prelude.{
  ℕ, ◌-◌, ◌≤◌, ◌<◌, ◌≡◌, ◌⊎◌, refl, inl, inr, ◌||◌, Option, none, some, List, [], ◌∷◌, ltb, ◌==◌,
  if◌then◌else◌, arith, length, length-append, length-take, map, Bool-cases, Option-cases, take,
}
use koala_streamer.CString.{Bytes}
use koala_streamer.KoalaLog.{
  AvLevels, LogState, Message, koala_fatal, koala_error, koala_warning, koala_info, koala_debug,
  koala_trace, log_debug, log_info, log_warning, log_error, print_level, level_koala_to_av,
  log_back, append_line, with_context,
}

-- The values that FFmpeg documents for its levels.
pub record IsDocumented (av : AvLevels) : Type 0 where
  pub at_fatal : av.fatal ≡ 8
  pub at_error : av.error ≡ 16
  pub at_warning : av.warning ≡ 24
  pub at_info : av.info ≡ 32
  pub at_verbose : av.verbose ≡ 40
  pub at_debug : av.debug ≡ 48
  pub at_trace : av.trace ≡ 56

-- The level at which a message of a level of the library should be printed.
abbrev pub meant_level : ℕ → ℕ
meant_level prio =
    if prio == koala_debug || prio == koala_trace
    then log_debug
    else (if prio == koala_info
        then log_info
        else (if prio == koala_warning then log_warning else log_error))

-- The levels of the library.
abbrev pub IsKoalaLevel : ℕ → Type 0
IsKoalaLevel prio =
    (prio ≡ koala_fatal)
    ⊎ (prio ≡ koala_error)
    ⊎ (prio ≡ koala_warning)
    ⊎ (prio ≡ koala_info)
    ⊎ (prio ≡ koala_debug)
    ⊎ (prio ≡ koala_trace)

-- The defect: with FFmpeg's documented levels, a message of koala_log reaches `callback` at the
-- library's level, which is read as FFmpeg's, so that a trace is printed as information and a
-- message of every other level as an error. Translated first, as koala_set_log_level does, each
-- level would be printed as what it means.
pub print_level_mixed :
    (av : AvLevels) (prio : ℕ)
    → IsDocumented av
    → IsKoalaLevel prio
    → (print_level av prio ≡ (if prio == koala_trace then log_info else log_error))
      × (print_level av (level_koala_to_av av prio) ≡ meant_level prio)
unfolding print_level level_koala_to_av
print_level_mixed av prio d (inl e) = ground arith
print_level_mixed av prio d (inr (inl e)) = ground arith
print_level_mixed av prio d (inr (inr (inl e))) = ground arith
print_level_mixed av prio d (inr (inr (inr (inl e)))) = ground arith
print_level_mixed av prio d (inr (inr (inr (inr (inl e))))) = ground arith
print_level_mixed av prio d (inr (inr (inr (inr (inr e))))) = ground arith

append_line_bounded :
    (line text : Bytes) → length line ≤ 1023 → length (append_line line text) ≤ 1023
unfolding append_line
append_line_bounded line text h = omega (
  arith,
  length-append line (take (1023 - length line) text),
  length-take (1023 - length line) text,
)

with_context_bounded :
    (c : Option Bytes) (line : Bytes) → length line ≤ 1023 → length (with_context c line) ≤ 1023
unfolding with_context
with_context_bounded none line h = h
with_context_bounded (some c) line h = append_line_bounded line c h

-- Every text that a list of messages carries fits in the 1024 bytes with its final null.
abbrev pub AllFit : List Message → Type 0
AllFit [] = Unit
AllFit (m ∷ ms) = (length m.text ≤ 1023) × AllFit ms

-- Whatever FFmpeg's message and its contexts are, what log_back passes on fits in the line, and it
-- passes on exactly one message, at its own level, if a callback is registered and the level is
-- not above the level set, and none otherwise.
pub log_back_lem :
    (s : LogState) (level : ℕ) (parent item : Option Bytes) (text : Bytes)
    → let ms = log_back s level parent item text in
      AllFit ms
      × (((to : ℕ) × (s.av_log_callback ≡ some to)
            × (level ≤ s.av_log_level)
            × (map (λ m. m.level) ms ≡ level ∷ []))
          ⊎ (((s.av_log_callback ≡ none) ⊎ (s.av_log_level < level)) × (ms ≡ [])))
unfolding log_back
log_back_lem s level parent item text =
    let line = with_context item (with_context parent []) in
    let fits : length (append_line line text) ≤ 1023 = append_line_bounded line text (
      with_context_bounded item (with_context parent [])
        (with_context_bounded parent [] (omega arith))) in
    elim (Option-cases s.av_log_callback) [
      | inl e ↦ rw (e, log_back) (tt, inr (inl refl, refl))
      | inr (to, e) ↦ elim (Bool-cases (ltb s.av_log_level level)) [
        | inl low ↦ rw (e, low, log_back) (tt, inr (inr (ground arith), refl))
        | inr high ↦ rw (e, high, log_back) ((fits, tt), inl (to, refl, ground arith, refl))
      ]
    ]
