-- ===== src/Logger.antt =====
-- utils/logger.c: the level filter of the program's log, and where a message goes.
pub mod Format
pub mod Platform
use koala_streamer.Prelude.{
  ℕ, ◌≤◌, ◌≡◌, Bool, true, false, ◌&&◌, Option, none, some, List, [], ◌∷◌, ◌++◌, ltb, if◌then◌else◌,
  arith,
}
use koala_streamer.Frame.{Address}
use koala_streamer.KoalaLog.{log_debug, log_error}

-- `logCtrl` and `inited`, without the flags that nothing reads and the arguments of the callbacks.
pub record LogCtrl : Type 0 where
  pub log_level : ℕ
  pub disable_console : Bool
  pub log_out : Option Address
  pub log_out2 : Option Address
  pub inited : Bool

-- Where a message is printed.
pub data Sink : Type 0 where
  callback : Address → Sink
  console : Sink

unfoldable pub log_set_level : LogCtrl → ℕ → Bool → LogCtrl
log_set_level s level disable_console = record s {
  log_level = level;
  disable_console = disable_console;
}

unfoldable pub called : Option Address → List Sink
called none = []
called (some f) = callback f ∷ []

unfoldable pub sinks : LogCtrl → List Sink
unfolding called
sinks s =
    called s.log_out ++ (called s.log_out2 ++ (if s.disable_console then [] else console ∷ []))

-- The first message that passes the filter sets the log up.
unfoldable pub log_print : LogCtrl → ℕ → LogCtrl × List Sink
unfolding sinks
log_print s prio =
    let s' : LogCtrl = if s.inited then s else record s { log_level = log_debug; inited = true } in
    if ltb prio log_error && ltb prio s.log_level then (s, []) else (s', sinks s')

-- The defect: a level set before the first message is lost with that message. After an error, say,
-- messages of every level go everywhere, whatever level was set before.
pub log_print_forgets :
    (s : LogCtrl) (level : ℕ) (disable_console : Bool) (prio later : ℕ)
    → s.inited ≡ false
    → log_error ≤ prio
    → log_debug ≤ later
    → (log_print (log_print (log_set_level s level disable_console) prio).0 later).1
      ≡ sinks (log_set_level s level disable_console)
unfolding log_print log_set_level
log_print_forgets s level disable_console prio later fresh serious h = ground arith
