-- ===== src/Options.antt =====
-- MediaMuxer/MediaMuxer.c, the option list: getOpt and setOpt (releaseOpts is in `Options/Release`).
pub mod Laws
pub mod Release
use koala_streamer.Prelude.{
  Bool, true, false, ◌&&◌, not, Option, none, some, List, [], ◌∷◌, if◌then◌else◌, ◌≡◌,
}
use koala_streamer.CString.{Bytes, same_nocase}

-- `OptNode`, without its link.
pub record OptNode : Type 0 where
  pub key : Bytes
  pub value : Bytes

unfoldable pub get_opt : List OptNode → Bytes → Option OptNode
get_opt [] key = none
get_opt (o ∷ opts) key = if same_nocase key o.key then some o else get_opt opts key

-- What setOpt does at the node that getOpt has found.
unfoldable pub overwrite : List OptNode → Bytes → Bytes → List OptNode
overwrite [] key value = []
overwrite (o ∷ opts) key value =
    if same_nocase key o.key
    then record o { value = value } ∷ opts
    else o ∷ overwrite opts key value

-- Allocation is taken to succeed, so that the code's result is 0.
unfoldable pub set_opt : List OptNode → Bytes → Bytes → List OptNode
set_opt opts key value = elim (get_opt opts key) [
  | none ↦ record { key = key; value = value } ∷ opts
  | some _ ↦ overwrite opts key value
]
