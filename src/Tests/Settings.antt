-- ===== src/Tests/Settings.antt =====
-- The options of MediaMuxer/MediaMuxer.c at concrete inputs.
use koala_streamer.Prelude.{◌≡◌, refl, ◌≢◌, ◌⊎◌, some, none, List, [], ◌∷◌, ◌==◌, if◌then◌else◌}
use koala_streamer.CString.{bytes, same_nocase, to_lower}
use koala_streamer.Options.{OptNode, set_opt, get_opt}
use koala_streamer.Options.Laws.{lookup, Distinct, lookup-set_opt}
use koala_streamer.Options.Release.{Heap, returned, invalid_read, release_opts, release_opts_lem}

abbrev options : List OptNode
options =
    record { key = bytes "a"; value = bytes "1" }
    ∷ record { key = bytes "b"; value = bytes "2" }
    ∷ []

lookup-set_opt_example :
    lookup (set_opt options (bytes "B") (bytes "3")) (bytes "b") ≡ some (bytes "3")
unfolding same_nocase to_lower
lookup-set_opt_example = lookup-set_opt options (bytes "B") (bytes "b") (bytes "3")

options-Distinct : Distinct options
unfolding get_opt same_nocase to_lower
options-Distinct = (refl, (refl, tt))

abbrev node : OptNode
node = record { key = bytes "a"; value = bytes "1" }

abbrev heap : Heap
heap = λ p. if p == 8 then some (record { node = node; next = none }) else none

release_opts_lem_example :
    ((node ∷ [] ≡ []) × (release_opts 2 (some 8) heap ≡ returned heap))
    ⊎ ((node ∷ [] ≢ []) × (release_opts 2 (some 8) heap ≡ invalid_read))
release_opts_lem_example = release_opts_lem 1 (some 8) heap (node ∷ []) (8, none, refl, refl, refl)
