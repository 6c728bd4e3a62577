-- ===== src/Options/Laws.antt =====
-- The option list is a map whose keys are read without case.
use koala_streamer.Prelude.{
  true, Option, none, some, List, [], ◌∷◌, if◌then◌else◌, ◌≡◌, refl, inl, inr, arith, Option-cases,
}
use koala_streamer.CString.{Bytes, same_nocase, same_nocase_sym, same_nocase_trans}
use koala_streamer.Options.{OptNode, get_opt, overwrite, set_opt}

abbrev pub value_of : Option OptNode → Option Bytes
value_of none = none
value_of (some o) = some o.value

-- The value that a key has.
unfoldable pub lookup : List OptNode → Bytes → Option Bytes
lookup opts key = value_of (get_opt opts key)

-- No two nodes have the same key.
abbrev pub Distinct : List OptNode → Type 0
Distinct [] = Unit
Distinct (o ∷ opts) = (get_opt opts o.key ≡ none) × Distinct opts

-- Keys that are equal without case find the same node.
pub get_opt-same :
    (opts : List OptNode) (a b : Bytes) → same_nocase a b ≡ true → get_opt opts a ≡ get_opt opts b
unfolding get_opt
get_opt-same [] a b h = refl
get_opt-same (o ∷ opts) a b h = ground (
  arith,
  get_opt-same opts a b h,
  same_nocase_sym a b h,
  same_nocase_trans a b o.key,
  same_nocase_trans b a o.key,
)

lookup-overwrite :
    (opts : List OptNode) (k j v : Bytes) (o : OptNode)
    → get_opt opts k ≡ some o
    → lookup (overwrite opts k v) j ≡ (if same_nocase j k then some v else lookup opts j)
unfolding lookup get_opt overwrite
lookup-overwrite [] k j v o h = cc
lookup-overwrite (p ∷ opts) k j v o h = ground (
  arith,
  lookup-overwrite opts k j v o,
  same_nocase_trans j k p.key,
  same_nocase_trans k j p.key,
  same_nocase_trans j p.key k,
  same_nocase_sym j k,
  same_nocase_sym k p.key,
)

-- After setting a key, that key in any spelling of its case has the value, and every other key has
-- the value that it had.
pub lookup-set_opt :
    (opts : List OptNode) (k j v : Bytes)
    → lookup (set_opt opts k v) j ≡ (if same_nocase j k then some v else lookup opts j)
unfolding set_opt lookup get_opt
lookup-set_opt opts k j v = elim (Option-cases (get_opt opts k)) [
  | inl e ↦ rw (e, set_opt) (ground (arith, get_opt-same opts j k))
  | inr (o, e) ↦ rw (e, set_opt) (lookup-overwrite opts k j v o e)
]

get_opt-overwrite-none :
    (opts : List OptNode) (k j v : Bytes)
    → get_opt opts j ≡ none
    → get_opt (overwrite opts k v) j ≡ none
unfolding get_opt overwrite
get_opt-overwrite-none [] k j v h = refl
get_opt-overwrite-none (o ∷ opts) k j v h = ground (arith, get_opt-overwrite-none opts k j v)

overwrite-Distinct :
    (opts : List OptNode) (k v : Bytes) → Distinct opts → Distinct (overwrite opts k v)
unfolding overwrite
overwrite-Distinct [] k v d = tt
overwrite-Distinct (o ∷ opts) k v d =
    ground (arith, overwrite-Distinct opts k v d.1, get_opt-overwrite-none opts k o.key v d.0)

-- Setting a key never gives it a second node.
pub set_opt-Distinct :
    (opts : List OptNode) (k v : Bytes) → Distinct opts → Distinct (set_opt opts k v)
unfolding set_opt
set_opt-Distinct opts k v d = elim (Option-cases (get_opt opts k)) [
  | inl e ↦ rw (e, set_opt) (e, d)
  | inr (o, e) ↦ rw (e, set_opt) (overwrite-Distinct opts k v d)
]
