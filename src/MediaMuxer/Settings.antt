-- ===== src/MediaMuxer/Settings.antt =====
-- The options of a media muxer reach the delegate's context when it is opened.
use koala_streamer.Prelude.{
  ℕ, ◌≡◌, refl, ap, ◌∙◌, inl, inr, false, Option, none, some, List, [], ◌∷◌, if◌then◌else◌,
  Bool-cases,
}
use koala_streamer.Prelude.Int.{ℤ, pos, is_neg}
use koala_streamer.CString.{Bytes, bytes, same_nocase, atoi}
use koala_streamer.Options.{OptNode, get_opt, set_opt}
use koala_streamer.Options.Laws.{lookup, get_opt-same, Distinct, lookup-set_opt, set_opt-Distinct}
use koala_streamer.MediaMuxer.{
  Delegate, IsTimed, Handle, create_muxer_handle, muxer_setopt, hand_over, muxer_open,
}

abbrev pub timeout_key : Bytes
timeout_key = bytes "io_timeout_ms"

-- The limit that an option's value means, from what holds without the option.
abbrev pub limit : ℤ → Option Bytes → ℤ
limit t none = t
limit t (some v) = atoi v

-- The options set one after another on a handle.
unfoldable pub set_all : {H : Type 0} → Option (Handle H) → List (Bytes × Bytes) → Option (Handle H)
set_all p [] = p
set_all p ((k, v) ∷ settings) = set_all (muxer_setopt p (some k) (some v)).1 settings

-- The value of the last setting of a key, or else the value given.
unfoldable pub last_value : Option Bytes → Bytes → List (Bytes × Bytes) → Option Bytes
last_value o key [] = o
last_value o key ((k, v) ∷ settings) =
    last_value (if same_nocase key k then some v else o) key settings

module _ {H E : Type 0} (d : Delegate H E) (timed : IsTimed d) where
  timeout-hand_over :
      (h : H) (opts : List OptNode)
      → Distinct opts
      → timed.timeout (hand_over d h opts) ≡ limit (timed.timeout h) (lookup opts timeout_key)
  unfolding hand_over lookup get_opt
  timeout-hand_over h [] distinct = refl
  timeout-hand_over h (o ∷ opts) (fresh, distinct) =
      let rest = timeout-hand_over (d.setopt h o.key o.value).1 opts distinct in
      let set' = timed.timeout-setopt h o.key o.value in
      elim (Bool-cases (same_nocase timeout_key o.key)) [
        | inl same ↦
            rest
            ∙ (rw (get_opt-same opts timeout_key o.key same, fresh, same) (set' ∙ rw same refl))
        | inr other ↦ rest ∙ (rw (set', other) refl)
      ]

  -- Opening hands every option over: the context of a handle that opens has the limit that the
  -- options say.
  muxer_open_timeout :
      (p : Handle H) (name format : Option Bytes) (elements : ℕ) (h : H)
      → is_neg d.probe ≡ false
      → d.open_context name format elements ≡ some h
      → Distinct p.opts
      → (muxer_open d p name format elements).0 ≡ pos 0
        × ((h' : H) × ((muxer_open d p name format elements).1.delcnt ≡ some h')
            × (timed.timeout h' ≡ limit (pos 0) (lookup p.opts timeout_key)))
  unfolding muxer_open
  muxer_open_timeout p name format elements h probed opened distinct =
      rw (probed, opened)
        (
          refl,
          (
            hand_over d h p.opts,
            refl,
            timeout-hand_over h p.opts distinct
                ∙ ap (λ t. limit t (lookup p.opts timeout_key))
                    (timed.timeout-open_context name format elements h opened),
          ),
        )

-- A handle's options after any settings: the keys are distinct, and each has the last value set.
lookup-set_all :
    {H : Type 0} (p : Handle H) (key : Bytes) (settings : List (Bytes × Bytes))
    → Distinct p.opts
    → (p' : Handle H) × (set_all (some p) settings ≡ some p')
      × Distinct p'.opts
      × (lookup p'.opts key ≡ last_value (lookup p.opts key) key settings)
unfolding set_all last_value muxer_setopt
lookup-set_all p key [] distinct = (p, refl, distinct, refl)
lookup-set_all p key ((k, v) ∷ settings) distinct =
    let (p', e, distinct', found) =
      lookup-set_all (record p { opts = set_opt p.opts k v }) key settings
        (set_opt-Distinct p.opts k v distinct) in
    (p', e, distinct', found ∙ ap (λ o. last_value o key settings) (lookup-set_opt p.opts k key v))

module _ {H E : Type 0} (d : Delegate H E) (timed : IsTimed d) where
  -- Over any delegate that keeps the limit as `IsTimed` says: if the delegate is there and gives a
  -- context, then after any settings of a new handle muxer_open succeeds, and the context has the
  -- limit last set for `io_timeout_ms` in any spelling of its case, or else 0.
  pub muxer_open-set_all :
      (settings : List (Bytes × Bytes)) (name format : Option Bytes) (elements : ℕ) (h : H)
      → is_neg d.probe ≡ false
      → d.open_context name format elements ≡ some h
      → (p : Handle H) × (set_all (some create_muxer_handle) settings ≡ some p)
        × ((muxer_open d p name format elements).0 ≡ pos 0)
        × ((h' : H) × ((muxer_open d p name format elements).1.delcnt ≡ some h')
            × (timed.timeout h' ≡ limit (pos 0) (last_value none timeout_key settings)))
  unfolding lookup get_opt
  muxer_open-set_all settings name format elements h probed opened =
      let (p, e, distinct, found) = lookup-set_all create_muxer_handle timeout_key settings tt in
      let (ok, opened') =
        muxer_open_timeout d timed p name format elements h probed opened distinct in
      (p, e, ok, (opened'.0, opened'.1, opened'.2 ∙ ap (limit (pos 0)) found))
