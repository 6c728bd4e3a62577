-- ===== src/MediaMuxer.antt =====
-- MediaMuxer/MediaMuxer.c: the handle of a media muxer over the delegate of MediaMuxer/MediaMuxer.h.
-- Where the code follows a null pointer, there is no result.
pub mod Settings
pub mod Koala
use koala_streamer.Prelude.{
  ℕ, ◌≡◌, Bool, true, false, ◌&&◌, Option, none, some, List, [], ◌∷◌, ◌++◌, if◌then◌else◌,
}
use koala_streamer.Prelude.Int.{ℤ, pos, negsuc, is_neg}
use koala_streamer.CString.{Bytes, bytes, same_nocase, atoi}
use koala_streamer.Frame.{Address}
use koala_streamer.Options.{OptNode, set_opt}
use koala_streamer.Options.Release.{Heap, Outcome, release_opts}
use koala_streamer.Muxer.{is_some}

-- Stream_type.
pub data StreamType : Type 0 where
  unknown video audio sub num : StreamType

-- `muxer_delegate`: its functions over the state `H` of a delegate's context. `E` is what a call
-- does beside that.
pub record Delegate (H E : Type 0) : Type 0 where
  pub probe : ℤ
  pub open_context : Option Bytes → Option Bytes → ℕ → Option H
  pub set_callback : H → StreamType → Option Address → Option Address → H
  pub prepare : H → ℤ × H × List E
  pub get_hostip : H → Option Address
  pub start : H → ℤ × H × List E
  pub end : H → H × List E
  pub close : H → List E
  pub setopt : H → Bytes → Bytes → ℤ × H
  pub set_listener : H → Option Address → Option Address → ℤ × H

-- What this program relies on: a new context has no time limit for the output, and its option sets it.
pub record IsTimed {H E : Type 0} (d : Delegate H E) : Type 0 where
  pub timeout : H → ℤ
  pub timeout-open_context :
      (name format : Option Bytes) (elements : ℕ) (h : H)
      → d.open_context name format elements ≡ some h
      → timeout h ≡ pos 0
  pub timeout-setopt :
      (h : H) (key value : Bytes)
      → timeout ((d.setopt h key value).1)
        ≡ (if same_nocase (bytes "io_timeout_ms") key then atoi value else timeout h)

-- `muxer`; `delegated` is whether `mMuxer` is set.
pub record Handle (H : Type 0) : Type 0 where
  pub delegated : Bool
  pub delcnt : Option H
  pub opts : List OptNode

abbrev pub create_muxer_handle : {H : Type 0} → Handle H
create_muxer_handle = record { delegated = false; delcnt = none; opts = [] }

-- The handle, key or value may be a null pointer.
unfoldable pub muxer_setopt :
    {H : Type 0} → Option (Handle H) → Option Bytes → Option Bytes → ℤ × Option (Handle H)
muxer_setopt none key value = (negsuc 0, none)
muxer_setopt (some p) none value = (negsuc 1, some p)
muxer_setopt (some p) (some key) none = (negsuc 1, some p)
muxer_setopt (some p) (some key) (some value) =
    (pos 0, some (record p { opts = set_opt p.opts key value }))

module _ {H E : Type 0} (d : Delegate H E) where
  unfoldable pub hand_over : H → List OptNode → H
  hand_over h [] = h
  hand_over h (o ∷ opts) = hand_over ((d.setopt h o.key o.value).1) opts

  unfoldable pub muxer_open : Handle H → Option Bytes → Option Bytes → ℕ → ℤ × Handle H
  unfolding hand_over
  muxer_open p name format elements =
      if is_neg d.probe then (d.probe, p) else elim (d.open_context name format elements) [
        | none ↦ (negsuc 0, record p { delegated = true; delcnt = none })
        | some h ↦ (pos 0, record p { delegated = true; delcnt = some (hand_over h p.opts) })
      ]

  -- The context of a handle whose delegate is set.
  unfoldable pub context : Handle H → Option H
  context p = if p.delegated then p.delcnt else none

  unfoldable pub muxer_prepare : Handle H → Option (ℤ × Handle H × List E)
  unfolding context
  muxer_prepare p = elim (context p) [
    | none ↦ none
    | some h ↦ let (ret, h', es) = d.prepare h in some (ret, record p { delcnt = some h' }, es)
  ]

  unfoldable pub muxer_set_listener :
      Option (Handle H) → Option Address → Option Address → Option (ℤ × Option (Handle H))
  unfolding context
  muxer_set_listener none listener arg = some (negsuc 0, none)
  muxer_set_listener (some p) listener arg = elim (context p) [
    | none ↦ none
    | some h ↦
        let (ret, h') = d.set_listener h listener arg in
        some (ret, some (record p { delcnt = some h' }))
  ]

  unfoldable pub muxer_set_callback :
      Handle H → StreamType → Option Address → Option Address → Handle H
  unfolding context
  muxer_set_callback p type func arg = elim (context p) [
    | none ↦ p
    | some h ↦ record p { delcnt = some (d.set_callback h type func arg) }
  ]

  unfoldable pub muxer_get_hostip : Handle H → Option Address
  unfolding context
  muxer_get_hostip p = elim (context p) [ none ↦ none | some h ↦ d.get_hostip h ]

  unfoldable pub muxer_start : Handle H → ℤ × Handle H × List E
  unfolding context
  muxer_start p = elim (context p) [
    | none ↦ (pos 0, p, [])
    | some h ↦ let (ret, h', es) = d.start h in (ret, record p { delcnt = some h' }, es)
  ]

  unfoldable pub muxer_end : Handle H → Handle H × List E
  unfolding context
  muxer_end p = elim (context p) [
    | none ↦ (p, [])
    | some h ↦ let (h', es) = d.end h in (record p { delcnt = some h' }, es)
  ]

  unfoldable pub muxer_close : Handle H → Handle H × List E
  unfolding context
  muxer_close p = elim (context p) [
    | none ↦ (p, [])
    | some h ↦ (record p { delcnt = none }, d.close h)
  ]

  -- muxer_release_handle: closing, and then releaseOpts from the first node `opt` in the memory `h`.
  unfoldable pub muxer_release_handle : Handle H → ℕ → Option ℕ → Heap → List E × Outcome
  unfolding muxer_close
  muxer_release_handle p fuel opt h =
      let closed : List E = elim p.delcnt [ none ↦ [] | some _ ↦ (muxer_close p).1 ] in
      (closed, release_opts fuel opt h)
