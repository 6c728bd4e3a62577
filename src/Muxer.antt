-- ===== src/Muxer.antt =====
-- KoalaPlayer/src/koala_muxer.c: the state of a muxer and its short operations. The frames of a run
-- are in `Muxer/Write` and `Muxer/Thread`.
pub mod Write
pub mod Events
pub mod Step
pub mod Open
pub mod Thread
use koala_streamer.Prelude.{
  ℕ, zero, suc, ◌+◌, ◌≡◌, Bool, true, false, Option, none, some, List, [], ◌∷◌, ◌==◌, if◌then◌else◌,
}
use koala_streamer.Prelude.Int.{ℤ, pos, negsuc}
use koala_streamer.CString.{Bytes, bytes, same_nocase, atoi}
use koala_streamer.Frame.{Frame, Address}

-- AVRational.
pub record Rational : Type 0 where
  pub num : ℤ
  pub den : ℤ

-- `struct koala_muxer_t`. A function pointer is the address of its function, `opened` says whether
-- `oc` points to an output context, and `mux_id` is 0 while there is no thread. The members that
-- nothing reads (the codecs, the cached frames, the filter) are left out, and so are the mutexes:
-- each operation is a critical section.
pub record Muxer : Type 0 where
  pub opened : Bool
  pub acb : Option Address
  pub acb_arg : Option Address
  pub vcb : Option Address
  pub vcb_arg : Option Address
  pub mux_id : ℕ
  pub ended : Bool
  pub video_stream : ℕ
  pub audio_stream : ℕ
  pub last_audio_pts : ℤ
  pub last_video_pts : ℤ
  pub first_pts : ℤ
  pub req_i_frame : Bool
  pub con_a_base : Rational
  pub con_v_base : Rational
  pub io_timeout_ms : ℤ
  pub listener : Option Address
  pub listener_arg : Option Address
  pub hostip : Option Address

abbrev pub no_base : Rational
no_base = record { num = pos 0; den = pos 0 }

abbrev pub koala_get_muxer_handle : Muxer
koala_get_muxer_handle = record {
  opened = false;
  acb = none;
  acb_arg = none;
  vcb = none;
  vcb_arg = none;
  mux_id = 0;
  ended = false;
  video_stream = 0;
  audio_stream = 0;
  last_audio_pts = pos 0;
  last_video_pts = pos 0;
  first_pts = negsuc 0;
  req_i_frame = false;
  con_a_base = no_base;
  con_v_base = no_base;
  io_timeout_ms = pos 0;
  listener = none;
  listener_arg = none;
  hostip = none;
}

unfoldable pub reg_data_callback :
    Muxer → Option Address → Option Address → Option Address → Option Address → Muxer
reg_data_callback m acb acb_arg vcb vcb_arg = record m {
  acb = acb;
  acb_arg = acb_arg;
  vcb = vcb;
  vcb_arg = vcb_arg;
}

abbrev pub is_some {ℓ} : {A : Type ℓ} → Option A → Bool
is_some none = false
is_some (some _) = true

unfoldable pub have_video : Muxer → Bool
have_video m = is_some m.vcb

unfoldable pub have_audio : Muxer → Bool
have_audio m = is_some m.acb

-- The calls of the listener that an operation makes: the function, its argument, the event.
pub record Call : Type 0 where
  pub func : Address
  pub arg : Option Address
  pub event : ℤ

unfoldable pub send_event : Muxer → ℤ → List Call
send_event m event = elim m.listener [
  | none ↦ []
  | some f ↦ record { func = f; arg = m.listener_arg; event = event } ∷ []
]

-- The result is whether the blocking call in progress is broken off.
unfoldable pub encode_interrupt_cb : Option Muxer → Bool
encode_interrupt_cb none = false
encode_interrupt_cb (some m) = m.ended

-- `created` is the thread that pthread_create makes; the result is also whether it was called.
unfoldable pub koala_muxer_start : Muxer → ℕ → Bool × Muxer
koala_muxer_start m created =
    if m.mux_id == 0 then (true, record m { mux_id = created }) else (false, m)

-- The result is also whether a thread was joined.
unfoldable pub koala_muxer_end : Muxer → Bool × Muxer
koala_muxer_end m = (
  (if m.mux_id == 0 then false else true),
  record m { ended = true; first_pts = negsuc 0; mux_id = 0 },
)

unfoldable pub koala_muxer_setopt : Option Muxer → Bytes → Bytes → ℤ × Option Muxer
koala_muxer_setopt none key value = (negsuc 0, none)
koala_muxer_setopt (some m) key value =
    if same_nocase (bytes "io_timeout_ms") key
    then (pos 0, some (record m { io_timeout_ms = atoi value }))
    else (negsuc 1, some m)

unfoldable pub koala_muxer_set_listener :
    Option Muxer → Option Address → Option Address → ℤ × Option Muxer
koala_muxer_set_listener none listener arg = (negsuc 0, none)
koala_muxer_set_listener (some m) listener arg =
    (pos 0, some (record m { listener = listener; listener_arg = arg }))

unfoldable pub koala_muxer_get_hostip : Muxer → Option Address
koala_muxer_get_hostip m = m.hostip
