-- ===== src/Frame.antt =====
-- utils/mediaFrame.h and utils/mediaFrame.c: the frame that all threads pass around.
-- A pointer is an optional address, and a function pointer the address of its function.
use koala_streamer.Prelude.{
  ℕ, ◌-◌, ◌^◌, Option, none, some, List, [], ◌∷◌, ltb, ◌==◌, if◌then◌else◌,
}
use koala_streamer.Prelude.Int.{ℤ, pos, negsuc}

abbrev pub Address : Type 0
Address = ℕ

-- `struct mediaFrame_t`.
pub record Frame : Type 0 where
  pub buffer : Option Address
  pub size : ℤ
  pub stream_index : ℤ
  pub pts : ℤ
  pub dts : ℤ
  pub flag : ℤ
  pub duration : ℤ
  pub pos_in_file : ℤ
  pub release : Option Address
  pub release_arg : Option Address
  pub appending : Option Address

-- The frame that `memset` leaves.
abbrev pub blank : Frame
blank = record {
  buffer = none;
  size = pos 0;
  stream_index = pos 0;
  pts = pos 0;
  dts = pos 0;
  flag = pos 0;
  duration = pos 0;
  pos_in_file = pos 0;
  release = none;
  release_arg = none;
  appending = none;
}

-- A `uint32_t` stored in an `int`.
pub to_int : ℕ → ℤ
to_int n = if ltb n (2 ^ 31) then pos n else negsuc (2 ^ 32 - n - 1)

-- `malloced` is the address that `malloc(size)` returns.
pub create : Address → ℕ → Frame
create malloced size =
    if size == 0 then blank else record blank { buffer = some malloced; size = to_int size }

pub create_from_buffer : Option Address → ℕ → Frame
create_from_buffer buffer size = record blank { buffer = buffer; size = to_int size }

unfoldable pub set_release : Frame → Option Address → Option Address → Frame
set_release f func arg = record f { release = func; release_arg = arg }

-- What releasing a frame does to memory.
pub data Action : Type 0 where
  free_buffer : Address → Action
  free_frame : Action
  call : Address → Option Address → Action

unfoldable pub default_release : Frame → List Action
default_release f = elim f.buffer [
  | none ↦ free_frame ∷ []
  | some p ↦ free_buffer p ∷ free_frame ∷ []
]

unfoldable pub release : Frame → List Action
release f = elim f.release [ none ↦ default_release f | some func ↦ call func f.release_arg ∷ [] ]
