-- ===== src/Stack.antt =====
-- utils/StreamerStack.h, class StreamerStack: an array used as a stack under a mutex; and the pool of
-- frames that utils/mediaThread.cpp keeps in one.
pub mod Refine
use koala_streamer.Prelude.{
  ℕ, ◌+◌, ◌-◌, Bool, true, false, Option, none, some, List, ◌==◌, if◌then◌else◌, get_elem?, set,
}

pub record Stack {ℓ} (A : Type ℓ) : Type ℓ where
  pub cells : List A
  pub capacity : ℕ
  pub size : ℕ

module _ {ℓ} {A : Type ℓ} where
  -- The constructor, over the cells that `new` hands out.
  unfoldable pub create : ℕ → List A → Stack A
  create capacity cells = record { cells = cells; capacity = capacity; size = 0 }

  -- The result is whether the code returns 0 (it returns -1 on a full stack).
  unfoldable pub push : Stack A → A → Bool × Stack A
  push s x =
      if s.size == s.capacity
      then (false, s)
      else (true, record s { cells = set s.cells s.size x; size = s.size + 1 })

  -- `none` is the null pointer of an empty stack.
  unfoldable pub pop : Stack A → Option A × Stack A
  pop s =
      if s.size == 0
      then (none, s)
      else (get_elem? s.cells (s.size - 1), record s { size = s.size - 1 })

  -- getMediaFrame: `fresh` is the frame that mediaFrameCreate would make. The result is also
  -- whether it was made.
  unfoldable pub get_media_frame : Option (Stack A) → A → A × Bool × Option (Stack A)
  unfolding pop
  get_media_frame none fresh = (fresh, true, none)
  get_media_frame (some s) fresh =
      let (x, s') = pop s in
      elim x [ none ↦ (fresh, true, some s') | some x' ↦ (x', false, some s') ]

  -- putMediaFrame: the result is also whether the frame was freed.
  unfoldable pub put_media_frame : Option (Stack A) → A → Bool × Option (Stack A)
  unfolding push
  put_media_frame none x = (true, none)
  put_media_frame (some s) x =
      let (kept, s') = push s x in (if kept then (false, some s') else (true, some s'))
