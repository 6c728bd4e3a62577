-- ===== src/Fifo.antt =====
-- utils/StreamerStack.h, class StreamerFiFo: a circular buffer that keeps both of its indices.
-- An `int` index stays below the capacity, so that no sum here can wrap (`Fifo/Inv`).
pub mod Inv
pub mod Spec
pub mod Refine
use koala_streamer.Prelude.{
  ℕ, ◌+◌, ◌-◌, ◌%◌, Bool, true, false, Option, none, some, List, ◌==◌, if◌then◌else◌, get_elem?,
  set,
}

-- `data` is the array of `new T[capacity]`: its cells hold anything at first.
pub record Fifo {ℓ} (A : Type ℓ) : Type ℓ where
  pub capacity : ℕ
  pub header : ℕ
  pub tail : ℕ
  pub cells : List A
  pub size : ℕ

module _ {ℓ} {A : Type ℓ} where
  -- The constructor, over the cells that `new` hands out.
  unfoldable pub create : ℕ → List A → Fifo A
  create capacity cells = record {
    capacity = capacity;
    header = 0;
    tail = 0;
    cells = cells;
    size = 0;
  }

  unfoldable pub is_empty : Fifo A → Bool
  is_empty q = q.size == 0

  unfoldable pub is_full : Fifo A → Bool
  is_full q = q.size == q.capacity

  -- The result is whether the code returns 0 (it returns -1 on a full queue).
  unfoldable pub put : Fifo A → A → Bool × Fifo A
  unfolding is_full
  put q x = if is_full q then (false, q) else (
    true,
    record q { cells = set q.cells q.tail x; tail = (q.tail + 1) % q.capacity; size = q.size + 1 },
  )

  -- `none` is the null pointer of an empty queue.
  unfoldable pub get : Fifo A → Option A × Fifo A
  unfolding is_empty
  get q = if is_empty q then (none, q) else (
    get_elem? q.cells q.header,
    record q { header = (q.header + 1) % q.capacity; size = q.size - 1 },
  )

  unfoldable pub peak : Fifo A → Option A
  unfolding is_empty
  peak q = if is_empty q then none else get_elem? q.cells q.header

-- What a client does to a queue, for the histories below.
pub data Op {ℓ} (A : Type ℓ) : Type ℓ where
  puts : A → Op A
  gets : Op A
  peaks : Op A

-- What a call hands back: the status of `put`, or the pointer of `get` and `peak`.
pub data Reply {ℓ} (A : Type ℓ) : Type ℓ where
  status : Bool → Reply A
  item : Option A → Reply A

module _ {ℓ} {A : Type ℓ} where
  unfoldable pub step : Fifo A → Op A → Reply A × Fifo A
  step q (puts x) = let (ok, q') = put q x in (status ok, q')
  step q gets = let (x, q') = get q in (item x, q')
  step q peaks = (item (peak q), q)
