-- ===== src/Fifo/Inv.antt =====
-- The representation invariant of StreamerFiFo.
use native.Mathlib.Nat.{mod-lt, mod-add-mod}
use koala_streamer.Prelude.{
  ℕ, ◌+◌, ◌-◌, ◌%◌, ◌≤◌, ◌≡◌, ◌≢◌, refl, ap, ◌∙◌, List, arith, length, length-set,
}
use koala_streamer.Fifo.{Fifo, Op, puts, gets, peaks, create, put, get, step}

-- Both indices are below the capacity (or 0 in an empty array), and the tail is where the stored
-- items end.
pub record IsValid {ℓ} {A : Type ℓ} (q : Fifo A) : Type 0 where
  pub storage : q.capacity ≤ length q.cells
  pub size_in : q.size ≤ q.capacity
  pub header_in : q.header ≤ q.capacity - 1
  pub tail_at : q.tail ≡ (q.header + q.size) % q.capacity

pub mod-le-pred : (n m : ℕ) → m ≢ 0 → n % m ≤ m - 1
mod-le-pred n m h = omega (arith, mod-lt n {m = m} (omega arith))

tail-put : (h n c : ℕ) → ((h + n) % c + 1) % c ≡ (h + (n + 1)) % c
tail-put h n c = mod-add-mod (h + n) c 1 ∙ ap (λ k. k % c) (omega arith)

tail-get : (h n c : ℕ) → n ≢ 0 → (h + n) % c ≡ ((h + 1) % c + (n - 1)) % c
tail-get h n c p = rw mod-add-mod (ap (λ k. k % c) (omega arith))

module _ {ℓ} {A : Type ℓ} where
  pub create-IsValid :
      (capacity : ℕ) (cells : List A) → capacity ≤ length cells → IsValid (create capacity cells)
  unfolding create
  create-IsValid capacity cells h = ground arith

  pub put-IsValid : {q : Fifo A} (x : A) → IsValid q → IsValid (put q x).1
  unfolding put
  put-IsValid {q} x v =
      ground (arith, length-set q.cells q.tail x, tail-put q.header q.size q.capacity)

  pub get-IsValid : {q : Fifo A} → IsValid q → IsValid (get q).1
  unfolding get
  get-IsValid {q} v =
      ground (arith, tail-get q.header q.size q.capacity, mod-le-pred (q.header + 1) q.capacity)

  -- Every call of a client keeps the indices in range.
  pub step-IsValid : {q : Fifo A} (op : Op A) → IsValid q → IsValid (step q op).1
  unfolding step
  step-IsValid (puts x) v = put-IsValid x v
  step-IsValid gets v = get-IsValid v
  step-IsValid peaks v = v

  pub capacity-put : (q : Fifo A) (x : A) → (put q x).1.capacity ≡ q.capacity
  unfolding put
  capacity-put q x = ground arith

  pub capacity-get : (q : Fifo A) → (get q).1.capacity ≡ q.capacity
  unfolding get
  capacity-get q = ground arith

  pub capacity-step : (q : Fifo A) (op : Op A) → (step q op).1.capacity ≡ q.capacity
  unfolding step
  capacity-step q (puts x) = capacity-put q x
  capacity-step q gets = capacity-get q
  capacity-step q peaks = refl
