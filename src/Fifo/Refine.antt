-- ===== src/Fifo/Refine.antt =====
-- StreamerFiFo behaves as the bounded queue of `Fifo/Spec`.
use native.Mathlib.Nat.{mod-lt, mod-eq_of_lt, mod-add-mod, mod-eq-sub-mod, add-zero}
use native.Mathlib.Decide.{dec_lt}
use koala_streamer.Prelude.{
  ℕ, suc, ◌+◌, ◌-◌, ◌%◌, ◌≤◌, ◌<◌, ◌≡◌, refl, sym, ap, ap₂, ◌∙◌, ◌≢◌, some, List, [], ◌∷◌, ◌++◌,
  arith, length, length-append, get_elem?, set, get_elem?-set_self, get_elem?-set_ne,
}
use koala_streamer.Fifo.{Fifo, Op, puts, gets, peaks, Reply, create, put, get, peak, step}
use koala_streamer.Fifo.Inv.{IsValid, create-IsValid, step-IsValid, capacity-step}
use koala_streamer.Fifo.Spec.{
  offer, poll, front, serve, serve_all, accepted, delivered, serve_all_account,
}

module _ {ℓ} {A : Type ℓ} where
  -- The items `xs` stand in the array from index `h` on, going round at `c`.
  abbrev pub Window : List A → ℕ → ℕ → List A → Type ℓ
  Window cells c h [] = Unit
  Window cells c h (x ∷ xs) = (get_elem? cells h ≡ some x) × Window cells c ((h + 1) % c) xs

-- The queue holds exactly the items `xs`, oldest first.
pub record Holds {ℓ} {A : Type ℓ} (q : Fifo A) (xs : List A) : Type ℓ where
  pub window : Window q.cells q.capacity q.header xs
  pub sized : q.size ≡ length xs

-- Fewer than `c` steps round the array do not come back to the start.
round-ne : (c h k : ℕ) → h < c → suc k < c → (h + suc k) % c ≢ h
round-ne c h k hh hk = elim (dec_lt (h + suc k) c) [
  | yes p ↦ omega (arith, mod-eq_of_lt p)
  | no p ↦ omega (
    arith,
    mod-eq-sub-mod {n = h + suc k} {m = c} (omega arith),
    mod-eq_of_lt {n = h + suc k - c} {m = c} (omega arith),
  )
]

round_on : (c h k : ℕ) → (h + suc k) % c ≡ ((h + 1) % c + k) % c
round_on c h k = rw mod-add-mod (ap (λ n. n % c) (omega arith))

module _ {ℓ} {A : Type ℓ} where
  -- Writing at the tail adds an item at the end of the window.
  Window-set :
      (cells : List A) (c x_at h : ℕ) (x : A) (xs : List A)
      → c ≤ length cells
      → h < c
      → length xs < c
      → x_at ≡ (h + length xs) % c
      → Window cells c h xs
      → Window (set cells x_at x) c h (xs ++ x ∷ [])
  Window-set cells c x_at h x [] hs hh hn e w =
      (rw (e, add-zero, mod-eq_of_lt hh) (get_elem?-set_self cells h x (omega arith)), tt)
  Window-set cells c x_at h x (y ∷ ys) hs hh hn e w = (
    get_elem?-set_ne cells x (λ p. round-ne c h (length ys) hh hn (sym e ∙ p)) ∙ w.0,
    Window-set cells c x_at ((h + 1) % c) x ys hs (mod-lt (h + 1) (omega arith)) (omega arith)
        (e ∙ round_on c h (length ys)) w.1,
  )

  pub put_refines :
      {q : Fifo A} (x : A) (xs : List A)
      → IsValid q
      → Holds q xs
      → ((put q x).0 ≡ (offer q.capacity xs x).0) × Holds (put q x).1 (offer q.capacity xs x).1
  unfolding put offer
  put_refines {q} x xs v h =
      ground (arith, Window-set q.cells q.capacity q.tail q.header x xs, length-append xs (x ∷ []))

  pub get_refines :
      {q : Fifo A} (xs : List A)
      → IsValid q
      → Holds q xs
      → ((get q).0 ≡ (poll xs).0) × Holds (get q).1 (poll xs).1
  unfolding get poll
  get_refines [] v h = ground arith
  get_refines (x ∷ xs) v h = ground arith

  pub peak_refines : {q : Fifo A} (xs : List A) → IsValid q → Holds q xs → peak q ≡ front xs
  unfolding peak
  peak_refines [] v h = ground arith
  peak_refines (x ∷ xs) v h = ground arith

  -- One call answers as the bounded queue does, and leaves the queue holding what it holds.
  pub step_refines :
      {q : Fifo A} (op : Op A) (xs : List A)
      → IsValid q
      → Holds q xs
      → ((step q op).0 ≡ (serve q.capacity xs op).0)
        × Holds (step q op).1 (serve q.capacity xs op).1
  unfolding step serve
  step_refines {q} (puts x) xs v h = ground (arith, put_refines x xs v h)
  step_refines {q} gets xs v h = ground (arith, get_refines xs v h)
  step_refines {q} peaks xs v h = ground (arith, peak_refines xs v h)

  unfoldable pub run : Fifo A → List (Op A) → List (Reply A) × Fifo A
  run q [] = ([], q)
  run q (op ∷ ops) = let (r, q') = step q op in let (rs, q'') = run q' ops in (r ∷ rs, q'')

  pub run_refines :
      (ops : List (Op A)) (xs : List A) {q : Fifo A}
      → IsValid q
      → Holds q xs
      → ((run q ops).0 ≡ (serve_all q.capacity xs ops).0)
        × Holds (run q ops).1 (serve_all q.capacity xs ops).1
        × IsValid (run q ops).1
  unfolding run serve_all
  run_refines [] xs v h = (refl, h, v)
  run_refines (op ∷ ops) xs {q} v h =
      let now = step_refines op xs v h in
      let later =
        rw (capacity-step q op) at
          (run_refines ops (serve q.capacity xs op).1 (step-IsValid op v) now.1) in
      (ap₂ ◌∷◌ now.0 later.0, later.1, later.2)

  -- A client that makes any calls at all on a new queue, whatever its array held, sees the answers
  -- of the bounded queue, and the queue then holds exactly the items which that queue holds.
  pub run-create_refines :
      (capacity : ℕ) (cells : List A) (ops : List (Op A))
      → capacity ≤ length cells
      → ((run (create capacity cells) ops).0 ≡ (serve_all capacity [] ops).0)
        × Holds (run (create capacity cells) ops).1 (serve_all capacity [] ops).1
        × IsValid (run (create capacity cells) ops).1
  unfolding create
  run-create_refines capacity cells ops h =
      run_refines ops [] (create-IsValid capacity cells h) (record { window = tt; sized = refl })

  -- So nothing is lost, repeated or reordered: the items that `get` returned, followed by those
  -- still stored, are the items that `put` accepted.
  pub run-create_account :
      (capacity : ℕ) (cells : List A) (ops : List (Op A))
      → capacity ≤ length cells
      → (xs : List A) × Holds (run (create capacity cells) ops).1 xs
        × (accepted ops (run (create capacity cells) ops).0
            ≡ delivered ops (run (create capacity cells) ops).0 ++ xs)
  run-create_account capacity cells ops h =
      let refined = run-create_refines capacity cells ops h in
      ((serve_all capacity [] ops).1, refined.1, rw refined.0 (serve_all_account capacity [] ops))
