-- ===== src/Stack/Refine.antt =====
-- The stack is a bounded list whose head is the top; the pool over it.
use koala_streamer.Prelude.{
  ℕ, ◌-◌, ◌≤◌, ◌≡◌, ◌≢◌, inl, inr, refl, ap, ap₂, ◌∙◌, Bool, true, false, Option, none, some, List,
  [], ◌∷◌, ◌==◌, if◌then◌else◌, length, get_elem?, set, arith, Bool-cases, get_elem?-set_self,
  get_elem?-set_ne, length-set,
}
use koala_streamer.Stack.{Stack, create, push, pop}

-- What a client does, and what a call hands back.
pub data Op {ℓ} (A : Type ℓ) : Type ℓ where
  pushes : A → Op A
  pops : Op A
  sizes : Op A

pub data Reply {ℓ} (A : Type ℓ) : Type ℓ where
  status : Bool → Reply A
  item : Option A → Reply A
  count : ℕ → Reply A

-- The item that a reply hands back, if there is one.
abbrev pub item_of {ℓ} : {A : Type ℓ} → Reply A → Option A
item_of (status b) = none
item_of (item x) = x
item_of (count n) = none

module _ {ℓ} {A : Type ℓ} where
  unfoldable pub step : Stack A → Op A → Reply A × Stack A
  step s (pushes x) = let (kept, s') = push s x in (status kept, s')
  step s pops = let (x, s') = pop s in (item x, s')
  step s sizes = (count s.size, s)

  unfoldable pub run : Stack A → List (Op A) → List (Reply A) × Stack A
  run s [] = ([], s)
  run s (op ∷ ops) = let (r, s₁) = step s op in let (rs, s₂) = run s₁ ops in (r ∷ rs, s₂)

  -- The same calls on a list of at most `c` items, its head the top.
  unfoldable pub serve : ℕ → List A → Op A → Reply A × List A
  serve c xs (pushes x) = if length xs == c then (status false, xs) else (status true, x ∷ xs)
  serve c [] pops = (item none, [])
  serve c (x ∷ xs) pops = (item (some x), xs)
  serve c xs sizes = (count (length xs), xs)

  unfoldable pub serve_all : ℕ → List A → List (Op A) → List (Reply A) × List A
  serve_all c xs [] = ([], xs)
  serve_all c xs (op ∷ ops) =
      let (r, ys) = serve c xs op in let (rs, zs) = serve_all c ys ops in (r ∷ rs, zs)

  -- The first cells are the items, the top last.
  abbrev pub Holds : List A → List A → Type ℓ
  Holds cells [] = Unit
  Holds cells (x ∷ xs) = (get_elem? cells (length xs) ≡ some x) × Holds cells xs

  pub record Represents (s : Stack A) (c : ℕ) (xs : List A) : Type ℓ where
    pub holds : Holds s.cells xs
    pub sized : s.size ≡ length xs
    pub bounded : length xs ≤ c
    pub same : s.capacity ≡ c
    pub room : length s.cells ≡ c

  set-Holds :
      (cells xs : List A) (n : ℕ) (v : A)
      → length xs ≤ n
      → Holds cells xs
      → Holds (set cells n v) xs
  set-Holds cells [] n v le h = tt
  set-Holds cells (x ∷ xs) n v le (at-x, h) =
      let differ : n ≢ length xs = λ e. ground arith in
      (get_elem?-set_ne cells v differ ∙ at-x, set-Holds cells xs n v (omega arith) h)

  pub push_refines :
      {s : Stack A} {c : ℕ} (x : A) (xs : List A)
      → Represents s c xs
      → (status (push s x).0 ≡ (serve c xs (pushes x)).0)
        × Represents (push s x).1 c (serve c xs (pushes x)).1
  unfolding push serve
  push_refines {s} {c} x xs r = elim (Bool-cases (length xs == c)) [
    | inl full ↦
        rw (r.sized, r.same, full)
          (
            refl,
            record {
              holds = r.holds;
              sized = refl;
              bounded = r.bounded;
              same = refl;
              room = r.room;
            },
          )
    | inr free ↦
        rw (r.sized, r.same, free)
          (
            refl,
            record {
              holds = (
                get_elem?-set_self s.cells (length xs) x (ground (arith, r.room, r.bounded)),
                set-Holds s.cells xs (length xs) x (omega arith) r.holds,
              );
              sized = (omega arith);
              bounded = (ground (arith, r.bounded));
              same = refl;
              room = length-set s.cells (length xs) x ∙ r.room;
            },
          )
  ]

  pub pop_refines :
      {s : Stack A} {c : ℕ} (xs : List A)
      → Represents s c xs
      → (item (pop s).0 ≡ (serve c xs pops).0) × Represents (pop s).1 c (serve c xs pops).1
  unfolding pop serve
  pop_refines {s} [] r =
      rw r.sized (
        refl,
        record { holds = tt; sized = refl; bounded = r.bounded; same = r.same; room = r.room },
      )
  pop_refines {s} (x ∷ xs) r =
      let some' : (s.size == 0) ≡ false = ground (arith, r.sized) in
      let less : s.size - 1 ≡ length xs = ground (arith, r.sized) in
      rw (some', less)
        (
          ap item r.holds.0,
          record {
            holds = r.holds.1;
            sized = refl;
            bounded = ground (arith, r.bounded);
            same = r.same;
            room = r.room;
          },
        )

  step_refines :
      {s : Stack A} {c : ℕ} (op : Op A) (xs : List A)
      → Represents s c xs
      → ((step s op).0 ≡ (serve c xs op).0) × Represents (step s op).1 c (serve c xs op).1
  unfolding step serve
  step_refines (pushes x) xs r = push_refines x xs r
  step_refines pops xs r = pop_refines xs r
  step_refines sizes [] r = (ap count r.sized, r)
  step_refines sizes (x ∷ xs) r = (ap count r.sized, r)

  pub run_refines :
      (ops : List (Op A)) {s : Stack A} {c : ℕ} (xs : List A)
      → Represents s c xs
      → ((run s ops).0 ≡ (serve_all c xs ops).0) × Represents (run s ops).1 c (serve_all c xs ops).1
  unfolding run serve_all
  run_refines [] xs r = (refl, r)
  run_refines (op ∷ ops) {s} {c} xs r =
      let first = step_refines op xs r in
      let rest = run_refines ops (serve c xs op).1 first.1 in (ap₂ (◌∷◌) first.0 rest.0, rest.1)

  -- Any history of calls on a new stack of `c` cells is answered as by a list of at most `c` items
  -- that are taken from the end where they are put, and the cells then hold that list.
  pub stack_run_refines :
      (c : ℕ) (cells : List A) (ops : List (Op A))
      → length cells ≡ c
      → ((run (create c cells) ops).0 ≡ (serve_all c [] ops).0)
        × Represents (run (create c cells) ops).1 c (serve_all c [] ops).1
  unfolding create
  stack_run_refines c cells ops room =
      run_refines ops []
        (record { holds = tt; sized = refl; bounded = omega arith; same = refl; room = room })
