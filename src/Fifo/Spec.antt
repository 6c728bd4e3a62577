-- ===== src/Fifo/Spec.antt =====
-- What StreamerFiFo promises: a first-in-first-out list of at most `capacity` items.
use koala_streamer.Prelude.{
  ℕ, ◌≡◌, ap, arith, Bool, true, false, Option, none, some, List, [], ◌∷◌, ◌++◌, append-nil,
  append_assoc, ◌==◌, if◌then◌else◌, length,
}
use koala_streamer.Fifo.{Op, puts, gets, peaks, Reply, status, item}

module _ {ℓ} {A : Type ℓ} where
  unfoldable pub offer : ℕ → List A → A → Bool × List A
  offer capacity xs x = if length xs == capacity then (false, xs) else (true, xs ++ x ∷ [])

  unfoldable pub poll : List A → Option A × List A
  poll [] = (none, [])
  poll (x ∷ xs) = (some x, xs)

  abbrev pub front : List A → Option A
  front [] = none
  front (x ∷ xs) = some x

  unfoldable pub serve : ℕ → List A → Op A → Reply A × List A
  serve capacity xs (puts x) = let (ok, ys) = offer capacity xs x in (status ok, ys)
  serve capacity xs gets = let (x, ys) = poll xs in (item x, ys)
  serve capacity xs peaks = (item (front xs), xs)

  unfoldable pub serve_all : ℕ → List A → List (Op A) → List (Reply A) × List A
  serve_all capacity xs [] = ([], xs)
  serve_all capacity xs (op ∷ ops) =
      let (r, ys) = serve capacity xs op in let (rs, zs) = serve_all capacity ys ops in (r ∷ rs, zs)

  -- The items that a history puts with status 0, in order.
  abbrev pub accepted : List (Op A) → List (Reply A) → List A
  accepted (puts x ∷ ops) (status true ∷ rs) = x ∷ accepted ops rs
  accepted (_ ∷ ops) (_ ∷ rs) = accepted ops rs
  accepted _ _ = []

  -- The items that a history gets, in order.
  abbrev pub delivered : List (Op A) → List (Reply A) → List A
  delivered (gets ∷ ops) (item (some x) ∷ rs) = x ∷ delivered ops rs
  delivered (_ ∷ ops) (_ ∷ rs) = delivered ops rs
  delivered _ _ = []

  -- What was stored before and what is accepted, in order, is what is delivered and what remains.
  pub serve_all_account :
      (capacity : ℕ) (xs : List A) (ops : List (Op A))
      → let (rs, ys) = serve_all capacity xs ops in xs ++ accepted ops rs ≡ delivered ops rs ++ ys
  unfolding serve_all serve offer poll
  serve_all_account capacity xs [] = append-nil xs
  serve_all_account capacity xs (puts x ∷ ops) = ground (
    arith,
    serve_all_account capacity xs ops,
    serve_all_account capacity (xs ++ x ∷ []) ops,
    append_assoc xs (x ∷ []) (accepted ops (serve_all capacity (xs ++ x ∷ []) ops).0),
  )
  serve_all_account capacity [] (gets ∷ ops) = serve_all_account capacity [] ops
  serve_all_account capacity (x ∷ xs) (gets ∷ ops) = ap (◌∷◌ x) (serve_all_account capacity xs ops)
  serve_all_account capacity xs (peaks ∷ ops) = serve_all_account capacity xs ops
