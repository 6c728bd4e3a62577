-- ===== src/Options/Release.antt =====
-- MediaMuxer/MediaMuxer.c, releaseOpts, on the memory in which the list is linked.
use koala_streamer.Prelude.{
  ℕ, zero, suc, ◌≡◌, refl, ◌≢◌, inl, inr, ◌⊎◌, Option, none, some, List, [], ◌∷◌, arith, ◌==◌,
  if◌then◌else◌,
}
use koala_streamer.Options.{OptNode}

-- A node with its link.
pub record Cell : Type 0 where
  pub node : OptNode
  pub next : Option ℕ

-- The cells that are allocated.
abbrev pub Heap : Type 0
Heap = ℕ → Option Cell

abbrev pub free : Heap → ℕ → Heap
free h p = λ q. if p == q then none else h q

-- How a run ends: with the heap, by reading memory that is not allocated, or by running out of
-- fuel.
pub data Outcome : Type 0 where
  returned : Heap → Outcome
  invalid_read : Outcome
  out_of_fuel : Outcome

-- `opt = tmp->next` is read after `free(opt)`, and `tmp` is `opt`.
pub release_opts : ℕ → Option ℕ → Heap → Outcome
release_opts zero opt h = out_of_fuel
release_opts (suc fuel) none h = returned h
release_opts (suc fuel) (some p) h = elim (h p) [
  | none ↦ invalid_read
  | some _ ↦
      let tmp = p in
      let h' = free h p in
      elim (h' tmp) [ none ↦ invalid_read | some c ↦ release_opts fuel c.next h' ]
]

-- The cells from `opt` on are linked as the list `opts`.
abbrev pub Linked : Heap → Option ℕ → List OptNode → Type 0
Linked h opt [] = opt ≡ none
Linked h opt (o ∷ opts) =
    (p : ℕ) × (next : Option ℕ) × (opt ≡ some p)
    × (h p ≡ some (record { node = o; next = next }))
    × Linked h next opts

-- The defect: freeing a list of options reads a node after it was freed, whenever there is one;
-- only the empty list is freed soundly.
pub release_opts_lem :
    (fuel : ℕ) (opt : Option ℕ) (h : Heap) (opts : List OptNode)
    → Linked h opt opts
    → ((opts ≡ []) × (release_opts (suc fuel) opt h ≡ returned h))
      ⊎ ((opts ≢ []) × (release_opts (suc fuel) opt h ≡ invalid_read))
unfolding release_opts
release_opts_lem fuel opt h [] l = inl (refl, ground arith)
release_opts_lem fuel opt h (o ∷ opts) l = inr ((λ e. cc), ground arith)
