-- ===== src/Statistics/Account.antt =====
-- The counters of one stream, and of a list of them.
use koala_streamer.Prelude.{
  ℕ, ◌+◌, ◌%◌, ◌^◌, ◌<◌, ◌≡◌, ◌≢◌, refl, ap, sym, ◌∙◌, inl, inr, Bool, true, false, some, List, [],
  ◌∷◌, ◌++◌, ◌==◌, if◌then◌else◌, length, get_elem?, set, arith, Bool-cases, get_elem?-set_self,
  subst, ==_iff, suc, zero, get_elem?-set_ne,
}
use koala_streamer.Prelude.Int.{ℤ}
use koala_streamer.Frame.{Frame}
use koala_streamer.Statistics.{StreamStatistics, to_u64, begun, ended, reset_stream, reset_streams}

-- What a stream has counted, in its total and in its present period together.
unfoldable pub frames_of : StreamStatistics → ℕ
frames_of x = (x.total.frames + x.statistics.frames) % 2 ^ 64

unfoldable pub bytes_of : StreamStatistics → ℕ
bytes_of x = (x.total.size + x.statistics.size) % 2 ^ 64

-- `x'` counted `n` frames and `b` bytes more than `x`.
abbrev pub Counts : ℕ → ℕ → StreamStatistics → StreamStatistics → Type 0
Counts n b x x' =
    (frames_of x' ≡ (frames_of x + n) % 2 ^ 64) × (bytes_of x' ≡ (bytes_of x + b) % 2 ^ 64)

pub begun-Counts : (x : StreamStatistics) (t₁ t₂ : ℤ) → Counts 0 0 x (begun x t₁ t₂)
unfolding begun frames_of bytes_of
begun-Counts x t₁ t₂ = (omega arith, omega arith)

pub ended-Counts :
    (x : StreamStatistics) (f : Frame) (now : ℤ) → Counts 1 (to_u64 f.size) x (ended x f now)
unfolding ended frames_of bytes_of
ended-Counts x f now = (omega arith, omega arith)

pub reset_stream-Counts : (x : StreamStatistics) (now : ℤ) → Counts 0 0 x (reset_stream now x)
unfolding reset_stream frames_of bytes_of
reset_stream-Counts x now = (omega arith, omega arith)

pub same-Counts : (x : StreamStatistics) → Counts 0 0 x x
unfolding frames_of bytes_of
same-Counts x = (omega arith, omega arith)

-- At index `i` of a list there is a stream that counted `n` frames and `b` bytes more than `x`.
abbrev pub CountsAt : ℕ → ℕ → StreamStatistics → List StreamStatistics → ℕ → Type 0
CountsAt n b x xs i = (x' : StreamStatistics) × (get_elem? xs i ≡ some x') × Counts n b x x'

pub lt_length {ℓ} :
    {A : Type ℓ} (xs : List A) (i : ℕ) (x : A) → get_elem? xs i ≡ some x → i < length xs
lt_length [] i x e = cc
lt_length (y ∷ xs) zero x e = omega arith
lt_length (y ∷ xs) (suc i) x e = omega (arith, lt_length xs i x e)

pub set-CountsAt :
    (xs : List StreamStatistics) (j i n b : ℕ) (x y y' : StreamStatistics)
    → get_elem? xs i ≡ some x
    → get_elem? xs j ≡ some y
    → Counts n b y y'
    → CountsAt (if i == j then n else 0) (if i == j then b else 0) x (set xs j y') i
set-CountsAt xs j i n b x y y' at-i at-j counts = elim (Bool-cases (i == j)) [
  | inl same ↦
      let e : i ≡ j = (==_iff i j).0 same in
      let f : y ≡ x = cc in
      rw same (
        y',
        subst (λ k. get_elem? (set xs j y') k ≡ some y') (sym e)
            (get_elem?-set_self xs j y' (lt_length xs j y at-j)),
        subst (λ z. Counts n b z y') f counts,
      )
  | inr other ↦
      let e : i ≢ j = λ e. ground arith in
      rw other (x, get_elem?-set_ne xs y' (λ k. e (sym k)) ∙ at-i, same-Counts x)
]

pub reset_streams-CountsAt :
    (xs : List StreamStatistics) (clock : ℕ → ℤ) (i : ℕ) (x : StreamStatistics)
    → get_elem? xs i ≡ some x
    → CountsAt 0 0 x (reset_streams clock xs) i
unfolding reset_streams
reset_streams-CountsAt [] clock i x e = cc
reset_streams-CountsAt (y ∷ xs) clock zero x e =
    let f : y ≡ x = cc in
    (
      reset_stream (clock 0) y,
      refl,
      subst (λ z. Counts 0 0 z (reset_stream (clock 0) y)) f (reset_stream-Counts y (clock 0)),
    )
reset_streams-CountsAt (y ∷ xs) clock (suc i) x e =
    reset_streams-CountsAt xs (λ i. clock (i + 1)) i x e

pub length-reset_streams :
    (xs : List StreamStatistics) (clock : ℕ → ℤ) → length (reset_streams clock xs) ≡ length xs
unfolding reset_streams
length-reset_streams [] clock = refl
length-reset_streams (x ∷ xs) clock = ap suc (length-reset_streams xs (λ i. clock (i + 1)))

pub get_elem?-append :
    (xs ys : List StreamStatistics) (i : ℕ) (x : StreamStatistics)
    → get_elem? xs i ≡ some x
    → get_elem? (xs ++ ys) i ≡ some x
get_elem?-append [] ys i x e = cc
get_elem?-append (y ∷ xs) ys zero x e = e
get_elem?-append (y ∷ xs) ys (suc i) x e = get_elem?-append xs ys i x e

pub same_branch : (b : Bool) → if◌then◌else◌ {A = ℕ} b 0 0 ≡ 0
same_branch true = refl
same_branch false = refl
