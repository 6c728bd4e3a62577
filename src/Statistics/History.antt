-- ===== src/Statistics/History.antt =====
-- Any history of calls on the statistics.
use koala_streamer.Prelude.{
  ℕ, ◌+◌, ◌≤◌, ◌≡◌, ◌<◌, refl, ap, sym, ◌∙◌, inl, inr, false, Option, none, some, List, [], ◌∷◌,
  ◌++◌, ◌==◌, leb, if◌then◌else◌, length, get_elem?, set, arith, Bool-cases, Option-cases, subst,
  length-set, length-append,
}
use koala_streamer.Prelude.Maybe.{some_injective}
use koala_streamer.Prelude.Int.{ℤ, pos, negsuc, is_neg, is_zero}
use koala_streamer.Frame.{Frame}
use koala_streamer.MediaMuxer.{StreamType}
use koala_streamer.Statistics.{
  StreamStatistics, Statistician, to_u64, add_stream, stream_at, begun, on_frame_begin, ended,
  on_frame_end, reset, get_stream_bit_rate, max_streames,
}
use koala_streamer.Statistics.Account.{
  Counts, CountsAt, begun-Counts, ended-Counts, same-Counts, set-CountsAt, reset_streams-CountsAt,
  length-reset_streams, get_elem?-append, same_branch, lt_length,
}

-- A call, with the moments that it reads from the clock.
pub data Call : Type 0 where
  adds : StreamType → Call
  begins : ℤ → ℤ → ℤ → ℤ → Call
  ends : ℤ → Option Frame → ℤ → Call
  resets : (ℕ → ℤ) → Call
  rates : (ℕ → ℤ → ℕ) → ℤ → ℤ → Call

unfoldable pub call : Statistician → Call → Option Statistician
call s (adds type) = some (add_stream s type).1
call s (begins index t₀ t₁ t₂) = on_frame_begin s index t₀ t₁ t₂
call s (ends index frame now) = on_frame_end s index frame now
call s (resets clock) = some (reset s clock)
call s (rates rate index now) = elim (get_stream_bit_rate rate s index now) [
  | none ↦ none
  | some r ↦ some s
]

-- The calls in order; `none` is an access outside the array.
unfoldable pub run : Statistician → List Call → Option Statistician
run s [] = some s
run s (c ∷ cs) = elim (call s c) [ none ↦ none | some s' ↦ run s' cs ]

-- The frames that a call ends on stream `i`, and their bytes.
unfoldable pub frames_in : ℕ → Call → ℕ
frames_in i (ends (pos j) (some f) now) = if i == j then 1 else 0
frames_in i _ = 0

unfoldable pub bytes_in : ℕ → Call → ℕ
bytes_in i (ends (pos j) (some f) now) = if i == j then to_u64 f.size else 0
bytes_in i _ = 0

unfoldable pub sum : (Call → ℕ) → List Call → ℕ
sum count [] = 0
sum count (c ∷ cs) = count c + sum count cs

-- The streams fit in the array.
abbrev pub IsValid : Statistician → Type 0
IsValid s = length s.streamers ≤ 8

fits :
    (xs ys : List StreamStatistics)
    → length ys ≡ 1
    → leb 8 (length xs) ≡ false
    → length (xs ++ ys) ≤ 8
fits xs ys one room = ground (arith, length-append xs ys)

-- What a call does, if it reads inside the array: to every stream that there is, and to their
-- number.
abbrev Served : Statistician → Call → ℕ → StreamStatistics → Statistician → Type 0
Served s c i x s' = IsValid s' × CountsAt (frames_in i c) (bytes_in i c) x s'.streamers i

pub rate-ends :
    (rate : ℕ → ℤ → ℕ) (s : Statistician) (index : ℤ) (now : ℤ)
    → (n : ℕ) × (index ≡ pos n) × (n < max_streames)
    → (v : ℕ) × (get_stream_bit_rate rate s index now ≡ some v)
unfolding get_stream_bit_rate
rate-ends rate s index now (n, e, h) = elim (Option-cases (get_stream_bit_rate rate s index now)) [
  | inl missing ↦ absurd (ground (arith, e, h, missing))
  | inr there ↦ there
]

rates-kept :
    (rate : ℕ → ℤ → ℕ) (s : Statistician) (index now : ℤ) (o : Option ℕ)
    → get_stream_bit_rate rate s index now ≡ o
    → call s (rates rate index now) ≡ elim o [ none ↦ none | some v ↦ some s ]
unfolding call
rates-kept rate s index now o read = ap (λ p. elim p [ none ↦ none | some v ↦ some s ]) read

module _ (s : Statistician) (i : ℕ) (x : StreamStatistics) (valid : IsValid s)
    (at-i : get_elem? s.streamers i ≡ some x) where
  add_stream-Served : (type : StreamType) → Served s (adds type) i x (add_stream s type).1
  unfolding add_stream frames_in bytes_in
  add_stream-Served type = elim (Bool-cases (leb 8 (length s.streamers))) [
    | inl full ↦ rw full (valid, (x, at-i, same-Counts x))
    | inr room ↦
        rw room (
          fits s.streamers _ refl room,
          (x, get_elem?-append s.streamers _ i x at-i, same-Counts x),
        )
  ]

  reset-Served : (clock : ℕ → ℤ) → Served s (resets clock) i x (reset s clock)
  unfolding reset frames_in bytes_in
  reset-Served clock = (
    omega (arith, length-reset_streams s.streamers clock),
    reset_streams-CountsAt s.streamers clock i x at-i,
  )

  absent : (j : ℕ) → stream_at s j ≡ none → i == j ≡ false
  unfolding stream_at
  absent j e = ground (arith, lt_length s.streamers i x at-i)

  present :
      (j : ℕ) (y : StreamStatistics) → stream_at s j ≡ some y → get_elem? s.streamers j ≡ some y
  unfolding stream_at
  present j y e = ground arith

  -- What a call does that puts `g y` in the place of the stream `y` at index `j`, if there is one.
  placed-Served :
      (j n b : ℕ) (g : StreamStatistics → StreamStatistics) (t : ℤ) (s' : Statistician)
      (o : Option StreamStatistics)
      → ((y : StreamStatistics) → Counts n b y (g y))
      → stream_at s j ≡ o
      → (elim o [
        | none ↦ some s
        | some y ↦ some (record s { streamers = set s.streamers j (g y); start_time = t })
      ])
        ≡ some s'
      → IsValid s' × CountsAt (if i == j then n else 0) (if i == j then b else 0) x s'.streamers i
  placed-Served j n b g t s' none counts at-j e =
      let f : s ≡ s' = cc in
      subst
        (λ z.
          IsValid z × CountsAt (if i == j then n else 0) (if i == j then b else 0) x z.streamers i)
        f (rw (absent j at-j) (valid, (x, at-i, same-Counts x)))
  placed-Served j n b g t s' (some y) counts at-j e =
      let f : record s { streamers = set s.streamers j (g y); start_time = t } ≡ s' = cc in
      subst
        (λ z.
          IsValid z × CountsAt (if i == j then n else 0) (if i == j then b else 0) x z.streamers i)
        f
        (
          omega (arith, length-set s.streamers j (g y)),
          set-CountsAt s.streamers j i n b x y (g y) at-i (present j y at-j) (counts y),
        )

  on_frame_begin-Served :
      (index t₀ t₁ t₂ : ℤ) (s' : Statistician)
      → on_frame_begin s index t₀ t₁ t₂ ≡ some s'
      → Served s (begins index t₀ t₁ t₂) i x s'
  unfolding on_frame_begin frames_in bytes_in
  on_frame_begin-Served (negsuc n) t₀ t₁ t₂ s' e = cc
  on_frame_begin-Served (pos j) t₀ t₁ t₂ s' e =
      let p =
        placed-Served j 0 0 (λ y. begun y t₁ t₂) _ s' (stream_at s j) (λ y. begun-Counts y t₁ t₂)
          refl e in
      subst (λ n. IsValid s' × CountsAt n n x s'.streamers i) (same_branch (i == j)) p

  on_frame_end-Served :
      (index : ℤ) (f : Option Frame) (now : ℤ) (s' : Statistician)
      → on_frame_end s index f now ≡ some s'
      → Served s (ends index f now) i x s'
  unfolding on_frame_end frames_in bytes_in
  on_frame_end-Served (pos j) none now s' e =
      let f : s ≡ s' = cc in
      subst (λ z. IsValid z × CountsAt 0 0 x z.streamers i) f (valid, (x, at-i, same-Counts x))
  on_frame_end-Served (negsuc j) none now s' e =
      let f : s ≡ s' = cc in
      subst (λ z. IsValid z × CountsAt 0 0 x z.streamers i) f (valid, (x, at-i, same-Counts x))
  on_frame_end-Served (negsuc n) (some f) now s' e = cc
  on_frame_end-Served (pos j) (some f) now s' e =
      placed-Served j 1 (to_u64 f.size) (λ y. ended y f now) s.start_time s' (stream_at s j)
        (λ y. ended-Counts y f now) refl e

  call-Served : (c : Call) (s' : Statistician) → call s c ≡ some s' → Served s c i x s'
  unfolding call frames_in bytes_in
  call-Served (adds type) s' e =
      let f : (add_stream s type).1 ≡ s' = cc in
      subst (Served s (adds type) i x) f (add_stream-Served type)
  call-Served (begins index t₀ t₁ t₂) s' e = on_frame_begin-Served index t₀ t₁ t₂ s' e
  call-Served (rates rate index now) s' e =
      elim (Option-cases (get_stream_bit_rate rate s index now)) [
        | inl out ↦ let wrong = sym (rates-kept rate s index now none out) ∙ e in cc
        | inr (v, read) ↦
            let f : s ≡ s' = some_injective (sym (rates-kept rate s index now (some v) read) ∙ e) in
            subst (λ z. IsValid z × CountsAt 0 0 x z.streamers i) f
              (valid, (x, at-i, same-Counts x))
      ]
  call-Served (ends index f now) s' e = on_frame_end-Served index f now s' e
  call-Served (resets clock) s' e =
      let f : reset s clock ≡ s' = cc in subst (Served s (resets clock) i x) f (reset-Served clock)

-- The index of a call is not negative, and where a rate is read it is below the size of the array.
abbrev pub IsInside : Call → Type 0
IsInside (begins index t₀ t₁ t₂) = is_neg index ≡ false
IsInside (ends index f now) = is_neg index ≡ false
IsInside (rates rate index now) = (n : ℕ) × (index ≡ pos n) × (n < max_streames)
IsInside _ = Unit

abbrev pub AllInside : List Call → Type 0
AllInside [] = Unit
AllInside (c ∷ cs) = IsInside c × AllInside cs

call-total : (s : Statistician) (c : Call) → IsInside c → (s' : Statistician) × (call s c ≡ some s')
unfolding call on_frame_begin on_frame_end
call-total s (adds type) inside = (_, refl)
call-total s (begins (pos j) t₀ t₁ t₂) inside = elim (Option-cases (stream_at s j)) [
  | inl e ↦ (s, rw (e, call, on_frame_begin) refl)
  | inr (y, e) ↦ (
    record s {
      streamers = set s.streamers j (begun y t₁ t₂);
      start_time = if is_zero s.start_time then t₀ else s.start_time;
    },
    rw (e, call, on_frame_begin) refl,
  )
]
call-total s (begins (negsuc j) t₀ t₁ t₂) inside = cc
call-total s (ends (pos j) none now) inside = (s, refl)
call-total s (ends (negsuc j) none now) inside = (s, refl)
call-total s (ends (pos j) (some f) now) inside = elim (Option-cases (stream_at s j)) [
  | inl e ↦ (s, rw (e, call, on_frame_end) refl)
  | inr (y, e) ↦
      (record s { streamers = set s.streamers j (ended y f now) }, rw (e, call, on_frame_end) refl)
]
call-total s (ends (negsuc j) (some f) now) inside = cc
call-total s (resets clock) inside = (_, refl)
call-total s (rates rate index now) inside =
    let (v, read) = rate-ends rate s index now inside in
    (s, rates-kept rate s index now (some v) read)

account_trans :
    (n m b d : ℕ) (x y z : StreamStatistics)
    → Counts n b x y
    → Counts m d y z
    → Counts (n + m) (b + d) x z
account_trans n m b d x y z h k = (omega arith, omega arith)

-- Over any calls that add a stream, begin or end a frame, reset or read a rate, one after another,
-- whose indices are not negative and below 8 where a rate is read, on streams that fit in the array: no access lies outside the array, every stream keeps its index, and its total and its present period together
-- grow by exactly the frames that ended on it and by their bytes, modulo 2^64, whatever resets,
-- new streams and other streams' frames come between.
pub run_lem :
    (cs : List Call) (s : Statistician) (i : ℕ) (x : StreamStatistics)
    → IsValid s
    → get_elem? s.streamers i ≡ some x
    → AllInside cs
    → (s' : Statistician) × (run s cs ≡ some s')
      × IsValid s'
      × CountsAt (sum (frames_in i) cs) (sum (bytes_in i) cs) x s'.streamers i
unfolding run sum
run_lem [] s i x valid at-i inside = (s, refl, valid, (x, at-i, same-Counts x))
run_lem (c ∷ cs) s i x valid at-i (inside, rest) =
    let (s₁, e) = call-total s c inside in
    let (valid₁, (x₁, at₁, counts₁)) = call-Served s i x valid at-i c s₁ e in
    let (s₂, e₂, valid₂, (x₂, at₂, counts₂)) = run_lem cs s₁ i x₁ valid₁ at₁ rest in
    (s₂, rw (e, run) e₂, valid₂, (x₂, at₂, account_trans _ _ _ _ x x₁ x₂ counts₁ counts₂))
