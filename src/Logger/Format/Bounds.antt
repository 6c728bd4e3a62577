-- ===== src/Logger/Format/Bounds.antt =====
-- What the text of a message takes of its buffer.
use koala_streamer.Prelude.{
  ℕ, zero, suc, ◌+◌, ◌-◌, ◌/◌, ◌%◌, ◌<◌, ◌≤◌, ◌≡◌, refl, inl, inr, true, List, [], ◌∷◌, ◌++◌,
  length, take, replicate, length-append, length-take, length-replicate, arith, Bool-cases,
}
use koala_streamer.CString.{Bytes}
use koala_streamer.Logger.Format.{
  joined, decimal_from, decimal, padded, LocalTime, get_local_time, Process, prefix, ends_line,
  content, format_log, out_buf_size,
}

-- The values that localtime and gettimeofday give.
pub record IsValid (t : LocalTime) : Type 0 where
  pub mon : t.mon < 12
  pub mday : t.mday < 32
  pub hour : t.hour < 24
  pub min : t.min < 60
  pub sec : t.sec < 61
  pub msec : t.msec < 1000

length-decimal_from : (digits n : ℕ) → length (decimal_from digits n) ≤ digits
unfolding decimal_from
length-decimal_from zero n = omega arith
length-decimal_from (suc digits) n = ground (
  arith,
  length-decimal_from digits (n / 10),
  length-append (decimal_from digits (n / 10)) ((48 + n % 10) ∷ []),
)

one_digit : (n : ℕ) (digits : ℕ) → n < 10 → length (decimal_from (suc digits) n) ≤ 1
unfolding decimal_from
one_digit n digits h = ground arith

two_digits : (n : ℕ) (digits : ℕ) → n < 100 → length (decimal_from (suc (suc digits)) n) ≤ 2
unfolding decimal_from
two_digits n digits h = ground (
  arith,
  one_digit (n / 10) digits (omega arith),
  length-append (decimal_from (suc digits) (n / 10)) ((48 + n % 10) ∷ []),
)

three_digits :
    (n : ℕ) (digits : ℕ) → n < 1000 → length (decimal_from (suc (suc (suc digits))) n) ≤ 3
unfolding decimal_from
three_digits n digits h = ground (
  arith,
  two_digits (n / 10) digits (omega arith),
  length-append (decimal_from (suc (suc digits)) (n / 10)) ((48 + n % 10) ∷ []),
)

length-padded : (width n : ℕ) → length (decimal n) ≤ width → length (padded width n) ≡ width
unfolding padded
length-padded width n h =
    let zeros : Bytes = replicate (width - length (decimal n)) 48 in
    omega (
      arith,
      length-append zeros (decimal n),
      length-replicate {A = ℕ} (width - length (decimal n)) 48,
    )

padded_two : (n : ℕ) → n < 100 → length (padded 2 n) ≡ 2
unfolding decimal
padded_two n h = length-padded 2 n (two_digits n 8 h)

padded_three : (n : ℕ) → n < 1000 → length (padded 3 n) ≡ 3
unfolding decimal
padded_three n h = length-padded 3 n (three_digits n 7 h)

abbrev sizes : List Bytes → ℕ
sizes [] = 0
sizes (part ∷ parts) = length part + sizes parts

length-joined : (parts : List Bytes) → length (joined parts) ≡ sizes parts
length-joined [] = refl
length-joined (part ∷ parts) = omega (arith, length-append part (joined parts), length-joined parts)

length-get_local_time : (t : LocalTime) → IsValid t → length (get_local_time t) ≡ 18
unfolding get_local_time
length-get_local_time t v =
    let mon = padded_two (t.mon + 1) (omega (arith, v.mon)) in
    let mday = padded_two t.mday (omega (arith, v.mday)) in
    let hour = padded_two t.hour (omega (arith, v.hour)) in
    let min = padded_two t.min (omega (arith, v.min)) in
    let sec = padded_two t.sec (omega (arith, v.sec)) in
    let msec = padded_three t.msec v.msec in
    rw length-joined (omega (arith, mon, mday, hour, min, sec, msec))

length-prefix :
    (t : LocalTime) (p : Process) (prio : ℕ) (tag : Bytes)
    → IsValid t
    → length (prefix t p prio tag) ≤ 50 + length p.git_ver + length tag
unfolding prefix decimal
length-prefix t p prio tag v =
    let time = length-get_local_time t v in
    let pid = length-decimal_from 10 p.pid in
    let tid = length-decimal_from 10 p.tid in rw length-joined (omega (arith, time, pid, tid))

ends_line-append : (xs : Bytes) → ends_line (xs ++ 10 ∷ []) ≡ true
unfolding ends_line
ends_line-append [] = refl
ends_line-append (x ∷ []) = refl
ends_line-append (x ∷ y ∷ xs) = ends_line-append (y ∷ xs)

-- At a time that localtime gives, if the version and the tag have at most 206 bytes together, the
-- text of any message fits in out_buf with its terminator, and ends a line.
pub format_log_lem :
    (t : LocalTime) (p : Process) (prio : ℕ) (tag message : Bytes)
    → IsValid t
    → length p.git_ver + length tag ≤ 206
    → (length (format_log t p prio tag (content message)) + 1 ≤ out_buf_size)
      × (ends_line (format_log t p prio tag (content message)) ≡ true)
unfolding format_log content
format_log_lem t p prio tag message v h =
    let text = prefix t p prio tag ++ take 1022 message in
    let begins = length-prefix t p prio tag v in
    let cut = length-take 1022 message in
    let whole = length-append (prefix t p prio tag) (take 1022 message) in
    let longer = length-append text (10 ∷ []) in
    elim (Bool-cases (ends_line text)) [
      | inl e ↦ rw (e, format_log) (omega (arith, begins, cut, whole), e)
      | inr e ↦
          rw (e, format_log) (omega (arith, begins, cut, whole, longer), ends_line-append text)
    ]
