-- ===== src/Deadline.antt =====
-- utils/mediaThread.cpp, make_abstime_latems: the moment at which a timed wait gives up.
use koala_streamer.Prelude.{
  ℕ, ◌+◌, ◌-◌, ◌*◌, ◌/◌, ◌%◌, ◌^◌, ◌≤◌, ◌<◌, ◌≡◌, ◌↔◌, arith, ltb, if◌then◌else◌,
}

-- `struct timeval`: what gettimeofday returns has fewer than a million microseconds.
pub record Timeval : Type 0 where
  pub sec : ℕ
  pub usec : ℕ

pub record Timespec : Type 0 where
  pub sec : ℕ
  pub nsec : ℕ

-- The factors are unsigned 32-bit numbers.
nanoseconds : ℕ → ℕ → ℕ
nanoseconds usec ms = (usec + ms % 1000 * 1000) * 1000 % 2 ^ 32

unfoldable pub make_abstime_latems : Timeval → ℕ → Timespec
unfolding nanoseconds
make_abstime_latems delta ms =
    let sec = delta.sec + ms / 1000 in
    let nsec = nanoseconds delta.usec ms in
    if ltb 1000000000 nsec
    then record { sec = sec + 1; nsec = nsec - 1000000000 }
    else record { sec = sec; nsec = nsec }

-- The deadline lies exactly `ms` milliseconds after the time read, no 32-bit product wraps, and
-- the nanoseconds fall in the range that POSIX asks for, below 10^9, except where the
-- microseconds of the time and of the delay add up to exactly a second.
pub make_abstime_latems_lem :
    (delta : Timeval) (ms : ℕ)
    → delta.usec < 1000000
    → let t = make_abstime_latems delta ms in
      (t.sec * 1000000000 + t.nsec ≡ delta.sec * 1000000000 + delta.usec * 1000 + ms * 1000000)
      × (t.nsec ≤ 1000000000)
      × ((t.nsec ≡ 1000000000) ↔ (delta.usec + ms % 1000 * 1000 ≡ 1000000))
unfolding make_abstime_latems
make_abstime_latems_lem delta ms h = ground arith
