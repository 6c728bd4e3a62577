-- ===== src/Statistics.antt =====
-- streamStatistician.c: what each stream carried. A moment of the clock is an argument, and so are
-- the two quotients that the code takes in floating point.
pub mod Account
pub mod History
use koala_streamer.Prelude.{
  ℕ, ◌+◌, ◌-◌, ◌*◌, ◌/◌, ◌%◌, ◌^◌, Bool, true, false, Option, none, some, List, [], ◌∷◌, ◌++◌, ltb,
  leb, if◌then◌else◌, length, get_elem?, set,
}
use koala_streamer.Prelude.Int.{ℤ, pos, negsuc, ◌-ℤ◌, is_zero}
use koala_streamer.Frame.{Frame}
use koala_streamer.MediaMuxer.{StreamType}

-- `statistics_data`; the counters are `uint64_t`.
pub record StatisticsData : Type 0 where
  pub size : ℕ
  pub frames : ℕ
  pub wait_ms : ℕ
  pub wait_times : ℕ
  pub start_time : ℤ

abbrev pub no_data : StatisticsData
no_data = record { size = 0; frames = 0; wait_ms = 0; wait_times = 0; start_time = pos 0 }

-- `stream_statistics`.
pub record StreamStatistics : Type 0 where
  pub total : StatisticsData
  pub statistics : StatisticsData
  pub frame_start_time : ℤ
  pub type : StreamType

-- `streamerStatistician`: `streamers` has the entries of the array below `streamerNum`, which are
-- the entries that are not null.
pub record Statistician : Type 0 where
  pub streamers : List StreamStatistics
  pub start_time : ℤ

abbrev pub max_streames : ℕ
max_streames = 8

-- A sum of two `uint64_t`, and an `int` that is made one.
abbrev pub add_u64 : ℕ → ℕ → ℕ
add_u64 a b = (a + b) % 2 ^ 64

abbrev pub to_u64 : ℤ → ℕ
to_u64 (pos n) = n % 2 ^ 64
to_u64 (negsuc n) = 2 ^ 64 - 1 - n % 2 ^ 64

abbrev pub streamer_statistician_create : Statistician
streamer_statistician_create = record { streamers = []; start_time = pos 0 }

-- Allocation is taken to succeed.
unfoldable pub add_stream : Statistician → StreamType → ℤ × Statistician
add_stream s type = if leb max_streames (length s.streamers) then (negsuc 0, s) else (
  pos (length s.streamers),
  record s {
    streamers =
        s.streamers
        ++ record { total = no_data; statistics = no_data; frame_start_time = pos 0; type = type }
          ∷ [];
  },
)

-- The entry of the array at an index of it: `none` is a null pointer.
unfoldable pub stream_at : Statistician → ℕ → Option StreamStatistics
stream_at s i = if leb max_streames i then none else get_elem? s.streamers i

-- The stream after a frame begins, from two moments.
unfoldable pub begun : StreamStatistics → ℤ → ℤ → StreamStatistics
begun x t₁ t₂ = record x {
  statistics = record x.statistics {
    start_time = if is_zero x.statistics.start_time then t₁ else x.statistics.start_time;
  };
  frame_start_time = t₂;
}

-- An index below 0 is not tested: the array is read outside its bounds, and there is no result.
unfoldable pub on_frame_begin : Statistician → ℤ → ℤ → ℤ → ℤ → Option Statistician
unfolding stream_at begun
on_frame_begin s (negsuc _) t₀ t₁ t₂ = none
on_frame_begin s (pos i) t₀ t₁ t₂ = elim (stream_at s i) [
  | none ↦ some s
  | some x ↦ some (record s {
    streamers = set s.streamers i (begun x t₁ t₂);
    start_time = if is_zero s.start_time then t₀ else s.start_time;
  })
]

-- The milliseconds that a wait is counted with: none below ten of them, or if the clock went back.
unfoldable pub counted_ms : ℤ → ℕ
counted_ms (pos us) = if leb 10 (us / 1000) then us / 1000 else 0
counted_ms (negsuc _) = 0

unfoldable pub ended : StreamStatistics → Frame → ℤ → StreamStatistics
unfolding counted_ms
ended x f now =
    let d = x.statistics in
    let ms = counted_ms (now -ℤ x.frame_start_time) in
    record x {
      statistics = record d {
        frames = add_u64 d.frames 1;
        size = add_u64 d.size (to_u64 f.size);
        wait_times = add_u64 d.wait_times (if leb 10 ms then 1 else 0);
        wait_ms = add_u64 d.wait_ms ms;
      };
    }

-- An index of at least 8 or a null frame is tested first.
unfoldable pub on_frame_end : Statistician → ℤ → Option Frame → ℤ → Option Statistician
unfolding stream_at ended
on_frame_end s index none now = some s
on_frame_end s (negsuc _) (some f) now = none
on_frame_end s (pos i) (some f) now = elim (stream_at s i) [
  | none ↦ some s
  | some x ↦ some (record s { streamers = set s.streamers i (ended x f now) })
]

unfoldable pub reset_stream : ℤ → StreamStatistics → StreamStatistics
reset_stream now x =
    let t = x.total in
    let d = x.statistics in
    record x {
      total = record t {
        size = add_u64 t.size d.size;
        frames = add_u64 t.frames d.frames;
        wait_ms = add_u64 t.wait_ms d.wait_ms;
        wait_times = add_u64 t.wait_times d.wait_times;
      };
      statistics = record no_data { start_time = now };
    }

-- A moment for each stream.
unfoldable pub reset_streams : (ℕ → ℤ) → List StreamStatistics → List StreamStatistics
unfolding reset_stream
reset_streams clock [] = []
reset_streams clock (x ∷ xs) = reset_stream (clock 0) x ∷ reset_streams (λ i. clock (i + 1)) xs

unfoldable pub reset : Statistician → (ℕ → ℤ) → Statistician
unfolding reset_streams
reset s clock = record s { streamers = reset_streams clock s.streamers }

-- The quotient of `int64_t`, which is cut off towards 0.
unfoldable pub seconds : ℤ → ℤ
seconds (pos us) = pos (us / 1000000)
seconds (negsuc us) = let n = (us + 1) / 1000000 in if leb 1 n then negsuc (n - 1) else pos 0

-- `rate size time` is `(uint32_t) ((float) size * 8 / time)`. An index is not tested.
unfoldable pub get_stream_bit_rate : (ℕ → ℤ → ℕ) → Statistician → ℤ → ℤ → Option ℕ
unfolding stream_at seconds
get_stream_bit_rate rate s (negsuc _) now = none
get_stream_bit_rate rate s (pos i) now = if leb max_streames i then none else elim (stream_at s i) [
  | none ↦ some 0
  | some x ↦
      let time = seconds (now -ℤ x.statistics.start_time) in
      some (if is_zero time then 0 else rate x.statistics.size time)
]

-- The waits of all streams, and the start of the last stream's period.
unfoldable pub gather : ℕ → ℤ → List StreamStatistics → ℕ × ℤ
gather wait_ms start_time [] = (wait_ms, start_time)
gather wait_ms start_time (x ∷ xs) =
    gather (add_u64 wait_ms x.statistics.wait_ms) x.statistics.start_time xs

-- `factor wait_ms time` is `1.0f - (((float) wait_ms / 1000) / ((float) time / 1000000))`.
unfoldable pub get_stream_band_wide_factor {ℓ} : {F : Type ℓ} → (ℕ → ℤ → F) → Statistician → ℤ → F
unfolding gather
get_stream_band_wide_factor factor s now =
    let (wait_ms, start_time) = gather 0 (pos 0) s.streamers in factor wait_ms (now -ℤ start_time)
