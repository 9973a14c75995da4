-- ===== src/Prelude/Time.antt =====
-- A datetime is the number of microseconds since the epoch, a timedelta a number of microseconds.
use Prim.Native.Nat.{ℕ, ◌*◌}

abbrev pub microseconds_per_day : ℕ
microseconds_per_day = 86_400_000_000

abbrev pub days : ℕ → ℕ
days n = n * microseconds_per_day

abbrev pub hours : ℕ → ℕ
hours n = n * 3_600_000_000
