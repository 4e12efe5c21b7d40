-- ===== src/Prelude/Clock.antt =====
-- Clock readings: `time.monotonic()` and durations are whole numbers of nanoseconds, the resolution
-- that the clock has.
use Prim.Native.Nat.{ℕ}

abbrev pub second : ℕ
second = 1000000000
