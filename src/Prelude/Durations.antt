-- ===== src/Prelude/Durations.antt =====
-- `std::time::Duration`, as a number of nanoseconds.
use Prim.Native.Nat.{ℕ, ◌*◌, ◌/◌, ◌%◌}

abbrev pub Duration : Type 0
Duration = ℕ

abbrev pub as_millis : Duration → ℕ
as_millis d = d / 1_000_000

abbrev pub subsec_nanos : Duration → ℕ
subsec_nanos d = d % 1_000_000_000

abbrev pub from_secs : ℕ → Duration
from_secs n = n * 1_000_000_000

abbrev pub from_millis : ℕ → Duration
from_millis n = n * 1_000_000
