-- ===== src/Base/Time.antt =====
-- `std::time::Duration` as its nanoseconds; subtraction on ℕ is `saturating_sub`.
use Prim.Native.Nat.{ℕ, ◌+◌, ◌*◌, min}

abbrev pub Duration : Type 0
Duration = ℕ

abbrev pub from_millis : ℕ → Duration
from_millis ms = ms * 1000000

-- `Duration::MAX`.
unfoldable pub max_duration : Duration
max_duration = 18446744073709551615999999999

abbrev pub saturating_add : Duration → Duration → Duration
saturating_add a b = min (a + b) max_duration
