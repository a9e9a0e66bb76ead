-- ===== src/Common/Int64.antt =====
-- Go's int64 as the native number that is larger by 2 ^ 63. So the order of the integers is that
-- of the numbers, and a sum wraps as in Go; `zero64` is 0, and `max64` is 2 ^ 63 - 1.
use Prim.Native.Nat.{ℕ, ◌+◌, ◌-◌, ◌/◌, ◌%◌, ◌^◌}
use log_cache.Common.Tests.{ltb, if◌then◌else◌}

abbrev pub word : ℕ
word = 2 ^ 64

abbrev pub zero64 : ℕ
zero64 = 2 ^ 63

abbrev pub max64 : ℕ
max64 = 2 ^ 64 - 1

-- a + n for a number n that is no larger than 2 ^ 64
abbrev pub add64 : ℕ → ℕ → ℕ
add64 a n = (a + n) % word

-- a - b
unfoldable pub sub64 : ℕ → ℕ → ℕ
sub64 a b = (a + word + zero64 - b) % word

-- a / d for a positive constant d: Go rounds towards zero.
unfoldable pub div64 : ℕ → ℕ → ℕ
div64 a d = if ltb a zero64 then zero64 - (zero64 - a) / d else zero64 + (a - zero64) / d
