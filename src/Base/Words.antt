-- ===== src/Base/Words.antt =====
-- Fixed-width integers. An unsigned one is a number below `2 ^ w`; an `int16_t` is kept as its
-- two's complement bit pattern, a number below `2 ^ 16`, so that its wrap-around is written out.
use Prim.Native.Nat.{ℕ, ◌+◌, ◌-◌, ◌*◌, ◌/◌, ◌%◌, ◌^◌}
use mathlib.Core.Bool.{Bool}
use sphere_ware.Base.Tests.{ltb, leb, if◌then◌else◌}

abbrev pub u8 : ℕ → ℕ
u8 n = n % 256

abbrev pub u16 : ℕ → ℕ
u16 n = n % 65536

abbrev pub add16 : ℕ → ℕ → ℕ
add16 a b = (a + b) % 65536

abbrev pub sub16 : ℕ → ℕ → ℕ
sub16 a b = (a + 65536 - b) % 65536

abbrev pub neg16 : ℕ → ℕ
neg16 a = (65536 - a) % 65536

-- The pattern of the integer -n.
abbrev pub minus16 : ℕ → ℕ
minus16 n = 65536 - n

-- The integer plus 32768, which orders the patterns as `int16_t` does.
abbrev pub biased : ℕ → ℕ
biased a = (a + 32768) % 65536

-- The signed comparisons `a < b` and `a <= b`.
abbrev pub slt : ℕ → ℕ → Bool
slt a b = ltb (biased a) (biased b)

abbrev pub sle : ℕ → ℕ → Bool
sle a b = leb (biased a) (biased b)

-- `(int16_t) (a * 0.50 + b * 0.50)`: the sum is exact, and the cast rounds towards zero.
abbrev pub half_sum : ℕ → ℕ → ℕ
half_sum a b =
    let total = biased a + biased b in
    if leb 65536 total then (total - 65536) / 2 else neg16 ((65536 - total) / 2)

-- Shifts of unsigned values.
infixl 75 ◌<<<◌ ◌>>>◌
abbrev pub ◌<<<◌ : ℕ → ℕ → ℕ
x <<< k = x * 2 ^ k

abbrev pub ◌>>>◌ : ℕ → ℕ → ℕ
x >>> k = x / 2 ^ k
