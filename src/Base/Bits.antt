-- ===== src/Base/Bits.antt =====
-- `&` and `|` at variables: a mask of low bits is a remainder, and disjoint fields add up. Also
-- laws of byte registers that are checked value by value.
use Prim.Native.Nat.{
  ℕ, zero, suc, ◌+◌, ◌*◌, ◌-◌, ◌/◌, ◌%◌, ◌^◌, ◌≤◌, ◌<◌, min, max, digits, bit_and, bit_or,
  bit_and-bitwise, bit_or-bitwise,
}
use mathlib.Core.Path.{◌≡◌, refl, ap, ◌∙◌, sym}
use mathlib.Core.Bool.{Bool, true, ◌&&◌}
use native.Mathlib.Nat.{pow-suc, one-le-pow}
use native.Mathlib.Omega.{arith}

-- `&` and `|` mean a recursion on digits, whose fuel may be any number from the first argument on.
module _ (last : ℕ → ℕ) (op : ℕ → ℕ → ℕ) where
  digits-zero : (fuel y : ℕ) → digits last op fuel 0 y ≡ last y
  digits-zero zero y = refl
  digits-zero (suc fuel) y = refl

  digits_spare :
      (fuel spare x y : ℕ)
      → x ≤ fuel
      → fuel ≤ spare
      → digits last op spare x y ≡ digits last op fuel x y
  digits_spare fuel spare zero y enough more = digits-zero spare y ∙ sym (digits-zero fuel y)
  digits_spare (suc fuel) (suc spare) (suc x) y enough more =
      ap (λ (high : ℕ). high * 2 + op (suc x % 2) (y % 2))
        (digits_spare fuel spare (suc x / 2) (y / 2) (omega arith) (omega arith))
  digits_spare zero spare (suc x) y enough more = absurd (omega arith)
  digits_spare (suc fuel) zero (suc x) y enough more = absurd (omega arith)

  digits_lowest :
      (x y : ℕ)
      → digits last op (suc x) (suc x) y
        ≡ digits last op (suc x / 2) (suc x / 2) (y / 2) * 2 + op (suc x % 2) (y % 2)
  digits_lowest x y =
      ap (λ (high : ℕ). high * 2 + op (suc x % 2) (y % 2))
        (digits_spare (suc x / 2) x (suc x / 2) (y / 2) (omega arith) (omega arith))

bit_and_lowest : (x y : ℕ) → bit_and x y ≡ bit_and (x / 2) (y / 2) * 2 + min (x % 2) (y % 2)
bit_and_lowest zero y = simp bit_and-bitwise (omega arith)
bit_and_lowest (suc x) y = simp bit_and-bitwise (digits_lowest (λ _. 0) min x y)

bit_or_lowest : (x y : ℕ) → bit_or x y ≡ bit_or (x / 2) (y / 2) * 2 + max (x % 2) (y % 2)
bit_or_lowest zero y = simp bit_or-bitwise (omega arith)
bit_or_lowest (suc x) y = simp bit_or-bitwise (digits_lowest (λ rest. rest) max x y)

bit_and_none : (bound x : ℕ) → x ≤ bound → bit_and x 0 ≡ 0
bit_and_none bound zero low = refl
bit_and_none zero (suc x) low = absurd (omega arith)
bit_and_none (suc bound) (suc x) low =
    omega (arith, bit_and_none bound (suc x / 2) (omega arith), bit_and_lowest (suc x) 0)

bit_or_none : (bound x : ℕ) → x ≤ bound → bit_or x 0 ≡ x
bit_or_none bound zero low = refl
bit_or_none zero (suc x) low = absurd (omega arith)
bit_or_none (suc bound) (suc x) low =
    omega (arith, bit_or_none bound (suc x / 2) (omega arith), bit_or_lowest (suc x) 0)

pub bit_or-zero : (a : ℕ) → bit_or a 0 ≡ a
bit_or-zero a = bit_or_none a a (omega arith)

double_pow : (q k : ℕ) → q * 2 ^ suc k ≡ 2 * (q * 2 ^ k)
double_pow q k = omega (arith, ap (λ (t : ℕ). q * t) (pow-suc 2 k))

bit_and-fields : (k q r : ℕ) → r < 2 ^ k → bit_and (q * 2 ^ k + r) (2 ^ k - 1) ≡ r
bit_and-fields zero q r h = omega (arith, bit_and_none (q * 1 + r) (q * 1 + r) (omega arith))
bit_and-fields (suc k) q r h = ground (
  arith,
  bit_and_lowest (q * 2 ^ suc k + r) (2 ^ suc k - 1),
  double_pow q k,
  pow-suc 2 k,
  one-le-pow k 2,
  bit_and-fields k q (r / 2) (omega (arith, pow-suc 2 k)),
)

-- `a & (2^k - 1)`.
pub bit_and-low : (k a : ℕ) → bit_and a (2 ^ k - 1) ≡ a % 2 ^ k
bit_and-low k a = ground (arith, one-le-pow k 2, bit_and-fields k (a / 2 ^ k) (a % 2 ^ k))

-- `(q << k) | r` for a field `r` of `k` bits.
pub bit_or-fields : (k q r : ℕ) → r < 2 ^ k → bit_or (q * 2 ^ k) r ≡ q * 2 ^ k + r
bit_or-fields zero q r h = ground (arith, bit_or-zero q)
bit_or-fields (suc k) q r h = ground (
  arith,
  bit_or_lowest (q * 2 ^ suc k) r,
  double_pow q k,
  pow-suc 2 k,
  bit_or-fields k q (r / 2) (omega (arith, pow-suc 2 k)),
)

-- A test that is run on every number under a bound, the largest last.
unfoldable pub all_below : ℕ → (ℕ → Bool) → Bool
all_below zero test = true
all_below (suc last) test = all_below last test && test last

pub all_below_sound :
    (bound : ℕ) (test : ℕ → Bool) (x : ℕ) → all_below bound test ≡ true → x < bound → test x ≡ true
unfolding all_below
all_below_sound zero test x passed lt = absurd (omega arith)
all_below_sound (suc last) test x passed lt = ground (arith, all_below_sound last test x)

none_bit_or : (bound y : ℕ) → y ≤ bound → bit_or 0 y ≡ y
none_bit_or bound zero low = refl
none_bit_or zero (suc y) low = absurd (omega arith)
none_bit_or (suc bound) (suc y) low =
    omega (arith, none_bit_or bound (suc y / 2) (omega arith), bit_or_lowest 0 (suc y))

-- `r | (q << k)` for a field `r` of `k` bits.
pub bit_or-fields_low : (k q r : ℕ) → r < 2 ^ k → bit_or r (q * 2 ^ k) ≡ q * 2 ^ k + r
bit_or-fields_low zero q r h = ground (arith, none_bit_or q q)
bit_or-fields_low (suc k) q r h = ground (
  arith,
  bit_or_lowest r (q * 2 ^ suc k),
  double_pow q k,
  pow-suc 2 k,
  bit_or-fields_low k q (r / 2) (omega (arith, pow-suc 2 k)),
)
