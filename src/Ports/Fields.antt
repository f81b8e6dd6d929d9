-- ===== src/Ports/Fields.antt =====
-- SphereWare/ADC.c: the fields of ADMUX and ADCSRB, from tables over all bytes.
use sphere_ware.Base.{
  ℕ, ◌+◌, ◌*◌, ◌/◌, ◌%◌, ◌<◌, ◌≡◌, ◌&&◌, true, ltb, ◌==◌, ==_iff, refl, bit_and, bit_or,
}
use sphere_ware.Base.Bits.{all_below, all_below_sound}

-- `ADMUX` with another low field of five or of two bits, and `ADCSRB` with another bit 5.
pub low_table :
    all_below 256 (λ b. all_below 32 (λ v. bit_or (bit_and b 224) v == (b / 32 * 32 + v))) ≡ true
unfolding all_below
low_table = refl

pub pair_table :
    all_below 256 (λ b. all_below 4 (λ v. bit_or (bit_and b 252) v == (b / 4 * 4 + v))) ≡ true
unfolding all_below
pair_table = refl

pub bit_table :
    all_below 256
      (λ b. all_below 2 (λ v. bit_or (bit_and b 223) (v * 32) == (b / 64 * 64 + v * 32 + b % 32)))
    ≡ true
unfolding all_below
bit_table = refl

pub code_table :
    all_below 16 (λ a. all_below 4 (λ c. bit_and (bit_or (a * 4) c) 31 == ((a * 4 + c) % 32)))
    ≡ true
unfolding all_below
code_table = refl

pub high_table : all_below 64 (λ m. bit_and m 32 == (m / 32 * 32)) ≡ true
unfolding all_below
high_table = refl

pub two_table : all_below 4 (λ c. bit_and c 3 == c) ≡ true
unfolding all_below
two_table = refl

pub start_table :
    all_below 256 (λ b. bit_or (bit_and (bit_and b 127) 191) 192 == (b % 64 + 192)) ≡ true
unfolding all_below
start_table = refl

pub speed_table : all_below 256 (λ b. bit_or b 128 == (b % 128 + 128)) ≡ true
unfolding all_below
speed_table = refl

pub one_entry :
    (n : ℕ) (f g : ℕ → ℕ) (i : ℕ) → all_below n (λ i. f i == g i) ≡ true → i < n → f i ≡ g i
one_entry n f g i t h = (==_iff _ _).0 (all_below_sound n (λ i. f i == g i) i t h)

pub two_entries :
    (n k : ℕ) (f g : ℕ → ℕ → ℕ) (i j : ℕ)
    → all_below n (λ i. all_below k (λ j. f i j == g i j)) ≡ true
    → i < n
    → j < k
    → f i j ≡ g i j
two_entries n k f g i j t hi hj =
    one_entry k (f i) (g i) j (all_below_sound n (λ i. all_below k (λ j. f i j == g i j)) i t hi) hj

-- With PREVIOUS_MODE the low field is at most 3.
pub previous_table :
    all_below 4 (λ c. ltb (bit_and (bit_or 1 c) 31) 4 && (bit_and (bit_or 1 c) 31 / 32 == 0)) ≡ true
unfolding all_below
previous_table = refl
