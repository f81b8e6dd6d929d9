-- ===== src/Ports/Ladder.antt =====
-- SphereWare/R2R.c: the resistor ladder, a digital-to-analogue converter on six pins.
use sphere_ware.Base.{
  ℕ, ◌+◌, ◌*◌, ◌/◌, ◌%◌, ◌^◌, ◌<◌, ◌≡◌, Bool, true, ◌&&◌, ◌==◌, ==_iff, both, arith, refl, bit_and,
  bit_or, ◌<<<◌, ◌>>>◌,
}
use sphere_ware.Base.Bits.{all_below, all_below_sound, bit_and-low}
use sphere_ware.Ports.Pins.{Ports, IsPorts, bit, not8}

unfoldable pub write_b : ℕ → ℕ → ℕ
write_b val portb = bit_or (bit_and portb 0xf0) (bit_and (val >>> 2) 0x0f)

unfoldable pub write_f : ℕ → ℕ → ℕ
write_f val portf =
    bit_or
      (bit_or (bit_and portf (bit_and (not8 (1 <<< 0)) (not8 (1 <<< 5))))
        (bit_and (val >>> 1) 1 <<< 0))
      (bit_and val 1 <<< 5)

-- R2R_Write
unfoldable pub write : ℕ → Ports → Ports
write val p = record p { portb = write_b val p.portb; portf = write_f val p.portf }

-- R2R_Init; the data direction registers are left out.
unfoldable pub init : Ports → Ports
init p = write 0 p

-- The number on the six pins, from PB3 down to PB0, then PF0 and PF5.
abbrev pub level : Ports → ℕ
level p = p.portb % 16 * 4 + bit 0 p.portf * 2 + bit 5 p.portf

b_test : ℕ → ℕ → Bool
b_test n p = let q = bit_or (bit_and p 0xf0) n in (q % 16 == n) && (q / 16 == (p / 16))

f_test : ℕ → ℕ → Bool
f_test n p =
    let q = bit_or (bit_or (bit_and p 0xde) (n / 2 * 2 ^ 0)) (n % 2 * 2 ^ 5) in
    (bit 0 q == (n / 2))
    && ((bit 5 q == (n % 2)) && ((q / 2 % 16 == (p / 2 % 16)) && (q / 64 == (p / 64))))

table_b : all_below 16 (λ n. all_below 256 (b_test n)) ≡ true
unfolding all_below b_test
table_b = refl

table_f : all_below 4 (λ n. all_below 256 (f_test n)) ≡ true
unfolding all_below f_test
table_f = refl

write_b_entry :
    (n p : ℕ)
    → n < 16
    → p < 256
    → let q = bit_or (bit_and p 0xf0) n in (q % 16 ≡ n) × (q / 16 ≡ p / 16)
unfolding b_test
write_b_entry n p lt h =
    let (t0, t1) = both _ _ (
      all_below_sound 256 (b_test n) p
        (all_below_sound 16 (λ n. all_below 256 (b_test n)) n table_b lt) h) in
    ((==_iff _ _).0 t0, (==_iff _ _).0 t1)

write_b_lem :
    (val p : ℕ) → p < 256 → (write_b val p % 16 ≡ val / 4 % 16) × (write_b val p / 16 ≡ p / 16)
unfolding write_b
write_b_lem val p h = rw (bit_and-low 4 (val / 4)) (write_b_entry (val / 4 % 16) p (omega arith) h)

write_f_entry :
    (n p : ℕ)
    → n < 4
    → p < 256
    → let q = bit_or (bit_or (bit_and p 0xde) (n / 2 * 2 ^ 0)) (n % 2 * 2 ^ 5) in
      (bit 0 q ≡ n / 2) × (bit 5 q ≡ n % 2) × (q / 2 % 16 ≡ p / 2 % 16) × (q / 64 ≡ p / 64)
unfolding f_test
write_f_entry n p lt h =
    let (t0, r0) = both _ _ (
      all_below_sound 256 (f_test n) p
        (all_below_sound 4 (λ n. all_below 256 (f_test n)) n table_f lt) h) in
    let (t1, r1) = both _ _ r0 in
    let (t2, t3) = both _ _ r1 in
    ((==_iff _ _).0 t0, (==_iff _ _).0 t1, (==_iff _ _).0 t2, (==_iff _ _).0 t3)

write_f_lem :
    (val p : ℕ)
    → p < 256
    → let q = write_f val p in
      (bit 0 q ≡ val / 2 % 2) × (bit 5 q ≡ val % 2) × (q / 2 % 16 ≡ p / 2 % 16) × (q / 64 ≡ p / 64)
unfolding write_f
write_f_lem val p h =
    let n : ℕ = val % 4 in
    let high : val / 2 % 2 ≡ n / 2 = omega arith in
    let low : val % 2 ≡ n % 2 = omega arith in
    rw (bit_and-low 1 (val / 2), bit_and-low 1 val, high, low) (write_f_entry n p (omega arith) h)

-- With bytes in the port registers, after `R2R_Write` the six pins of the ladder hold the value
-- modulo 64; the high half of port B and the pins 1 to 4, 6 and 7 of port F are as before, and port
-- D too.
pub write_lem :
    (val : ℕ) (p : Ports)
    → IsPorts p
    → let q = write val p in
      (level q ≡ val % 64)
      × (q.portb / 16 ≡ p.portb / 16)
      × (q.portf / 2 % 16 ≡ p.portf / 2 % 16)
      × (q.portf / 64 ≡ p.portf / 64)
      × (q.portd ≡ p.portd)
unfolding write
write_lem val p v =
    let (b0, b1) = write_b_lem val p.portb v.b in
    let (f0, f1, f2, f3) = write_f_lem val p.portf v.f in (omega arith, b1, f2, f3, refl)
