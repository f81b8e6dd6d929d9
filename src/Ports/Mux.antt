-- ===== src/Ports/Mux.antt =====
-- SphereWare/MUX.c: the analogue multiplexers. Six of them share the address lines PD2, PD4 and
-- PD5, and each has an inhibit line of its own, which is active high: PF6, PD7 and PB4 to PB7.
use sphere_ware.Base.{
  ℕ, ◌+◌, ◌*◌, ◌/◌, ◌%◌, ◌<◌, ◌≡◌, Bool, true, ◌&&◌, ◌==◌, ==_iff, both, zero, suc, if◌then◌else◌,
  u8, arith, refl, bit_and, bit_or, ◌<<<◌, ◌>>>◌,
}
use sphere_ware.Base.Bits.{all_below, all_below_sound}
use sphere_ware.Ports.Pins.{Ports, IsPorts, bit, not8}

-- The registers of MUX_Init; the data direction registers are left out.
unfoldable pub init : Ports → Ports
init p = record {
  portb = bit_or p.portb (bit_or (bit_or (bit_or (1 <<< 4) (1 <<< 5)) (1 <<< 6)) (1 <<< 7));
  portd = bit_or p.portd (1 <<< 7);
  portf = bit_or p.portf (1 <<< 6);
}

-- The three registers of MUX_Select, each with all writes to it in order.
unfoldable pub select_d : ℕ → ℕ → ℕ
select_d channel portd =
    let inhibit = u8 (1 <<< (channel >>> 3)) in
    let d1 = bit_and portd (bit_and (bit_and (not8 (1 <<< 2)) (not8 (1 <<< 4))) (not8 (1 <<< 5))) in
    let d2 = bit_or d1 (
      bit_or (bit_or (bit_and channel 1 <<< 2) (bit_and (channel >>> 1) 1 <<< 4))
        (bit_and (channel >>> 2) 1 <<< 5)) in
    let d3 = bit_or d2 (1 <<< 7) in bit_and d3 (not8 ((inhibit >>> 1) <<< 7))

unfoldable pub select_f : ℕ → ℕ → ℕ
select_f channel portf =
    let inhibit = u8 (1 <<< (channel >>> 3)) in
    let f1 = bit_or portf (1 <<< 6) in bit_and f1 (not8 (inhibit <<< 6))

unfoldable pub select_b : ℕ → ℕ → ℕ
select_b channel portb =
    let inhibit = u8 (1 <<< (channel >>> 3)) in
    let b1 = bit_or portb (bit_or (bit_or (bit_or (1 <<< 4) (1 <<< 5)) (1 <<< 6)) (1 <<< 7)) in
    bit_and b1 (
      bit_and
        (bit_and (bit_and (not8 ((inhibit >>> 2) <<< 4)) (not8 ((inhibit >>> 3) <<< 5)))
          (not8 ((inhibit >>> 4) <<< 6)))
        (not8 ((inhibit >>> 5) <<< 7)))

-- MUX_Select
unfoldable pub select : ℕ → Ports → Ports
select channel p = record {
  portb = select_b channel p.portb;
  portd = select_d channel p.portd;
  portf = select_f channel p.portf;
}

-- The address on the lines, and the level of each inhibit line.
abbrev pub address : Ports → ℕ
address p = bit 2 p.portd + 2 * bit 4 p.portd + 4 * bit 5 p.portd

abbrev pub inhibit_line : ℕ → Ports → ℕ
inhibit_line i p =
    if i == 0 then bit 6 p.portf else if i == 1 then bit 7 p.portd else bit (i + 2) p.portb

-- What each register is to be, as tests that the tables check for every byte.
d_test : ℕ → ℕ → Bool
d_test c p =
    let q = select_d c p in
    (bit 2 q + 2 * bit 4 q + 4 * bit 5 q == (c % 8))
    && ((bit 7 q == (if c / 8 == 1 then 0 else 1))
        && ((bit 0 q == bit 0 p)
            && ((bit 1 q == bit 1 p) && ((bit 3 q == bit 3 p) && (bit 6 q == bit 6 p)))))

f_test : ℕ → ℕ → Bool
f_test c p =
    let q = select_f c p in
    (bit 6 q == (if c / 8 == 0 then 0 else 1))
    && ((bit 7 q == (if c / 8 == 1 then 0 else bit 7 p)) && (q % 64 == p % 64))

b_test : ℕ → ℕ → Bool
b_test c p =
    let q = select_b c p in
    (bit 4 q == (if c / 8 == 2 then 0 else 1))
    && ((bit 5 q == (if c / 8 == 3 then 0 else 1))
        && ((bit 6 q == (if c / 8 == 4 then 0 else 1))
            && ((bit 7 q == (if c / 8 == 5 then 0 else 1)) && (q % 16 == p % 16))))

table_d : all_below 48 (λ c. all_below 256 (d_test c)) ≡ true
unfolding all_below d_test select_d
table_d = refl

table_f : all_below 48 (λ c. all_below 256 (f_test c)) ≡ true
unfolding all_below f_test select_f
table_f = refl

table_b : all_below 48 (λ c. all_below 256 (b_test c)) ≡ true
unfolding all_below b_test select_b
table_b = refl

pub from_table :
    (t : ℕ → ℕ → Bool)
    → all_below 48 (λ c. all_below 256 (t c)) ≡ true
    → (c p : ℕ) → c < 48
    → p < 256
    → t c p ≡ true
from_table t h c p hc hp =
    all_below_sound 256 (t c) p (all_below_sound 48 (λ c. all_below 256 (t c)) c h hc) hp

select_d_lem :
    (c p : ℕ)
    → c < 48
    → p < 256
    → let q = select_d c p in
      (bit 2 q + 2 * bit 4 q + 4 * bit 5 q ≡ c % 8)
      × (bit 7 q ≡ (if c / 8 == 1 then 0 else 1))
      × (bit 0 q ≡ bit 0 p)
      × (bit 1 q ≡ bit 1 p)
      × (bit 3 q ≡ bit 3 p)
      × (bit 6 q ≡ bit 6 p)
unfolding d_test
select_d_lem c p hc hp =
    let (t0, r0) = both _ _ (from_table d_test table_d c p hc hp) in
    let (t1, r1) = both _ _ r0 in
    let (t2, r2) = both _ _ r1 in
    let (t3, r3) = both _ _ r2 in
    let (t4, t5) = both _ _ r3 in
    (
      (==_iff _ _).0 t0,
      (==_iff _ _).0 t1,
      (==_iff _ _).0 t2,
      (==_iff _ _).0 t3,
      (==_iff _ _).0 t4,
      (==_iff _ _).0 t5,
    )

select_f_lem :
    (c p : ℕ)
    → c < 48
    → p < 256
    → let q = select_f c p in
      (bit 6 q ≡ (if c / 8 == 0 then 0 else 1))
      × (bit 7 q ≡ (if c / 8 == 1 then 0 else bit 7 p))
      × (q % 64 ≡ p % 64)
unfolding f_test
select_f_lem c p hc hp =
    let (t0, r0) = both _ _ (from_table f_test table_f c p hc hp) in
    let (t1, t2) = both _ _ r0 in ((==_iff _ _).0 t0, (==_iff _ _).0 t1, (==_iff _ _).0 t2)

select_b_lem :
    (c p : ℕ)
    → c < 48
    → p < 256
    → let q = select_b c p in
      (bit 4 q ≡ (if c / 8 == 2 then 0 else 1))
      × (bit 5 q ≡ (if c / 8 == 3 then 0 else 1))
      × (bit 6 q ≡ (if c / 8 == 4 then 0 else 1))
      × (bit 7 q ≡ (if c / 8 == 5 then 0 else 1))
      × (q % 16 ≡ p % 16)
unfolding b_test
select_b_lem c p hc hp =
    let (t0, r0) = both _ _ (from_table b_test table_b c p hc hp) in
    let (t1, r1) = both _ _ r0 in
    let (t2, r2) = both _ _ r1 in
    let (t3, t4) = both _ _ r2 in
    ((==_iff _ _).0 t0, (==_iff _ _).0 t1, (==_iff _ _).0 t2, (==_iff _ _).0 t3, (==_iff _ _).0 t4)

inhibit_lines :
    (channel : ℕ) (p : Ports)
    → channel < 48
    → IsPorts p
    → (i : ℕ) → i < 6
    → inhibit_line i (select channel p) ≡ (if channel / 8 == i then 0 else 1)
unfolding select
inhibit_lines channel p h v zero lt = (select_f_lem channel p.portf h v.f).0
inhibit_lines channel p h v (suc zero) lt = (select_d_lem channel p.portd h v.d).1
inhibit_lines channel p h v (suc (suc zero)) lt = (select_b_lem channel p.portb h v.b).0
inhibit_lines channel p h v (suc (suc (suc zero))) lt = (select_b_lem channel p.portb h v.b).1
inhibit_lines channel p h v (suc (suc (suc (suc zero)))) lt = (select_b_lem channel p.portb h v.b).2
inhibit_lines channel p h v (suc (suc (suc (suc (suc zero))))) lt =
    (select_b_lem channel p.portb h v.b).3
inhibit_lines channel p h v (suc (suc (suc (suc (suc (suc i)))))) lt = absurd (omega arith)

-- With bytes in the port registers, after `MUX_Select` of one of the 48 channels the address lines
-- hold the channel modulo 8. Exactly one multiplexer is enabled: inhibit line `i` is low for `i`
-- the channel divided by 8, and high for the five others.
pub select_lem :
    (channel i : ℕ) (p : Ports)
    → channel < 48
    → i < 6
    → IsPorts p
    → (address (select channel p) ≡ channel % 8)
      × (inhibit_line i (select channel p) ≡ (if channel / 8 == i then 0 else 1))
unfolding select
select_lem channel i p h lt v =
    ((select_d_lem channel p.portd h v.d).0, inhibit_lines channel p h v i lt)

-- With bytes in the port registers, `MUX_Select` of one of the 48 channels leaves the low half of
-- port B, the pins 0, 1, 3 and 6 of port D and the low six pins of port F as they are. Pin 7 of
-- port F, the data line of the LED, it leaves too, but for the channels 8 to 15, where it clears
-- that pin.
pub select_frame :
    (channel : ℕ) (p : Ports)
    → channel < 48
    → IsPorts p
    → let q = select channel p in
      (q.portb % 16 ≡ p.portb % 16)
      × (bit 0 q.portd ≡ bit 0 p.portd)
      × (bit 1 q.portd ≡ bit 1 p.portd)
      × (bit 3 q.portd ≡ bit 3 p.portd)
      × (bit 6 q.portd ≡ bit 6 p.portd)
      × (q.portf % 64 ≡ p.portf % 64)
      × (bit 7 q.portf ≡ (if channel / 8 == 1 then 0 else bit 7 p.portf))
unfolding select
select_frame channel p h v =
    let d = select_d_lem channel p.portd h v.d in
    let f = select_f_lem channel p.portf h v.f in
    ((select_b_lem channel p.portb h v.b).4, d.2, d.3, d.4, d.5, f.2, f.1)
