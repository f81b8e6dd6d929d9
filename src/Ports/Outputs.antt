-- ===== src/Ports/Outputs.antt =====
-- SphereWare/SphereWare.c: the pins after SetupHardware, from tables over all bytes.
use sphere_ware.Base.{
  ℕ, ◌+◌, ◌<◌, ◌≡◌, Bool, true, ◌&&◌, ◌||◌, leb, ltb, ◌==◌, ==_iff, both, if◌then◌else◌, arith,
  refl,
}
use sphere_ware.Base.Bits.{all_below, all_below_sound}
use sphere_ware.Ports.Pins.{IsPorts, bit}
use sphere_ware.Ports.Ladder.{level}
use sphere_ware.Ports.Mux.{inhibit_line}
use sphere_ware.Ports.Setup.{Registers, IsRegisters, setup_hardware}

-- Each register after the setup depends on the same register before it.
abbrev low : Registers
low = record {
  ddrb = 0;
  ddrc = 0;
  ddrd = 0;
  ddre = 0;
  ddrf = 0;
  portc = 0;
  porte = 0;
  ports = record { portb = 0; portd = 0; portf = 0 };
}

ddrb_test : ℕ → ℕ → Bool
ddrb_test k x = bit k (setup_hardware (record low { ddrb = x })).ddrb == (1)

table_ddrb : all_below 8 (λ k. all_below 256 (ddrb_test k)) ≡ true
unfolding all_below ddrb_test setup_hardware
table_ddrb = refl

ddrc_test : ℕ → ℕ → Bool
ddrc_test k x =
    bit k (setup_hardware (record low { ddrc = x })).ddrc == (if leb 6 k then 1 else bit k x)

table_ddrc : all_below 8 (λ k. all_below 256 (ddrc_test k)) ≡ true
unfolding all_below ddrc_test setup_hardware
table_ddrc = refl

ddrd_test : ℕ → ℕ → Bool
ddrd_test k x =
    bit k (setup_hardware (record low { ddrd = x })).ddrd
    == (if (k == 2) || ((k == 4) || ((k == 5) || (k == 7))) then 1 else bit k x)

table_ddrd : all_below 8 (λ k. all_below 256 (ddrd_test k)) ≡ true
unfolding all_below ddrd_test setup_hardware
table_ddrd = refl

ddre_test : ℕ → ℕ → Bool
ddre_test k x =
    bit k (setup_hardware (record low { ddre = x })).ddre == (if k == 6 then 1 else bit k x)

table_ddre : all_below 8 (λ k. all_below 256 (ddre_test k)) ≡ true
unfolding all_below ddre_test setup_hardware
table_ddre = refl

ddrf_test : ℕ → ℕ → Bool
ddrf_test k x =
    bit k (setup_hardware (record low { ddrf = x })).ddrf
    == (if (k == 0) || ((k == 5) || ((k == 6) || (k == 7))) then 1 else bit k x)

table_ddrf : all_below 8 (λ k. all_below 256 (ddrf_test k)) ≡ true
unfolding all_below ddrf_test setup_hardware
table_ddrf = refl

portc_test : ℕ → ℕ → Bool
portc_test k x =
    bit k (setup_hardware (record low { portc = x })).portc == (if k == 6 then bit k x else 1)

table_portc : all_below 8 (λ k. all_below 256 (portc_test k)) ≡ true
unfolding all_below portc_test setup_hardware
table_portc = refl

porte_test : ℕ → ℕ → Bool
porte_test k x =
    bit k (setup_hardware (record low { porte = x })).porte == (if k == 6 then bit k x else 1)

table_porte : all_below 8 (λ k. all_below 256 (porte_test k)) ≡ true
unfolding all_below porte_test setup_hardware
table_porte = refl

-- The pins of portb and portf together: the ladder on 0, and the inhibit lines on them.
portb_test : ℕ → Bool
portb_test x =
    (setup_hardware (record low { ports = record low.ports { portb = x } })).ports.portb == 240

table_portb : all_below 256 portb_test ≡ true
unfolding all_below portb_test setup_hardware
table_portb = refl

portf_test : ℕ → Bool
portf_test x =
    let q = (setup_hardware (record low { ports = record low.ports { portf = x } })).ports.portf in
    (bit 0 q == 0) && ((bit 5 q == 0) && ((bit 6 q == 1) && ltb q 256))

table_portf : all_below 256 portf_test ≡ true
unfolding all_below portf_test setup_hardware
table_portf = refl

holds : {a b : ℕ} → (a == b) ≡ true → a ≡ b
holds e = (==_iff _ _).0 e

known :
    (t : ℕ → ℕ → Bool)
    → all_below 8 (λ k. all_below 256 (t k)) ≡ true
    → (k x : ℕ) → k < 8
    → x < 256
    → t k x ≡ true
known t h k x hk hx =
    all_below_sound 256 (t k) x (all_below_sound 8 (λ k. all_below 256 (t k)) k h hk) hx

setup_portb : (r : Registers) → r.ports.portb < 256 → (setup_hardware r).ports.portb ≡ 240
unfolding portb_test setup_hardware
setup_portb r h = holds (all_below_sound 256 portb_test r.ports.portb table_portb h)

setup_portf :
    (r : Registers)
    → r.ports.portf < 256
    → let q = (setup_hardware r).ports.portf in
      (bit 0 q ≡ 0) × (bit 5 q ≡ 0) × (bit 6 q ≡ 1) × (ltb q 256 ≡ true)
unfolding portf_test setup_hardware
setup_portf r h =
    let (t0, r0) = both _ _ (all_below_sound 256 portf_test r.ports.portf table_portf h) in
    let (t1, r1) = both _ _ r0 in let (t2, t3) = both _ _ r1 in (holds t0, holds t1, holds t2, t3)

high_test : ℕ → Bool
high_test k = bit k 240 == (if leb 4 k then 1 else 0)

table_high : all_below 8 high_test ≡ true
unfolding all_below high_test
table_high = refl

high : (k : ℕ) → k < 8 → bit k 240 ≡ (if leb 4 k then 1 else 0)
unfolding high_test
high k h = holds (all_below_sound 8 high_test k table_high h)

setup_inhibit :
    (r : Registers) (i : ℕ)
    → r.ports.portb < 256
    → r.ports.portf < 256
    → i < 6
    → inhibit_line i (setup_hardware r).ports ≡ (if i == 1 then 0 else 1)
setup_inhibit r i hb hf hi =
    let portd : (setup_hardware r).ports.portd ≡ 67 = unfold setup_hardware in refl in
    rw (setup_portb r hb, portd) (ground (arith, high (i + 2) (omega arith), (setup_portf r hf).2))

-- From any levels and directions of the pins, after SetupHardware: every pin of port B is an output,
-- and so are the pins that drive the multiplexers, the ladder and the LED on the other ports; the
-- direction of any other pin is as before. The ladder has 0 on it. All multiplexers are inhibited but
-- the second one, whose line ButtonsAndDials_Init pulls down again. On the ports C and E every pin is
-- high but the enabling and the latch of the LED, which are as before.
pub setup_hardware_lem :
    (r : Registers) (k i : ℕ)
    → IsRegisters r
    → k < 8
    → i < 6
    → let q = setup_hardware r in
      (bit k q.ddrb ≡ 1)
      × (bit k q.ddrc ≡ (if leb 6 k then 1 else bit k r.ddrc))
      × (bit k q.ddrd
          ≡ (if (k == 2) || ((k == 4) || ((k == 5) || (k == 7))) then 1 else bit k r.ddrd))
      × (bit k q.ddre ≡ (if k == 6 then 1 else bit k r.ddre))
      × (bit k q.ddrf
          ≡ (if (k == 0) || ((k == 5) || ((k == 6) || (k == 7))) then 1 else bit k r.ddrf))
      × (bit k q.portc ≡ (if k == 6 then bit k r.portc else 1))
      × (bit k q.porte ≡ (if k == 6 then bit k r.porte else 1))
      × (level q.ports ≡ 0)
      × (inhibit_line i q.ports ≡ (if i == 1 then 0 else 1))
      × IsPorts q.ports
unfolding setup_hardware ddrb_test ddrc_test ddrd_test ddre_test ddrf_test portc_test porte_test
setup_hardware_lem r k i v hk hi =
    let b = setup_portb r v.ports.b in
    let f = setup_portf r v.ports.f in
    (
      holds (known ddrb_test table_ddrb k r.ddrb hk v.b),
      holds (known ddrc_test table_ddrc k r.ddrc hk v.c),
      holds (known ddrd_test table_ddrd k r.ddrd hk v.d),
      holds (known ddre_test table_ddre k r.ddre hk v.e),
      holds (known ddrf_test table_ddrf k r.ddrf hk v.f),
      holds (known portc_test table_portc k r.portc hk v.pc),
      holds (known porte_test table_porte k r.porte hk v.pe),
      ground (arith, b, f.0, f.1),
      setup_inhibit r i v.ports.b v.ports.f hi,
      record { b = omega (arith, b); d = omega arith; f = ground (arith, f.3) },
    )
