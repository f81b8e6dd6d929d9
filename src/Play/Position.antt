-- ===== src/Play/Position.antt =====
-- SphereWare/SphereWare.c: what the ladder and the multiplexers are set to when the main loop reads
-- a pad.
use sphere_ware.Base.{
  ℕ, zero, suc, ◌+◌, ◌/◌, ◌%◌, ◌<◌, ◌≤◌, ◌≡◌, Bool, true, ltb, ◌==◌, if◌then◌else◌, bit_and, bit_or,
  some, arith, refl, ◌∙◌, ltb→lt,
}
use sphere_ware.Base.Bits.{all_below, all_below_sound}
use sphere_ware.Ports.Pins.{Ports, IsPorts}
use sphere_ware.Ports.Mux.{select, select_lem, select_frame, address, inhibit_line}
use sphere_ware.Ports.Ladder.{write, write_lem, level}
use sphere_ware.Ports.Range.{select-IsPorts, write-IsPorts}
use sphere_ware.Ports.Live.{buttons_read-live}
use sphere_ware.Play.Machine.{
  Machine, Answers, controls_of, restore, read_reset, read_controls, visit,
}

-- A selection leaves the ladder alone.
select-level :
    (channel : ℕ) (p : Ports) → channel < 48 → IsPorts p → level (select channel p) ≡ level p
select-level channel p h v = let f = select_frame channel p h v in ground (arith, f.0, f.5)

control_test : ℕ → ℕ → Bool
control_test pad i = ltb (bit_or i (bit_and pad 0b111111000)) 48

control_table : all_below 48 (λ pad. all_below 5 (control_test pad)) ≡ true
unfolding all_below control_test
control_table = refl

pub control_channel : (pad i : ℕ) → pad < 48 → i < 5 → bit_or i (bit_and pad 0b111111000) < 48
unfolding control_test
control_channel pad i hp hi = ltb→lt _ 48 (
    all_below_sound 5 (control_test pad) i
      (all_below_sound 48 (λ pad. all_below 5 (control_test pad)) pad control_table hp) hi)

pub read_controls-level :
    (left i pad : ℕ) (pind : ℕ → ℕ) (m : Machine)
    → pad < 48
    → i + left ≤ 5
    → IsPorts m.ports
    → (m' : Machine) × (read_controls left i pad pind m ≡ some m')
      × IsPorts m'.ports
      × (level m'.ports ≡ level m.ports)
unfolding read_controls
read_controls-level zero i pad pind m hp few v = (m, refl, v, refl)
read_controls-level (suc left) i pad pind m hp few v =
    let channel = bit_or i (bit_and pad 0b111111000) in
    let small = control_channel pad i hp (omega arith) in
    let m1 = record m { ports = select channel m.ports } in
    let (c, e, live) = buttons_read-live i (pind i) (controls_of m1) (λ bad. cc) in
    let (m', e', v', same) =
      read_controls-level left (i + 1) pad pind (restore c m1) hp (omega arith)
        (select-IsPorts channel m.ports small v) in
    rw e (m', e', v', same ∙ select-level channel m.ports small v)

read_reset-ports : (a : Answers) (m : Machine) → (read_reset a m).ports ≡ m.ports
unfolding read_reset
read_reset-ports a m = ground arith

-- With bytes in the port registers, a round of the main loop for one of the 48 pads never fails. It
-- leaves in the ladder the value of the entry modulo 64, as it is after the test of the reset
-- button, and the multiplexers with the pad selected: the address lines hold the pad modulo 8, and
-- only the multiplexer with the number of the pad divided by 8 is enabled.
pub visit_position :
    (a : Answers) (i j : ℕ) (m : Machine)
    → m.round.pads.order.pad_order i < 48
    → j < 6
    → IsPorts m.ports
    → let pad = m.round.pads.order.pad_order i in
      (m' : Machine) × (visit a i m ≡ some m')
      × (level m'.ports ≡ (read_reset a m).round.pads.order.r2r_val i % 64)
      × (address m'.ports ≡ pad % 8)
      × (inhibit_line j m'.ports ≡ (if pad / 8 == j then 0 else 1))
unfolding visit
visit_position a i j m hp hj v =
    let pad = m.round.pads.order.pad_order i in
    let m1 = read_reset a m in
    let val = m1.round.pads.order.r2r_val i in
    let v1 : IsPorts m1.ports = rw (read_reset-ports a m) v in
    let m2 = record m1 { ports = write val m1.ports } in
    let (m3, e, v3, same) =
      read_controls-level 5 0 pad a.pind m2 hp (omega arith) (write-IsPorts val m1.ports v1) in
    let s = select_lem pad j m3.ports hp hj v3 in
    rw e (_, refl, select-level pad m3.ports hp v3 ∙ same ∙ (write_lem val m1.ports v1).0, s.0, s.1)
