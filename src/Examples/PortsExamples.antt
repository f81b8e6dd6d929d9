-- ===== src/Examples/PortsExamples.antt =====
-- Witnesses for SphereWare/MUX.c, R2R.c, ADC.c and ButtonsAndDials.c.
use sphere_ware.Base.{[], ◌∷◌, some}
use sphere_ware.Hid.Buffer.{byte_at}
use sphere_ware.Ports.Converter.{Converter, set_channel, init}
use sphere_ware.Ports.Selected.{Holds, set_channels, set_channel_lem}
use sphere_ware.Ports.Presses.{sw2, flag_at, buttons_read_button}
use sphere_ware.Base.{ℕ, ◌%◌, ◌≡◌, Bool, true, false, none, refl, arith, add16, inl, inr}
use sphere_ware.Hid.Buffer.{Hid, initial, adjust_dial}
use sphere_ware.Ports.Pins.{IsPorts, bit}
use sphere_ware.Ports.Mux.{select, select_frame, inhibit_line}
use sphere_ware.Ports.Ladder.{level}
use sphere_ware.Ports.Setup.{Registers, IsRegisters, setup_hardware}
use sphere_ware.Ports.Outputs.{setup_hardware_lem}
use sphere_ware.Ports.Converter.{mode_code, diff_1_x10, result, ten_bits, differential, result_lem}
use sphere_ware.Ports.Encoder.{encoder_read, encoder_read_lem, history, pins_of}
use sphere_ware.Ports.Buttons.{Controls, buttons_read}
use sphere_ware.Examples.{ports}

ports-IsPorts : IsPorts ports
ports-IsPorts = record { b = omega arith; d = omega arith; f = omega arith }

select_frame_example :
    let q = select 13 ports in
    (q.portb % 16 ≡ 5)
    × (bit 0 q.portd ≡ 0)
    × (bit 1 q.portd ≡ 1)
    × (bit 3 q.portd ≡ 1)
    × (bit 6 q.portd ≡ 1)
    × (q.portf % 64 ≡ 48)
    × (bit 7 q.portf ≡ 0)
select_frame_example = select_frame 13 ports (omega arith) ports-IsPorts

result_example : result (mode_code diff_1_x10) 0 2 ≡ add16 (ten_bits 512) 1
unfolding differential
result_example = result_lem diff_1_x10 0 2 (omega arith) (omega arith)

-- The positions 3 and 1 were seen, and now the pins are low.
abbrev dial_states : ℕ → ℕ
dial_states _ = 13

encoder_read_example :
    let (dials, h', turned) = encoder_read 0 0 dial_states initial false in
    (history (dials 0) ≡ record { oldest = 3; middle = 1; newest = 0 })
    × (◌≡◌ {A = Hid × Bool} (h', turned) (adjust_dial 0 255 initial, true))
unfolding pins_of
encoder_read_example = encoder_read_lem 0 0 dial_states initial false (omega arith) (omega arith)

abbrev controls : Controls
controls = record { buttons = 0; dial_state = λ _. 0; hid = initial; being_played = none }

abbrev converter : Converter
converter = record { admux = 0x20; adcsra = 0; adcsrb = 7; prev_chan = 0; prev_mode = 0 }

set_channel_example :
    Holds 0b101100 1
      (set_channel 0b101100 1 (set_channels ((0b101100, 0) ∷ (0b000001, 1) ∷ []) (init converter)))
set_channel_example =
    set_channel_lem ((0b101100, 0) ∷ (0b000001, 1) ∷ []) 0b101100 1 converter
      (inl (omega arith, refl, omega arith), (inr (refl, omega arith), tt))
      (omega arith, refl, omega arith) (omega arith) (omega arith)

-- SW2 is pressed on an elite unit.
abbrev elite_controls : Controls
elite_controls = record {
  buttons = 1;
  dial_state = λ _. 0;
  hid = initial;
  being_played = some (λ _. false);
}

buttons_read_button_example :
    (c' : Controls) × (buttons_read 1 0 elite_controls ≡ some c')
    × (c'.buttons ≡ 9)
    × (byte_at c'.hid 97 ≡ c'.buttons)
    × (flag_at c' 1 ≡ true)
buttons_read_button_example =
    buttons_read_button sw2 1 0 elite_controls (λ _. false) 1 refl refl (omega arith) refl

-- Registers before the setup.
abbrev reset : Registers
reset = record {
  ddrb = 0;
  ddrc = 0;
  ddrd = 0;
  ddre = 0;
  ddrf = 0;
  portc = 0;
  porte = 0;
  ports = ports;
}

reset-IsRegisters : IsRegisters reset
reset-IsRegisters = record {
  b = omega arith;
  c = omega arith;
  d = omega arith;
  e = omega arith;
  f = omega arith;
  pc = omega arith;
  pe = omega arith;
  ports = record { b = omega arith; d = omega arith; f = omega arith };
}

setup_hardware_example :
    let q = setup_hardware reset in
    (bit 6 q.ddrb ≡ 1)
    × (bit 6 q.ddrc ≡ 1)
    × (bit 6 q.ddrd ≡ bit 6 reset.ddrd)
    × (bit 6 q.ddre ≡ 1)
    × (bit 6 q.ddrf ≡ 1)
    × (bit 6 q.portc ≡ bit 6 reset.portc)
    × (bit 6 q.porte ≡ bit 6 reset.porte)
    × (level q.ports ≡ 0)
    × (inhibit_line 1 q.ports ≡ 0)
    × IsPorts q.ports
setup_hardware_example = setup_hardware_lem reset 6 1 reset-IsRegisters (omega arith) (omega arith)
