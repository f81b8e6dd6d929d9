-- ===== src/Ports/Setup.antt =====
-- SphereWare/SphereWare.c: what SetupHardware makes of the ports, with the initial functions of
-- MUX.c, LED.c, R2R.c and ButtonsAndDials.c in its order. The other initial functions write no port.
use sphere_ware.Base.{ℕ, ◌<◌, bit_or, ◌<<<◌}
use sphere_ware.Ports.Pins.{Ports, IsPorts, not8}
use sphere_ware.Ports.Mux
use sphere_ware.Ports.Ladder

-- The data direction registers and the ports.
pub record Registers : Type 0 where
  pub ddrb : ℕ
  pub ddrc : ℕ
  pub ddrd : ℕ
  pub ddre : ℕ
  pub ddrf : ℕ
  pub portc : ℕ
  pub porte : ℕ
  pub ports : Ports

-- MUX_Init
unfoldable pub mux_init : Registers → Registers
unfolding Mux.init
mux_init r = record r {
  ddrf = bit_or r.ddrf (1 <<< 6);
  ddrd = bit_or r.ddrd (bit_or (bit_or (bit_or (1 <<< 2) (1 <<< 4)) (1 <<< 5)) (1 <<< 7));
  ddrb = bit_or r.ddrb (bit_or (bit_or (bit_or (1 <<< 4) (1 <<< 5)) (1 <<< 6)) (1 <<< 7));
  ports = Mux.init r.ports;
}

-- The pins of LED_Init
unfoldable pub led_init : Registers → Registers
led_init r = record r {
  ddrc = bit_or (bit_or r.ddrc (1 <<< 7)) (1 <<< 6);
  ddre = bit_or r.ddre (1 <<< 6);
  ddrf = bit_or r.ddrf (1 <<< 7);
  porte = bit_or r.porte (not8 (1 <<< 6));
  portc = bit_or r.portc (not8 (1 <<< 6));
}

-- R2R_Init
unfoldable pub r2r_init : Registers → Registers
unfolding Ladder.init Ladder.write Ladder.write_b Ladder.write_f
r2r_init r = record r {
  ddrb = bit_or r.ddrb (bit_or (bit_or (bit_or (1 <<< 0) (1 <<< 1)) (1 <<< 2)) (1 <<< 3));
  ddrf = bit_or r.ddrf (bit_or (1 <<< 0) (1 <<< 5));
  ports = Ladder.init r.ports;
}

-- ButtonsAndDials_Init
unfoldable pub buttons_init : Registers → Registers
buttons_init r = record r {
  ports = record r.ports { portd = bit_or (bit_or (1 <<< 6) (1 <<< 0)) (1 <<< 1) };
}

-- SetupHardware
unfoldable pub setup_hardware : Registers → Registers
unfolding mux_init led_init r2r_init buttons_init
setup_hardware r =
    let q = buttons_init (r2r_init (led_init (mux_init r))) in
    record q { porte = bit_or q.porte (1 <<< 2) }

pub record IsRegisters (r : Registers) : Type 0 where
  pub b : r.ddrb < 256
  pub c : r.ddrc < 256
  pub d : r.ddrd < 256
  pub e : r.ddre < 256
  pub f : r.ddrf < 256
  pub pc : r.portc < 256
  pub pe : r.porte < 256
  pub ports : IsPorts r.ports
