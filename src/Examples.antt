-- ===== src/Examples.antt =====
-- Data for the witnesses and the tests: each theorem with hypotheses is applied to it once.
pub mod ScanExamples
pub mod AccessExamples
pub mod HidExamples
pub mod LedExamples
pub mod LightExamples
pub mod DeviceExamples
pub mod PortsExamples
pub mod PlayExamples
pub mod UpdateExamples
pub mod HexExamples
pub mod FirmwareExamples
use sphere_ware.Base.{ℕ, ◌+◌, ◌-◌, ◌*◌, ◌/◌, ◌^◌, u8, Bool, true, false, ltb, u16, if◌then◌else◌}
use sphere_ware.Hid.Buffer.{Hid, Message, initial, write_pad_data}
use sphere_ware.Led.Floats.{Floats}
use sphere_ware.Led.Driver.{Driver}
use sphere_ware.Led.Settings.{Led}
use sphere_ware.Scan.Sort.{ScanOrder}
use sphere_ware.Ports.Pins.{Ports}
use sphere_ware.Play.State.{Pads, Round}
use sphere_ware.Device.State.{Device}
use sphere_ware.Base.{[]}

-- Whole numbers in place of floating-point numbers.
abbrev pub floats : Floats
floats = record {
  Float = ℕ;
  of_ℕ = λ n. n;
  of_int16 = λ n. n;
  add = λ a b. a + b;
  sub = λ a b. a - b;
  mul = λ a b. a * b;
  div = λ a b. a / b;
  greater = λ a b. ltb b a;
  to_int16 = λ n. u16 n;
  of_int8 = λ n. n;
  literal = λ m k. m / 10 ^ k;
  to_uint16 = λ n. u16 n;
  to_int8 = λ n. u8 n;
}

abbrev pub note_on : Message
note_on = record { status = 0x90; data1 = 60; data2 = 100 }

abbrev pub clock_tick : Message
clock_tick = record { status = 248; data1 = 0; data2 = 0 }

abbrev pub half_sent : Hid
half_sent = record initial { flip = true }

-- `half_sent` after a press of pad 31.
abbrev pub changed : Hid
changed = write_pad_data 31 301 90 half_sent

abbrev pub driver : Driver
driver = record {
  command_mode = 1;
  red_command = 0;
  green_command = 0;
  blue_command = 0;
  red_setting = 127;
  green_setting = 127;
  blue_setting = 127;
  wires = [];
}

abbrev pub led : Led
led = record {
  mode = 0;
  status = 1;
  pressure_status = 1;
  clock_status = 0;
  clock_running = 0;
  tempo = 120;
  fade_step = 100;
  colour_values = λ colour part. 100 * colour + part;
  static_values = λ part. part;
  driver = driver;
}

abbrev pub device : Device
device = record {
  hid = initial;
  led = led;
  timing_count = 0;
  midi_sent = [];
  hid_sent = [];
  uart_sent = [];
}

abbrev pub ports : Ports
ports = record { portb = 0xa5; portd = 0x5a; portf = 0xf0 }

abbrev pub scan_order : ScanOrder
scan_order = record { r2r_val = λ pad. 40 - pad; pad_order = λ pad. pad }

abbrev pub pads : Pads
pads = record {
  order = scan_order;
  filtered_val = λ _. 0;
  init_val = λ _. 100;
  init_val_se = λ _. 100;
  anti_sticky_applied = λ _. false;
  hysterisis_applied = λ _. false;
  velocity_sent = λ _. false;
  being_played = λ _. false;
  thresholds_raised = false;
  sticky_count = λ _. 0;
  idle_count = 19990;
}

abbrev pub round : Round
round = record { pads = pads; hid = initial; led_sum = 0 }
