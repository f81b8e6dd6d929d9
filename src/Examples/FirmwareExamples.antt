-- ===== src/Examples/FirmwareExamples.antt =====
-- Witnesses for the main loop with the timer interrupt.
use sphere_ware.Base.{true, ◌==◌}
use sphere_ware.Play.State.{Pads}
use sphere_ware.Play.Standby.{tick, any_from}
use sphere_ware.Firmware.Race.{adjust, torn_adjust, torn_adjust_lem}
use sphere_ware.Examples.{pads}
use sphere_ware.Base.{◌≡◌, false, some, none, [], ◌∷◌, refl, arith}
use sphere_ware.Hid.Buffer.{initial, write_button_data}
use sphere_ware.Ports.Pins.{IsPorts}
use sphere_ware.Ports.Buttons.{buttons_read}
use sphere_ware.Play.Machine.{Answers, set_ladder, read_reset}
use sphere_ware.Firmware.Board.{
  at_controls, System, IsAnswer, advance_from, advanced, interrupt, Bases, bases_at, Reach, start,
  later,
}
use sphere_ware.Device.State.{Usb}
use sphere_ware.Device.Midi.{receive_usb_midi}
use sphere_ware.Device.Report.{task}
use sphere_ware.Ports.Mux.{select}
use sphere_ware.Firmware.Start.{
  Start, IsStart, zero_pads, powered, interrupts, detect, enabled, start_up,
}
use sphere_ware.Firmware.Sound.{IsSound, Reach-IsSound}
use sphere_ware.Examples.{floats, led, ports}

abbrev quiet : Answers
quiet = record {
  reset_pressed = false;
  samples = λ pad i. 0;
  samples_se = λ pad. 500;
  pind = λ i. 0;
  reading = 0;
  readings = [];
}

quiet-IsAnswer : IsAnswer quiet
quiet-IsAnswer = record { reading_small = omega arith; samples_small = λ pad. omega arith }

-- PD6 is low: an elite unit. One interrupt comes before the detection and one after it, while the
-- USB interface is not configured.
abbrev unconfigured : Usb
unconfigured = record {
  configured = false;
  in_ready = false;
  out_received = false;
  read_write_allowed = false;
  report = [];
}

abbrev begin : Start
begin = record {
  before = (unconfigured, none) ∷ [];
  pind = 0;
  between = (unconfigured, none) ∷ [];
  samples = λ pad i. 0;
  samples_se = λ pad. 500;
}

begin-IsStart : IsStart begin
begin-IsStart = record {
  bytes_before = (tt, tt);
  bytes_between = (tt, tt);
  few = omega arith;
  samples_small = λ pad. omega arith;
}

-- The state before the calibration.
abbrev early : System
early = record (powered ports led) {
  machine = record (powered ports led).machine {
    round = record {
      pads = record zero_pads { idle_count = 2 };
      hid = write_button_data 0xff initial;
      led_sum = 0;
    };
    ports = select 5 ports;
    buttons = 1;
  };
}

abbrev begun : System
begun = enabled begin.samples begin.samples_se early

begin_test : start_up floats begin ports led ≡ some begun
unfolding start_up interrupts interrupt detect buttons_read task receive_usb_midi tick any_from
begin_test = refl

ports-IsPorts : IsPorts ports
ports-IsPorts = record { b = omega arith; d = omega arith; f = omega arith }

-- The state after the first part of the main loop.
abbrev first_part : System
first_part = record begun {
  phase = at_controls 0 (begun.machine.round.pads.order.pad_order 0);
  machine = set_ladder 0 (read_reset quiet begun.machine);
}

abbrev bases : Bases
bases = bases_at begun.machine.round.pads

first_part_reached : Reach floats begun first_part bases
unfolding advance_from enabled
first_part_reached = later start (advanced quiet first_part quiet-IsAnswer refl)

Reach-IsSound_example : IsSound bases first_part
Reach-IsSound_example =
    Reach-IsSound floats begin ports led begun first_part bases begin-IsStart ports-IsPorts
      begin_test first_part_reached

-- Pad 3 is hit in standby.
abbrev woken : Pads
woken = record pads { being_played = λ k. k == 3; thresholds_raised = true }

torn_adjust_example :
    ((tick (adjust 3 woken)).init_val 3 ≡ 65501)
    × ((adjust 3 (tick woken)).init_val 3 ≡ 65501)
    × ((torn_adjust 3 woken).thresholds_raised ≡ false)
    × ((torn_adjust 3 woken).init_val 3 ≡ 65)
torn_adjust_example = torn_adjust_lem 3 3 woken (omega arith) (omega arith) refl refl
