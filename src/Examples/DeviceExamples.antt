-- ===== src/Examples/DeviceExamples.antt =====
-- Witnesses for SphereWare/GenericHID.c and SphereWare/MIDI.c, the messages of the host.
use sphere_ware.Base.{
  ℕ, ◌≡◌, true, List, ◌∷◌, some, refl, arith, replicate, get_or, ◌==◌, ◌&&◌, leb,
}
use sphere_ware.Device.State.{Device}
use sphere_ware.Device.Report.{
  process_report, process_messages, process_message, timing_message, process_timing,
}
use sphere_ware.Device.Overrun.{process_report_lem}
use sphere_ware.Led.Pressure.{is_none}
use sphere_ware.Examples.{floats, device}

-- A report with one timing message, and one that announces 33 messages.
abbrev timing_report : List ℕ
timing_report = 1 ∷ 1 ∷ 5 ∷ 1 ∷ 120 ∷ 0 ∷ replicate 121 0

abbrev long_report : List ℕ
long_report = 1 ∷ 33 ∷ replicate 125 0

process_report_example :
    is_none (process_report floats true long_report device)
    ≡ (get_or long_report 0 0 == 1) && leb 33 (get_or long_report 1 0)
process_report_example = process_report_lem floats true long_report refl device (omega arith)

-- What the report makes of the device.
abbrev timed : Device
timed = record device {
  led = record device.led { clock_running = 1; fade_step = 100; tempo = 120 };
}

timing_report_test : process_report floats true timing_report device ≡ some timed
unfolding process_report process_messages process_message timing_message process_timing
timing_report_test = refl
