-- ===== src/Examples/PlayExamples.antt =====
-- Witnesses for SphereWare/SphereWare.c, the pads.
use sphere_ware.Base.{biased, get_or, ltb, if◌then◌else◌, ◌/◌, [], ◌∷◌}
use sphere_ware.Hid.Pads.{value_of, velocity_of}
use sphere_ware.Play.State.{Round}
use sphere_ware.Play.Press.{hit, process_pad_se}
use sphere_ware.Play.Peak.{depth, IsAttained, hit_velocity}
use sphere_ware.Firmware.Single.{process_pad_se_host}
use sphere_ware.Base.{
  ℕ, ◌+◌, ◌<◌, ◌≤◌, ◌≡◌, ◌==◌, true, false, [], refl, arith, neg16, minus16, ltb, if◌then◌else◌,
}
use sphere_ware.Hid.Buffer.{initial}
use sphere_ware.Hid.Pads.{value_of, velocity_of}
use sphere_ware.Play.State.{Pads}
use sphere_ware.Play.Press.{process_pad}
use sphere_ware.Play.Levels.{IsLevel, process_pad_host}
use sphere_ware.Play.Standby.{ticks, ticks_idle}
use sphere_ware.Play.Balance.{IsBalanced}
use sphere_ware.Play.Calibrate.{calibrate, in_reach}
use sphere_ware.Play.Visits.{calibrate_visits}
use sphere_ware.Base.{some, ◌%◌}
use sphere_ware.Ports.Pins.{IsPorts}
use sphere_ware.Ports.Mux.{address, inhibit_line}
use sphere_ware.Ports.Ladder.{level}
use sphere_ware.Play.Machine.{Machine, Answers, read_reset, visit}
use sphere_ware.Play.Position.{visit_position}
use sphere_ware.Examples.{pads, round, ports, led}

round-IsLevel : IsLevel round
round-IsLevel = record { whole = refl; fits = λ q. omega arith }

-- A reading of -200, which is beyond the threshold of 100.
abbrev pressing : ℕ
pressing = minus16 200

process_pad_example :
    let r = process_pad 3 pressing [] round in
    (value_of r.hid 3 ≡ r.pads.filtered_val 3) × (velocity_of r.hid 3 ≡ r.pads.filtered_val 3)
process_pad_example = process_pad_host 3 pressing [] round round-IsLevel (omega arith)

pads-IsBalanced : IsBalanced (λ _. 100) pads
pads-IsBalanced q h = refl

ticks_idle_example :
    ((ticks 11 pads).init_val 47 ≡ (pads.init_val 47 + 100) % 65536)
    × ((ticks 11 pads).thresholds_raised ≡ true)
ticks_idle_example =
    ticks_idle 11 pads 47 (λ i h. refl) refl (omega arith) (omega arith) (omega arith)

abbrev played : Pads
played = record pads { thresholds_raised = true; being_played = λ _. true }

calibrate_visits_example :
    let s = (calibrate (λ pad i. i + pad) (λ pad. pad) pads initial).0.order in
    ((k : ℕ) × (k < 48) × (s.pad_order k ≡ 30))
    × ((s.pad_order 4 == s.pad_order 44) ≡ false)
    × (s.r2r_val 2 ≤ s.r2r_val 39)
calibrate_visits_example =
    calibrate_visits (λ pad i. i + pad) (λ pad. pad) pads initial 30 4 44 2 39 (omega arith)
      (omega arith) (omega arith) (omega arith) (omega arith)

-- The readings fall from 500 to 300 at the ladder value 2.
abbrev sample : ℕ → ℕ
sample i = if ltb i 2 then 500 else 300

before : (j : ℕ) → 0 ≤ j → j < 2 → in_reach (neg16 (sample j)) ≡ false
before j low high = ground arith

abbrev machine : Machine
machine = record {
  round = round;
  ports = ports;
  buttons = 1;
  dial_state = λ _. 0;
  led = led;
  prev_led_sum = 0;
  timing_count = 0;
}

abbrev answers : Answers
answers = record {
  reset_pressed = false;
  samples = λ pad i. 0;
  samples_se = λ pad. 0;
  pind = λ i. 64;
  reading = pressing;
  readings = [];
}

ports-IsPorts : IsPorts machine.ports
ports-IsPorts = record { b = omega arith; d = omega arith; f = omega arith }

visit_position_example :
    (m' : Machine) × (visit answers 21 machine ≡ some m')
    × (level m'.ports ≡ (read_reset answers machine).round.pads.order.r2r_val 21 % 64)
    × (address m'.ports ≡ 5)
    × (inhibit_line 2 m'.ports ≡ 0)
visit_position_example =
    visit_position answers 21 2 machine (omega arith) (omega arith) ports-IsPorts

-- A single-ended pad whose reading is 60 below the calibrated one, which is 500.
abbrev round_se : Round
round_se = record round { pads = record pads { init_val_se = λ _. 460 } }

process_pad_se_host_example :
    let r' = process_pad_se 41 440 round_se in
    (r'.pads.hysterisis_applied 41 ≡ true)
    × (r'.pads.being_played 41 ≡ true)
    × (r'.pads.init_val_se 41 ≡ 470)
    × (value_of r'.hid 41 ≡ 20)
    × (velocity_of r'.hid 41 ≡ 127)
process_pad_se_host_example =
    process_pad_se_host 500 41 440 round_se (omega arith) (omega arith) (omega arith) refl refl
      (omega arith)

hit_velocity_example :
    (peak : ℕ) × ((hit 3 50 (65200 ∷ 65300 ∷ []) round).pads.filtered_val 3
      ≡ (if ltb 127 (peak / 2) then 127 else peak / 2))
    × IsAttained 100 50 (65200 ∷ 65300 ∷ []) peak
    × (biased 50 ≤ biased peak)
    × ((k : ℕ) → k < 2 → biased (depth 100 (get_or (65200 ∷ 65300 ∷ []) k 0)) ≤ biased peak)
hit_velocity_example = hit_velocity 3 50 (65200 ∷ 65300 ∷ []) round
