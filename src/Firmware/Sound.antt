-- ===== src/Firmware/Sound.antt =====
-- SphereWare/SphereWare.c: an invariant of the firmware, kept by the main loop and by the timer
-- interrupt, in whatever order they come.
use sphere_ware.Base.{
  ℕ, ◌+◌, ◌*◌, ◌<◌, ◌≤◌, ◌≡◌, inl, inr, ltb, Option, some, >>=-eq-some, arith, ltb→lt, Bool-cases,
}
use sphere_ware.Hid.Buffer.{Message}
use sphere_ware.Led.Floats.{Floats}
use sphere_ware.Led.Settings.{Led}
use sphere_ware.Led.Colour.{set_led}
use sphere_ware.Device.State.{Usb}
use sphere_ware.Device.Midi.{receive_usb_midi}
use sphere_ware.Device.Report.{task}
use sphere_ware.Ports.Pins.{Ports, IsPorts}
use sphere_ware.Play.Machine.{Machine, Answers, read_reset, read_controls, set_ladder, read_pad}
use sphere_ware.Firmware.Board.{
  Phase, at_reset, at_controls, at_pad, System, device_of, served, interrupt, next_pass, AreBytes,
  IsAnswer, advance_from, Step, advanced, interrupted, Bases, bases_at, bases_after, Reach, start,
  later,
}
use sphere_ware.Firmware.Start.{Start, IsStart, start_up, start_up-IsGood}
use sphere_ware.Firmware.Playing.{tick-IsSteady}
use sphere_ware.Firmware.Serving.{receive_usb_midi-IsQueue, task-IsQueue}
use sphere_ware.Firmware.Rounds.{
  IsGood, read_reset-IsGood, set_ladder-IsGood, read_controls-IsGood, read_pad-IsGood,
  read_reset-led_sum, read_controls-led_sum, read_pad-led_sum,
}

-- The loop is at an entry of `pad_order`, for one of the pads.
abbrev pub InTurn : Phase → Type 0
InTurn (at_reset i) = i ≤ 48
InTurn (at_controls i pad) = (i < 48) × (pad < 48)
InTurn (at_pad i pad) = (i < 48) × (pad < 48)

-- How many pads this pass has read.
abbrev pub visited : Phase → ℕ
visited (at_reset i) = i
visited (at_controls i pad) = i
visited (at_pad i pad) = i

pub record IsSound (b : Bases) (s : System) : Type 0 where
  pub good : IsGood b.base b.base_se s.machine
  pub turn : InTurn s.phase
  pub sum : s.machine.round.led_sum ≤ 511 * visited s.phase

next_pass-IsGood :
    (base base_se : ℕ → ℕ) (l : Led) (sum : ℕ) (m : Machine)
    → IsGood base base_se m
    → IsGood base base_se (next_pass l sum m)
next_pass-IsGood base base_se l sum m v = record {
  queue = v.queue;
  steady = v.steady;
  ports = v.ports;
}

interrupt-IsSound :
    (fp : Floats) (usb : Usb) (packet : Option Message) (b : Bases) (s t : System)
    → AreBytes packet
    → IsSound b s
    → interrupt fp usb packet s ≡ some t
    → IsSound b t
unfolding interrupt
interrupt-IsSound fp usb packet b s t bytes v e =
    let d0 = receive_usb_midi fp packet (device_of s) in
    let (d, run, rest) = >>=-eq-some (task fp usb d0) (λ d. some (served d s)) e in
    let received = receive_usb_midi-IsQueue fp packet (device_of s) bytes v.good.queue in
    let same : t ≡ served d s = cc in
    rw same (record {
      good = record {
        queue = task-IsQueue fp usb d0 d received run;
        steady = tick-IsSteady b.base b.base_se s.machine.round.pads v.good.steady;
        ports = v.good.ports;
      };
      turn = v.turn;
      sum = v.sum;
    })

advance-IsSound :
    (fp : Floats) (a : Answers) (b : Bases) (s t : System) (p : Phase)
    → IsAnswer a
    → IsSound b s
    → InTurn p
    → s.machine.round.led_sum ≤ 511 * visited p
    → advance_from fp a s p ≡ some t
    → IsSound (bases_after a s.machine p b) t
unfolding advance_from set_ladder
advance-IsSound fp a b s t (at_reset i) bits v turn sum e = elim (Bool-cases (ltb i 48)) [
  | inl more ↦
      let reset = read_reset-IsGood b a s.machine bits v.good in
      let e' = rw more at e in
      let same : t ≡ record s {
        phase = at_controls i (s.machine.round.pads.order.pad_order i);
        machine = set_ladder i (read_reset a s.machine);
      } =
        cc in
      rw (same, more)
        (record {
          good = set_ladder-IsGood _ _ i (read_reset a s.machine) reset;
          turn = (ltb→lt i 48 more, v.good.steady.in_range i (ltb→lt i 48 more));
          sum = omega (arith, read_reset-led_sum a s.machine);
        })
  | inr ended ↦
      let m = s.machine in
      let lit = set_led fp m.timing_count m.prev_led_sum m.round.led_sum m.led in
      let (shown, set, rest) =
        >>=-eq-some lit
          (λ shown. some (record s { phase = at_reset 0; machine = next_pass shown.0 shown.1 m }))
          (rw ended at e) in
      let same : t ≡ record s { phase = at_reset 0; machine = next_pass shown.0 shown.1 m } = cc in
      rw (same, ended)
        (record {
          good = next_pass-IsGood b.base b.base_se shown.0 shown.1 m v.good;
          turn = omega arith;
          sum = omega arith;
        })
]
advance-IsSound fp a b s t (at_controls i pad) bits v turn sum e =
    let (m, read, rest) =
      >>=-eq-some (read_controls 5 0 pad a.pind s.machine)
        (λ m. some (record s { phase = at_pad i pad; machine = m })) e in
    let same : t ≡ record s { phase = at_pad i pad; machine = m } = cc in
    rw same (record {
      good =
          read_controls-IsGood b.base b.base_se 5 0 pad a.pind s.machine m turn.1 (omega arith)
            v.good read;
      turn = turn;
      sum = omega (arith, read_controls-led_sum 5 0 pad a.pind s.machine m read);
    })
advance-IsSound fp a b s t (at_pad i pad) bits v turn sum e =
    let same : t ≡ record s { phase = at_reset (i + 1); machine = read_pad a pad s.machine } = cc in
    let good = read_pad-IsGood b.base b.base_se a pad s.machine bits turn.1 v.good in
    rw same (record {
      good = good;
      turn = omega (arith, turn.0);
      sum = omega (arith, read_pad-led_sum b.base b.base_se a pad s.machine good);
    })

Step-IsSound :
    {fp : Floats} {s t : System} {b b' : Bases} → Step fp s b t b' → IsSound b s → IsSound b' t
Step-IsSound {fp} {s} {b} (advanced a t bits e) v =
    advance-IsSound fp a b s t s.phase bits v v.turn v.sum e
Step-IsSound {fp} {s} {b} (interrupted usb packet t bytes e) v =
    interrupt-IsSound fp usb packet b s t bytes v e

start_up-IsSound :
    (fp : Floats) (a : Start) (ports : Ports) (led : Led) (s : System)
    → IsStart a
    → IsPorts ports
    → start_up fp a ports led ≡ some s
    → IsSound (bases_at s.machine.round.pads) s
start_up-IsSound fp a ports led s v bytes e =
    let (good, phase, sum) = start_up-IsGood fp a ports led s v bytes e in
    record { good = good; turn = rw phase (omega arith); sum = rw sum (omega arith) }

-- After the start of `main` on an elite unit, with at most 20000 timer interrupts before its loop,
-- with readings of ten bits for the single-ended pads and bytes in the ports, whatever the main loop
-- reads, and whenever the timer interrupt comes between the parts of its rounds, with any MIDI
-- packets of bytes and any reports from the host that it handles: the report has its 127
-- bytes and a queue of at most seven MIDI messages, counted in byte 100; all filtered values fit
-- into nine bits; `pad_order` holds pads, each once; the ports are bytes; the threshold of each pad
-- is the one that the last calibration left with the adjustments of the flags that are set, so that
-- it does not drift; and the loop is at one of its 48 entries, with a sum of the pressures of at
-- most 511 for each pad that the pass has read.
pub Reach-IsSound :
    (fp : Floats) (a : Start) (ports : Ports) (led : Led) (first s : System) (b : Bases)
    → IsStart a
    → IsPorts ports
    → start_up fp a ports led ≡ some first
    → Reach fp first s b
    → IsSound b s
Reach-IsSound fp a ports led first s b v bytes e start =
    start_up-IsSound fp a ports led first v bytes e
Reach-IsSound fp a ports led first s b v bytes e (later {t} {b = b0} r step) =
    Step-IsSound step (Reach-IsSound fp a ports led first t b0 v bytes e r)
