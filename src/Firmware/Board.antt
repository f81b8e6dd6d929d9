-- ===== src/Firmware/Board.antt =====
-- SphereWare/SphereWare.c: the loop of `main` and `ISR(TIMER1_COMPA_vect)`. The interrupt
-- comes between the parts of a round of the main loop: the test of the reset button with the
-- ladder, the controls, which are read with the interrupts disabled, and the pad. A part is not
-- interrupted here.
use sphere_ware.Base.{ℕ, ◌+◌, ◌<◌, ◌≡◌, List, Option, none, some, ◌>>=◌, ltb, if◌then◌else◌}
use sphere_ware.Hid.Buffer.{Message}
use sphere_ware.Hid.MidiQueue.{IsMessage}
use sphere_ware.Led.Floats.{Floats}
use sphere_ware.Led.Settings.{Led}
use sphere_ware.Led.Colour.{set_led}
use sphere_ware.Device.State.{Device, Usb}
use sphere_ware.Device.Midi.{receive_usb_midi}
use sphere_ware.Device.Report.{task}
use sphere_ware.Play.State.{Pads}
use sphere_ware.Play.Standby.{tick}
use sphere_ware.Play.Machine.{Machine, Answers, set_ladder, read_reset, read_controls, read_pad}

-- Where the `for` loop is, with `i` and `pad`; at 48 it has ended.
pub data Phase : Type 0 where
  at_reset : ℕ → Phase
  at_controls at_pad : ℕ → ℕ → Phase

-- The state of the program, and what it has sent.
pub record System : Type 0 where
  pub phase : Phase
  pub machine : Machine
  pub midi_sent : List (List ℕ)
  pub hid_sent : List (List (Option ℕ))
  pub uart_sent : List ℕ

-- What the tasks for the host work on, and the state after them.
abbrev pub device_of : System → Device
device_of s = record {
  hid = s.machine.round.hid;
  led = s.machine.led;
  timing_count = s.machine.timing_count;
  midi_sent = s.midi_sent;
  hid_sent = s.hid_sent;
  uart_sent = s.uart_sent;
}

abbrev pub served : Device → System → System
served d s = record s {
  machine = record s.machine {
    round = record s.machine.round { pads = tick s.machine.round.pads; hid = d.hid };
    led = d.led;
    timing_count = d.timing_count;
  };
  midi_sent = d.midi_sent;
  hid_sent = d.hid_sent;
  uart_sent = d.uart_sent;
}

-- ISR(TIMER1_COMPA_vect)
unfoldable pub interrupt : Floats → Usb → Option Message → System → Option System
interrupt fp usb packet s =
    task fp usb (receive_usb_midi fp packet (device_of s)) >>= λ d. some (served d s)

-- The end of the `while` loop and the start of the next pass.
abbrev pub next_pass : Led → ℕ → Machine → Machine
next_pass l sum m = record m { led = l; prev_led_sum = sum; round = record m.round { led_sum = 0 } }

-- A packet of bytes, if there is one.
abbrev pub AreBytes : Option Message → Type 0
AreBytes none = Unit
AreBytes (some m) = IsMessage m

-- The converter delivers ten bits for a single-ended reading.
pub record IsAnswer (a : Answers) : Type 0 where
  pub reading_small : a.reading < 1024
  pub samples_small : (pad : ℕ) → a.samples_se pad < 1024

-- The next part of the main loop.
unfoldable pub advance_from : Floats → Answers → System → Phase → Option System
advance_from fp a s (at_reset i) =
    let m = s.machine in
    if ltb i 48
    then some (record s {
      phase = at_controls i (m.round.pads.order.pad_order i);
      machine = set_ladder i (read_reset a m);
    })
    else (set_led fp m.timing_count m.prev_led_sum m.round.led_sum m.led >>= λ shown.
        some (record s { phase = at_reset 0; machine = next_pass shown.0 shown.1 m }))
advance_from fp a s (at_controls i pad) = read_controls 5 0 pad a.pind s.machine >>= λ m.
    some (record s { phase = at_pad i pad; machine = m })
advance_from fp a s (at_pad i pad) =
    some (record s { phase = at_reset (i + 1); machine = read_pad a pad s.machine })

abbrev pub advance : Floats → Answers → System → Option System
advance fp a s = advance_from fp a s s.phase

-- The calibrated thresholds: those that the last run of `Calibrate` has left.
pub record Bases : Type 0 where
  pub base : ℕ → ℕ
  pub base_se : ℕ → ℕ

abbrev pub bases_at : Pads → Bases
bases_at p = record { base = p.init_val; base_se = p.init_val_se }

-- They change when the reset button is pressed.
abbrev pub bases_after : Answers → Machine → Phase → Bases → Bases
bases_after a m (at_reset i) b =
    if ltb i 48 then (if a.reset_pressed then bases_at (read_reset a m).round.pads else b) else b
bases_after a m (at_controls i pad) b = b
bases_after a m (at_pad i pad) b = b

pub data Step (fp : Floats) (s : System) (b : Bases) : System → Bases → Type 0 where
  advanced :
      (a : Answers) (t : System)
      → IsAnswer a
      → advance fp a s ≡ some t
      → Step fp s b t (bases_after a s.machine s.phase b)
  interrupted :
      (usb : Usb) (packet : Option Message) (t : System)
      → AreBytes packet
      → interrupt fp usb packet s ≡ some t
      → Step fp s b t b

-- The states that follow, with their calibrated thresholds.
pub data Reach (fp : Floats) (s : System) : System → Bases → Type 0 where
  start : Reach fp s s (bases_at s.machine.round.pads)
  later : {t u : System} {b b' : Bases} → Reach fp s t b → Step fp t b u b' → Reach fp s u b'
