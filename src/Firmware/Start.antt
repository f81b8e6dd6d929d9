-- ===== src/Firmware/Start.antt =====
-- SphereWare/SphereWare.c: `main` up to its loop. LED_SendPacket enables the interrupts in the first
-- LED_Set_Colour, so that the timer interrupt also comes before the detection of the elite controls
-- and before `Calibrate`; one that comes inside of `Calibrate` is taken to come before it.
use sphere_ware.Base.{
  ℕ, suc, ◌+◌, ◌≤◌, ◌<◌, ◌≡◌, false, List, [], ◌∷◌, length, Option, none, some, ◌>>=◌, >>=-eq-some,
  arith, refl,
}
use sphere_ware.Hid.Buffer.{Message, initial}
use sphere_ware.Hid.MidiQueue.{IsQueue}
use sphere_ware.Led.Floats.{Floats}
use sphere_ware.Led.Settings.{Led}
use sphere_ware.Device.State.{Usb}
use sphere_ware.Device.Midi.{receive_usb_midi}
use sphere_ware.Device.Report.{task}
use sphere_ware.Ports.Pins.{Ports, IsPorts}
use sphere_ware.Ports.Mux.{select}
use sphere_ware.Ports.Range.{select-IsPorts}
use sphere_ware.Ports.Buttons.{Controls, buttons_read}
use sphere_ware.Play.State.{Pads}
use sphere_ware.Play.Calibrate.{calibrate}
use sphere_ware.Play.Standby.{tick}
use sphere_ware.Firmware.Board.{at_reset, System, device_of, served, interrupt, AreBytes, bases_at}
use sphere_ware.Firmware.Calibrated.{IsAwake, calibrate-IsSteady, calibrate-IsQueue}
use sphere_ware.Firmware.Controls.{buttons_read-IsQueue}
use sphere_ware.Firmware.Serving.{receive_usb_midi-IsQueue, task-IsQueue}
use sphere_ware.Firmware.Rounds.{IsGood}

-- The globals at the start.
abbrev pub zero_pads : Pads
zero_pads = record {
  order = record { r2r_val = λ _. 0; pad_order = λ _. 0 };
  filtered_val = λ _. 0;
  init_val = λ _. 0;
  init_val_se = λ _. 0;
  anti_sticky_applied = λ _. false;
  hysterisis_applied = λ _. false;
  velocity_sent = λ _. false;
  being_played = λ _. false;
  thresholds_raised = false;
  sticky_count = λ _. 0;
  idle_count = 0;
}

-- The state when the interrupts are enabled for the first time, with the ports and the LED that
-- SetupHardware and the first colour have left. The phase is that of the loop, which follows.
abbrev pub powered : Ports → Led → System
powered ports led = record {
  phase = at_reset 0;
  machine = record {
    round = record { pads = zero_pads; hid = initial; led_sum = 0 };
    ports = ports;
    buttons = 0;
    dial_state = λ _. 0;
    led = led;
    prev_led_sum = 0;
    timing_count = 0;
  };
  midi_sent = [];
  hid_sent = [];
  uart_sent = [];
}

-- Timer interrupts in a row, with what each of them finds.
unfoldable pub interrupts : Floats → List (Usb × Option Message) → System → Option System
interrupts fp [] s = some s
interrupts fp ((usb, packet) ∷ rest) s = interrupt fp usb packet s >>= interrupts fp rest

-- `ButtonsAndDials_Read(5, NULL)`
abbrev undetected : System → Controls
undetected s = record {
  buttons = s.machine.buttons;
  dial_state = s.machine.dial_state;
  hid = s.machine.round.hid;
  being_played = none;
}

abbrev with_controls : System → Controls → System
with_controls s c = record s {
  machine = record s.machine {
    ports = select 5 s.machine.ports;
    buttons = c.buttons;
    dial_state = c.dial_state;
    round = record s.machine.round { hid = c.hid };
  };
}

-- The detection of the elite controls.
unfoldable pub detect : ℕ → System → Option System
detect pind s = buttons_read 5 pind (undetected s) >>= λ c. some (with_controls s c)

-- `Calibrate`, and the start of the loop.
unfoldable pub enabled : (ℕ → ℕ → ℕ) → (ℕ → ℕ) → System → System
enabled samples samples_se s =
    let after = calibrate samples samples_se s.machine.round.pads s.machine.round.hid in
    record s {
      machine = record s.machine { round = record { pads = after.0; hid = after.1; led_sum = 0 } };
    }

-- What the start meets: the interrupts before the detection, the pins at the detection, the
-- interrupts before `Calibrate`, and the readings of the pads.
pub record Start : Type 0 where
  pub before : List (Usb × Option Message)
  pub pind : ℕ
  pub between : List (Usb × Option Message)
  pub samples : ℕ → ℕ → ℕ
  pub samples_se : ℕ → ℕ

-- `main` up to its loop: `none` if the elite controls are missing, where it writes through a null
-- pointer.
unfoldable pub start_up : Floats → Start → Ports → Led → Option System
start_up fp a ports led = interrupts fp a.before (powered ports led) >>= λ s.
    detect a.pind s >>= λ t.
    interrupts fp a.between t >>= λ u. some (enabled a.samples a.samples_se u)

abbrev pub AllBytes : List (Usb × Option Message) → Type 0
AllBytes [] = Unit
AllBytes ((usb, packet) ∷ rest) = AreBytes packet × AllBytes rest

-- Packets of bytes, readings of ten bits, and no more interrupts than the standby mode waits for.
pub record IsStart (a : Start) : Type 0 where
  pub bytes_before : AllBytes a.before
  pub bytes_between : AllBytes a.between
  pub few : length a.before + length a.between ≤ 20000
  pub samples_small : (pad : ℕ) → a.samples_se pad < 1024

-- What holds before the loop, after `n` interrupts.
record IsEarly (n : ℕ) (s : System) : Type 0 where
  queue : IsQueue s.machine.round.hid
  ports : IsPorts s.machine.ports
  awake : IsAwake s.machine.round.pads
  count : s.machine.round.pads.idle_count ≤ n
  unstarted : s.phase ≡ at_reset 0

tick-IsAwake :
    (p : Pads)
    → p.idle_count < 20000
    → IsAwake p
    → IsAwake (tick p) × ((tick p).idle_count ≤ p.idle_count + 1)
unfolding tick
tick-IsAwake p few v = (
  record { low = ground (arith, v.low); patterns = λ q h. ground (arith, v.low, v.patterns q h) },
  ground (arith, v.low),
)

interrupt-IsEarly :
    (fp : Floats) (usb : Usb) (packet : Option Message) (n : ℕ) (s t : System)
    → n < 20000
    → AreBytes packet
    → IsEarly n s
    → interrupt fp usb packet s ≡ some t
    → IsEarly (suc n) t
unfolding interrupt
interrupt-IsEarly fp usb packet n s t few bytes v e =
    let d0 = receive_usb_midi fp packet (device_of s) in
    let (d, run, rest) = >>=-eq-some (task fp usb d0) (λ d. some (served d s)) e in
    let received = receive_usb_midi-IsQueue fp packet (device_of s) bytes v.queue in
    let same : t ≡ served d s = cc in
    let (awake, count) = tick-IsAwake s.machine.round.pads (omega (arith, v.count)) v.awake in
    rw same (record {
      queue = task-IsQueue fp usb d0 d received run;
      ports = v.ports;
      awake = awake;
      count = omega (arith, count, v.count);
      unstarted = v.unstarted;
    })

interrupts-IsEarly :
    (fp : Floats) (xs : List (Usb × Option Message)) (n : ℕ) (s t : System)
    → n + length xs ≤ 20000
    → AllBytes xs
    → IsEarly n s
    → interrupts fp xs s ≡ some t
    → IsEarly (n + length xs) t
unfolding interrupts
interrupts-IsEarly fp [] n s t few bytes v e =
    let same : t ≡ s = cc in
    rw same (record {
      queue = v.queue;
      ports = v.ports;
      awake = v.awake;
      count = omega (arith, v.count);
      unstarted = v.unstarted;
    })
interrupts-IsEarly fp ((usb, packet) ∷ rest) n s t few bytes v e =
    let (u, now, later) = >>=-eq-some (interrupt fp usb packet s) (interrupts fp rest) e in
    let w =
      interrupts-IsEarly fp rest (suc n) u t (omega arith) bytes.1
        (interrupt-IsEarly fp usb packet n s u (omega arith) bytes.0 v now) later in
    record {
      queue = w.queue;
      ports = w.ports;
      awake = w.awake;
      count = omega (arith, w.count);
      unstarted = w.unstarted;
    }

detect-IsEarly : (pind n : ℕ) (s t : System) → IsEarly n s → detect pind s ≡ some t → IsEarly n t
unfolding detect
detect-IsEarly pind n s t v e =
    let (c, read, rest) =
      >>=-eq-some (buttons_read 5 pind (undetected s)) (λ c. some (with_controls s c)) e in
    let same : t ≡ with_controls s c = cc in
    rw same (record {
      queue = buttons_read-IsQueue 5 pind (undetected s) c v.queue read;
      ports = select-IsPorts 5 s.machine.ports (omega arith) v.ports;
      awake = v.awake;
      count = v.count;
      unstarted = v.unstarted;
    })

-- The state at the start of the loop.
pub start_up-IsGood :
    (fp : Floats) (a : Start) (ports : Ports) (led : Led) (s : System)
    → IsStart a
    → IsPorts ports
    → start_up fp a ports led ≡ some s
    → let b = bases_at s.machine.round.pads in
      IsGood b.base b.base_se s.machine × (s.phase ≡ at_reset 0) × (s.machine.round.led_sum ≡ 0)
unfolding start_up enabled
start_up-IsGood fp a ports led s v bytes e =
    let empty : IsQueue initial = record { whole = refl; counted = refl; few = omega arith } in
    let zero : IsEarly 0 (powered ports led) = record {
      queue = empty;
      ports = bytes;
      awake = record { low = refl; patterns = λ q h. omega arith };
      count = omega arith;
      unstarted = refl;
    } in
    let (s1, e1, r1) = >>=-eq-some (interrupts fp a.before (powered ports led)) _ e in
    let (s2, e2, r2) = >>=-eq-some (detect a.pind s1) _ r1 in
    let (s3, e3, r3) = >>=-eq-some (interrupts fp a.between s2) _ r2 in
    let v1 =
      interrupts-IsEarly fp a.before 0 (powered ports led) s1 (omega (arith, v.few)) v.bytes_before
        zero e1 in
    let v3 =
      interrupts-IsEarly fp a.between _ s2 s3 (omega (arith, v.few)) v.bytes_between
        (detect-IsEarly a.pind _ s1 s2 v1 e2) e3 in
    let same : s ≡ enabled a.samples a.samples_se s3 = unfold enabled in cc in
    let m = s3.machine in
    rw same (
      record {
        queue = calibrate-IsQueue a.samples a.samples_se m.round.pads m.round.hid v3.queue;
        steady =
            calibrate-IsSteady a.samples a.samples_se m.round.pads m.round.hid v.samples_small
              v3.awake;
        ports = v3.ports;
      },
      v3.unstarted,
      refl,
    )
