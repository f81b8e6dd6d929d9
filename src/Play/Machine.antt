-- ===== src/Play/Machine.antt =====
-- SphereWare/SphereWare.c: a round of the `for` loop of `main`, and a pass of its `while` loop. The
-- interrupt does not come between the steps here. What the pins and the converter answer is an
-- argument. The wait for the release of the reset button is left out, and so are the writes to the
-- ports during `Calibrate`: the ladder and the channel are written again right after it.
use sphere_ware.Base.{
  ℕ, zero, suc, ◌+◌, ◌-◌, Bool, true, false, not, ◌&&◌, ltb, ◌==◌, if◌then◌else◌, update, List,
  bit_and, bit_or, Option, none, some, ◌>>=◌,
}
use sphere_ware.Led.Floats.{Floats}
use sphere_ware.Led.Settings.{Led}
use sphere_ware.Led.Colour.{set_led}
use sphere_ware.Ports.Pins.{Ports}
use sphere_ware.Ports.Mux.{select}
use sphere_ware.Ports.Ladder.{write}
use sphere_ware.Ports.Buttons.{Controls, buttons_read}
use sphere_ware.Play.State.{Pads, Round}
use sphere_ware.Play.Press.{process_pad, process_pad_se}
use sphere_ware.Play.Calibrate.{calibrate}

-- What the main loop works on.
pub record Machine : Type 0 where
  pub round : Round
  pub ports : Ports
  pub buttons : ℕ
  pub dial_state : ℕ → ℕ
  pub led : Led
  pub prev_led_sum : ℕ
  pub timing_count : ℕ

-- What the hardware answers in a round: whether PE2 is low, the readings of a calibration, the
-- register PIND on each of the five reads of a control, and the readings of the pad.
pub record Answers : Type 0 where
  pub reset_pressed : Bool
  pub samples : ℕ → ℕ → ℕ
  pub samples_se : ℕ → ℕ
  pub pind : ℕ → ℕ
  pub reading : ℕ
  pub readings : List ℕ

-- Delay: the time in microseconds. `LED_Clock_Status` and `LED_Clock_Running` are those of the LED.
unfoldable pub delay : ℕ → Bool → Led → ℕ
delay pad raised l =
    let fading = not (l.clock_status == 0) && not (l.clock_running == 0) in
    if ltb pad 40
    then (if raised then (if fading then 300 else 1000) else 300)
    else (if raised then (if fading then 300 else 2000) else 300)

-- The pointer `&being_played[LAST_PAD+1]`: the flags from 48 on are those of the controls.
abbrev pub controls_of : Machine → Controls
controls_of m = record {
  buttons = m.buttons;
  dial_state = m.dial_state;
  hid = m.round.hid;
  being_played = some (λ k. m.round.pads.being_played (48 + k));
}

abbrev pub with_flags : Option (ℕ → Bool) → Pads → Pads
with_flags none p = p
with_flags (some flags) p = record p {
  being_played = λ k. if ltb k 48 then p.being_played k else flags (k - 48);
}

abbrev pub restore : Controls → Machine → Machine
restore c m = record m {
  buttons = c.buttons;
  dial_state = c.dial_state;
  round = record m.round { pads = with_flags c.being_played m.round.pads; hid = c.hid };
}

-- The test of the reset button.
unfoldable pub read_reset : Answers → Machine → Machine
read_reset a m =
    let p = m.round.pads in
    if a.reset_pressed
    then (let p1 = record p {
      being_played = update p.being_played 53 true;
      thresholds_raised = false;
    } in
        let (p2, h) = calibrate a.samples a.samples_se p1 m.round.hid in
        record m { round = record m.round { pads = p2; hid = h } })
    else record m {
      round = record m.round { pads = record p { being_played = update p.being_played 53 false } };
    }

-- The loop over the elite controls, with the rounds that are left and `i`.
unfoldable pub read_controls : ℕ → ℕ → ℕ → (ℕ → ℕ) → Machine → Option Machine
read_controls zero i pad pind m = some m
read_controls (suc left) i pad pind m =
    let m1 = record m { ports = select (bit_or i (bit_and pad 0b111111000)) m.ports } in
    buttons_read i (pind i) (controls_of m1) >>= λ c.
    read_controls left (i + 1) pad pind (restore c m1)

-- `R2R_Write(r2r_val[i])`
unfoldable pub set_ladder : ℕ → Machine → Machine
set_ladder i m = record m { ports = write (m.round.pads.order.r2r_val i) m.ports }

-- The selection of the pad and what its readings do.
unfoldable pub read_pad : Answers → ℕ → Machine → Machine
read_pad a pad m = record m {
  ports = select pad m.ports;
  round =
      if ltb pad 40
      then process_pad pad a.reading a.readings m.round
      else process_pad_se pad a.reading m.round;
}

-- A round of the `for` loop. `pad` is read before a calibration, `r2r_val[i]` after it.
unfoldable pub visit : Answers → ℕ → Machine → Option Machine
unfolding set_ladder read_pad
visit a i m =
    let pad = m.round.pads.order.pad_order i in
    read_controls 5 0 pad a.pind (set_ladder i (read_reset a m)) >>= λ m3. some (read_pad a pad m3)

-- The `for` loop, with the rounds that are left and `i`.
unfoldable pub visits : ℕ → ℕ → (ℕ → Answers) → Machine → Option Machine
visits zero i answers m = some m
visits (suc left) i answers m = visit (answers i) i m >>= λ m1. visits left (i + 1) answers m1

-- A pass of the `while` loop.
unfoldable pub pass : Floats → (ℕ → Answers) → Machine → Option Machine
pass fp answers m =
    visits 48 0 answers (record m { round = record m.round { led_sum = 0 } }) >>= λ m1.
    set_led fp m1.timing_count m1.prev_led_sum m1.round.led_sum m1.led >>= λ shown.
    some (record m1 { led = shown.0; prev_led_sum = shown.1 })
