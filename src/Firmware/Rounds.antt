-- ===== src/Firmware/Rounds.antt =====
-- SphereWare/SphereWare.c: what each part of a round of the main loop keeps.
use sphere_ware.Base.{
  if◌then◌else◌, ℕ, zero, suc, ◌+◌, ◌<◌, ◌≤◌, ◌≡◌, Bool, true, false, update, bit_and, bit_or,
  Option, none, some, >>=-eq-some, arith, refl, ap, Bool-cases, inl, inr, ltb, lt→ltb, dec_lt,
}
use sphere_ware.Hid.MidiQueue.{IsQueue}
use sphere_ware.Ports.Pins.{IsPorts}
use sphere_ware.Ports.Mux.{select}
use sphere_ware.Ports.Buttons.{buttons_read}
use sphere_ware.Ports.Range.{select-IsPorts, write-IsPorts}
use sphere_ware.Play.State.{Pads}
use sphere_ware.Play.Position.{control_channel}
use sphere_ware.Play.Machine.{
  Machine, Answers, controls_of, with_flags, restore, set_ladder, read_reset, read_controls,
  read_pad,
}
use sphere_ware.Firmware.Board.{IsAnswer, Bases, bases_at}
use sphere_ware.Firmware.Controls.{buttons_read-IsQueue}
use sphere_ware.Firmware.Calibrated.{IsAwake, calibrate-IsSteady, calibrate-IsQueue}
use sphere_ware.Firmware.Playing.{
  IsSteady, process_pad-IsSteady, process_pad-IsQueue, process_pad_se-IsSteady,
  process_pad_se-IsQueue, process_pad-led_sum, process_pad_se-led_sum,
}

-- The report holds a queue, the pads are steady and the ports are bytes.
pub record IsGood (base base_se : ℕ → ℕ) (m : Machine) : Type 0 where
  pub queue : IsQueue m.round.hid
  pub steady : IsSteady base base_se m.round.pads
  pub ports : IsPorts m.ports

flags-IsSteady :
    (base base_se : ℕ → ℕ) (flags : ℕ → Bool) (p : Pads)
    → IsSteady base base_se p
    → IsSteady base base_se (record p { being_played = flags })
flags-IsSteady base base_se flags p v = record {
  fits = v.fits;
  in_range = v.in_range;
  distinct = v.distinct;
  balanced = v.balanced;
  balanced_se = v.balanced_se;
}

with_flags-IsSteady :
    (base base_se : ℕ → ℕ) (o : Option (ℕ → Bool)) (p : Pads)
    → IsSteady base base_se p
    → IsSteady base base_se (with_flags o p)
with_flags-IsSteady base base_se none p v = v
with_flags-IsSteady base base_se (some flags) p v = flags-IsSteady base base_se _ p v

pub read_reset-IsGood :
    (b : Bases) (a : Answers) (m : Machine)
    → IsAnswer a
    → IsGood b.base b.base_se m
    → let b' = if a.reset_pressed then bases_at (read_reset a m).round.pads else b in
      IsGood b'.base b'.base_se (read_reset a m)
unfolding read_reset
read_reset-IsGood b a m bits v = elim (Bool-cases a.reset_pressed) [
  | inl pressed ↦
      let p1 = record m.round.pads {
        being_played = update m.round.pads.being_played 53 true;
        thresholds_raised = false;
      } in
      let awake : IsAwake p1 = record {
        low = refl;
        patterns = λ q h. omega (arith, v.steady.balanced q h);
      } in
      rw pressed (record {
        queue = calibrate-IsQueue a.samples a.samples_se p1 m.round.hid v.queue;
        steady = calibrate-IsSteady a.samples a.samples_se p1 m.round.hid bits.samples_small awake;
        ports = v.ports;
      })
  | inr free ↦ rw free (record {
    queue = v.queue;
    steady = flags-IsSteady b.base b.base_se _ m.round.pads v.steady;
    ports = v.ports;
  })
]

pub set_ladder-IsGood :
    (base base_se : ℕ → ℕ) (i : ℕ) (m : Machine)
    → IsGood base base_se m
    → IsGood base base_se (set_ladder i m)
unfolding set_ladder
set_ladder-IsGood base base_se i m v = record {
  queue = v.queue;
  steady = v.steady;
  ports = write-IsPorts _ m.ports v.ports;
}

pub read_controls-IsGood :
    (base base_se : ℕ → ℕ) (left i pad : ℕ) (pind : ℕ → ℕ) (m m' : Machine)
    → pad < 48
    → i + left ≤ 5
    → IsGood base base_se m
    → read_controls left i pad pind m ≡ some m'
    → IsGood base base_se m'
unfolding read_controls
read_controls-IsGood base base_se zero i pad pind m m' lt few v e =
    let same : m' ≡ m = cc in rw same v
read_controls-IsGood base base_se (suc left) i pad pind m m' lt few v e =
    let channel = bit_or i (bit_and pad 0b111111000) in
    let m1 = record m { ports = select channel m.ports } in
    let (c, read, rest) = >>=-eq-some (buttons_read i (pind i) (controls_of m1)) _ e in
    let small = control_channel pad i lt (omega arith) in
    let v1 : IsGood base base_se (restore c m1) = record {
      queue = buttons_read-IsQueue i (pind i) (controls_of m1) c v.queue read;
      steady = with_flags-IsSteady base base_se c.being_played m.round.pads v.steady;
      ports = select-IsPorts channel m.ports small v.ports;
    } in
    read_controls-IsGood base base_se left (i + 1) pad pind (restore c m1) m' lt (omega arith) v1
      rest

pub read_pad-IsGood :
    (base base_se : ℕ → ℕ) (a : Answers) (pad : ℕ) (m : Machine)
    → IsAnswer a
    → pad < 48
    → IsGood base base_se m
    → IsGood base base_se (read_pad a pad m)
unfolding read_pad
read_pad-IsGood base base_se a pad m bits lt v = elim (dec_lt pad 40) [
  | yes low ↦ rw (lt→ltb pad 40 low) (record {
    queue = process_pad-IsQueue pad a.reading a.readings m.round lt v.queue;
    steady =
        process_pad-IsSteady base base_se pad a.reading a.readings m.round v.queue.whole v.steady;
    ports = select-IsPorts pad m.ports lt v.ports;
  })
  | no high ↦
      let off : ltb pad 40 ≡ false = ground arith in
      rw off (record {
        queue = process_pad_se-IsQueue pad a.reading m.round lt v.queue;
        steady =
            process_pad_se-IsSteady base base_se pad a.reading m.round (omega arith) lt
              bits.reading_small v.steady;
        ports = select-IsPorts pad m.ports lt v.ports;
      })
]

pub read_reset-led_sum :
    (a : Answers) (m : Machine) → (read_reset a m).round.led_sum ≡ m.round.led_sum
unfolding read_reset
read_reset-led_sum a m = ground arith

pub read_controls-led_sum :
    (left i pad : ℕ) (pind : ℕ → ℕ) (m m' : Machine)
    → read_controls left i pad pind m ≡ some m'
    → m'.round.led_sum ≡ m.round.led_sum
unfolding read_controls
read_controls-led_sum zero i pad pind m m' e =
    let same : m' ≡ m = cc in ap (λ (x : Machine). x.round.led_sum) same
read_controls-led_sum (suc left) i pad pind m m' e =
    let channel = bit_or i (bit_and pad 0b111111000) in
    let m1 = record m { ports = select channel m.ports } in
    let (c, read, rest) = >>=-eq-some (buttons_read i (pind i) (controls_of m1)) _ e in
    read_controls-led_sum left (i + 1) pad pind (restore c m1) m' rest

pub read_pad-led_sum :
    (base base_se : ℕ → ℕ) (a : Answers) (pad : ℕ) (m : Machine)
    → IsGood base base_se (read_pad a pad m)
    → (read_pad a pad m).round.led_sum ≤ m.round.led_sum + 511
unfolding read_pad
read_pad-led_sum base base_se a pad m v = elim (dec_lt pad 40) [
  | yes low ↦
      let on = lt→ltb pad 40 low in
      rw on (process_pad-led_sum pad a.reading a.readings m.round (rw on at (v.steady.fits pad)))
  | no high ↦
      let off : ltb pad 40 ≡ false = ground arith in
      rw off (process_pad_se-led_sum pad a.reading m.round (rw off at (v.steady.fits pad)))
]
