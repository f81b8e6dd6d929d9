-- ===== src/Led/Colour.antt =====
-- SphereWare/SphereWare.c: the part of the main loop that sets the colour of the LED after each
-- pass over the pads. `none` stands for the use of `red_new`, `green_new` and `blue_new` without a
-- value, which is undefined in C.
use sphere_ware.Base.{
  ℕ, ◌-◌, not, ◌&&◌, ltb, leb, ◌==◌, if◌then◌else◌, u16, sub16, bit_or, ◌<<<◌, Option, none, some,
  ◌>>=◌,
}
use sphere_ware.Led.Floats.{Floats}
use sphere_ware.Led.Settings.{Led, show}

-- `red_new`, `green_new` and `blue_new`
pub record Colour : Type 0 where
  pub red : ℕ
  pub green : ℕ
  pub blue : ℕ

abbrev pub colour_value : ℕ → Led → Colour
colour_value i l = record {
  red = l.colour_values i 0;
  green = l.colour_values i 1;
  blue = l.colour_values i 2;
}

-- `led_sum = (led_sum << 1) | 1`, for a sum above 0.
unfoldable pub doubled : ℕ → ℕ
doubled led_sum = if ltb 0 led_sum then u16 (bit_or (led_sum <<< 1) 1) else 0

module _ (fp : Floats) where
  open fp use {Float, of_ℕ, of_int16, of_int8, literal, sub, mul, div, to_uint16, to_int8}

  -- One part of the colour between two values `a` and `b`.
  unfoldable pub between : ℕ → ℕ → ℕ → ℕ
  between led_sum a b =
      to_uint16 (sub (of_ℕ a) (mul (of_ℕ led_sum) (div (of_int16 (sub16 a b)) (of_ℕ 1023))))

  unfoldable pub mixed : ℕ → Colour → Colour → Colour
  unfolding between
  mixed led_sum a b = record {
    red = between led_sum a.red b.red;
    green = between led_sum a.green b.green;
    blue = between led_sum a.blue b.blue;
  }

  -- The colour for the pressure, and `led_sum` after it.
  unfoldable pub pressure_colour : ℕ → ℕ → Led → Option Colour × ℕ
  unfolding doubled mixed
  pressure_colour prev_led_sum led_sum l =
      if l.pressure_status == 0
      then (some (colour_value 0 l), led_sum)
      else (let sum = doubled led_sum in
          let above = sum - 1022 in
          let upper = if ltb 1023 above then 1023 else above in
          if leb sum 1023
          then (
            some (
                if ltb 0 prev_led_sum
                then mixed sum (colour_value 0 l) (colour_value 1 l)
                else colour_value 0 l),
            sum,
          )
          else (
            if ltb 0 prev_led_sum
                then some (mixed upper (colour_value 1 l) (colour_value 2 l))
                else none,
            upper,
          ))

  -- `red_new *= (float) LED_Fade_Step / 100.0`
  unfoldable pub dimmed : ℕ → ℕ → ℕ
  dimmed fade_step part = to_uint16 (mul (of_ℕ part) (div (of_int8 fade_step) (of_ℕ 100)))

  -- With a step that is not positive the colour is overwritten, also where it had no value.
  unfoldable pub faded : ℕ → Option Colour → Option Colour
  unfolding dimmed
  faded fade_step chosen =
      let part = chosen >>= λ c. some (record {
        red = dimmed fade_step c.red;
        green = dimmed fade_step c.green;
        blue = dimmed fade_step c.blue;
      }) in
      if ltb 0 fade_step && ltb fade_step 128
      then part
      else some (record { red = 0; green = 0; blue = 0 })

  -- The colour and the settings after the clock interaction. `count` is `MIDI_Clock_Timing_Count`.
  unfoldable pub clock_colour : ℕ → Option Colour → Led → Option Colour × Led
  unfolding faded
  clock_colour count chosen l =
      if not (l.clock_status == 0) && not (l.clock_running == 0)
      then (let l1 =
            if l.clock_running == 1
            then record l {
              fade_step = to_int8 (sub (of_int8 l.fade_step) (div (of_ℕ l.tempo) (of_ℕ 25)));
            }
            else l in
          let l2 =
            if l1.clock_running == 2
            then record l1 {
              fade_step = to_int8 (sub (of_ℕ 100) (mul (of_ℕ count) (literal 45 1)));
            }
            else l1 in
          (faded l.fade_step chosen, l2))
      else (chosen, l)

  -- The whole part: the settings with what was sent to the LED, and the new `prev_led_sum`.
  unfoldable pub set_led : ℕ → ℕ → ℕ → Led → Option (Led × ℕ)
  set_led count prev_led_sum led_sum l =
      if l.mode == 0
      then (if l.status == 0
          then some (l, led_sum)
          else (let (chosen, sum) = pressure_colour prev_led_sum led_sum l in
              let (shown, l1) = clock_colour count chosen l in
              shown >>= λ c. some (show c.red c.green c.blue l1, sum)))
      else if l.mode == 1
      then some (show (l.static_values 0) (l.static_values 1) (l.static_values 2) l, led_sum)
      else some (l, led_sum)
