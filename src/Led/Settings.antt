-- ===== src/Led/Settings.antt =====
-- SphereWare/LED.c: the settings of the LED and the functions that change them.
use sphere_ware.Base.{ℕ, ◌==◌, ◌&&◌, if◌then◌else◌, update}
use sphere_ware.Led.Driver.{Driver, set_colour, set_current}
use sphere_ware.Led.Floats.{Floats}

-- The globals of LED.h, with the driver of the chip.
pub record Led : Type 0 where
  pub mode : ℕ
  pub status : ℕ
  pub pressure_status : ℕ
  pub clock_status : ℕ
  pub clock_running : ℕ
  pub tempo : ℕ
  -- The pattern of an `int8_t`.
  pub fade_step : ℕ
  pub colour_values : ℕ → ℕ → ℕ
  pub static_values : ℕ → ℕ
  pub driver : Driver

abbrev pub show : ℕ → ℕ → ℕ → Led → Led
show red green blue l = record l { driver = set_colour red green blue l.driver }

-- LED_Set_Status
unfoldable pub set_status : ℕ → Led → Led
set_status status l =
    let l1 = record l { status = status } in
    if l1.mode == 0
    then (if status == 0
        then show 0 0 0 l1
        else show (l1.colour_values 0 0) (l1.colour_values 0 1) (l1.colour_values 0 2) l1)
    else l1

-- LED_Set_Pressure_Status
unfoldable pub set_pressure_status : ℕ → Led → Led
set_pressure_status status l =
    let l1 = record l { pressure_status = status } in
    if l1.mode == 0
    then (if (status == 0) && (l1.status == 1)
        then show (l1.colour_values 0 0) (l1.colour_values 0 1) (l1.colour_values 0 2) l1
        else l1)
    else l1

module _ (fp : Floats) where
  open fp use {Float, of_ℕ, add, sub, mul, div, greater, to_int16, to_uint16}

  -- The values for red, green and blue, scaled down if their sum is above 1023.
  unfoldable pub limited : Float → Float → Float → Float × Float × Float
  limited red green blue =
      let sum = add (add red green) blue in
      if greater sum (of_ℕ 1023)
      then (let red_perc = div red sum in
          let green_perc = div green sum in
          let blue_perc = div blue sum in
          let excess = fp.of_int16 (to_int16 (sub sum (of_ℕ 1023))) in
          (
            sub red (mul excess red_perc),
            sub green (mul excess green_perc),
            sub blue (mul excess blue_perc),
          ))
      else (red, green, blue)

  -- `(1023.0 * (float) value) / range`
  unfoldable pub scaled : ℕ → ℕ → Float
  scaled value range = div (mul (of_ℕ 1023) (of_ℕ value)) (of_ℕ range)

  -- LED_Set_Colour_Values
  unfoldable pub set_colour_values : ℕ → ℕ → ℕ → ℕ → Led → Led
  unfolding limited scaled
  set_colour_values colour red green blue l =
      let (r, g, b) = limited (scaled red 255) (scaled green 255) (scaled blue 255) in
      let row = l.colour_values colour in
      record l {
        colour_values =
            update l.colour_values colour
              (update (update (update row 0 (to_uint16 r)) 1 (to_uint16 g)) 2 (to_uint16 b));
      }

  -- LED_Set_Static_Colour. Its last test is the assignment `colour = 2`, which is always true.
  unfoldable pub set_static_colour : ℕ → ℕ → Led → Led
  unfolding limited scaled
  set_static_colour colour value l =
      let red = if colour == 0 then scaled value 127 else of_ℕ (l.static_values 0) in
      let green =
        if colour == 0
        then of_ℕ (l.static_values 1)
        else if colour == 1
        then scaled value 127
        else of_ℕ (l.static_values 1) in
      let blue =
        if colour == 0
        then of_ℕ (l.static_values 2)
        else if colour == 1
        then of_ℕ (l.static_values 2)
        else scaled value 127 in
      let (r, g, b) = limited red green blue in
      record l {
        static_values =
            update (update (update l.static_values 0 (to_uint16 r)) 1 (to_uint16 g)) 2
              (to_uint16 b);
      }

  -- LED_Init, apart from the directions and levels of the pins: what it makes of the globals.
  unfoldable pub init : Led → Led
  unfolding set_current set_colour_values
  init l =
      let l1 = record l {
        status = 1;
        pressure_status = 1;
        mode = 0;
        clock_status = 0;
        clock_running = 0;
        fade_step = 100;
        tempo = 120;
        driver = set_current 127 127 127 l.driver;
        static_values = update (update (update l.static_values 0 0) 1 0) 2 0;
      } in
      set_colour_values 2 255 0 0 (set_colour_values 1 0 255 0 (set_colour_values 0 0 0 255 l1))
