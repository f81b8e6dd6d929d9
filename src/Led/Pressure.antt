-- ===== src/Led/Pressure.antt =====
-- SphereWare/SphereWare.c: when the colour of the LED is defined, what the sum of the pressures is
-- scaled to, and what the LED shows without the interactions.
use sphere_ware.Base.{
  ℕ, ◌+◌, ◌*◌, ◌≡◌, ◌<◌, Bool, true, false, not, ◌&&◌, ◌||◌, leb, ltb, ◌==◌, if◌then◌else◌, Option,
  none, some, arith, [], ◌++◌,
}
use mathlib.Core.List.{append-nil}
use sphere_ware.Base.Bits.{bit_or-fields}
use sphere_ware.Led.Floats.{Floats}
use sphere_ware.Led.Wires.{commands, set_colour_lem}
use sphere_ware.Led.Settings.{Led, show}
use sphere_ware.Led.Modes.{shows, shows_minimum}
use sphere_ware.Led.Colour.{set_led, pressure_colour, clock_colour, faded, doubled}

doubled_lem : (s : ℕ) → s < 32768 → doubled s ≡ (if s == 0 then 0 else s * 2 + 1)
unfolding doubled
doubled_lem s h = ground (arith, bit_or-fields 1 s 1 (omega arith))

abbrev pub is_none {ℓ} : {A : Type ℓ} → Option A → Bool
is_none none = true
is_none (some x) = false

-- The clock interaction overwrites the colour: it is on, a clock runs, and the step is not positive.
abbrev pub overwrites : Led → Bool
overwrites l =
    not (l.clock_status == 0)
    && (not (l.clock_running == 0) && not (ltb 0 l.fade_step && ltb l.fade_step 128))

-- With the pressure interaction in normal mode, for sums below 32768, the colour is used without
-- a value exactly if the sum of the pressures is 512 or more, `prev_led_sum` is 0 and the clock
-- interaction does not overwrite the colour. In every other mode and setting it has a value.
pub set_led_defined :
    (fp : Floats) (count prev_led_sum led_sum : ℕ) (l : Led)
    → led_sum < 32768
    → is_none (set_led fp count prev_led_sum led_sum l) ≡ (
        (l.mode == 0)
        && (not (l.status == 0)
            && (not (l.pressure_status == 0)
                && ((prev_led_sum == 0) && (leb 512 led_sum && not (overwrites l))))))
unfolding set_led pressure_colour clock_colour faded
set_led_defined fp count prev_led_sum led_sum l h = ground (arith, doubled_lem led_sum h)

-- Without the pressure interaction, and without the clock interaction or with no clock running,
-- the LED shows the minimum colour in normal mode if it is on, the static colour in static mode, and
-- nothing new otherwise; the sum is passed on.
pub set_led_plain :
    (fp : Floats) (count prev_led_sum led_sum : ℕ) (l : Led)
    → l.pressure_status ≡ 0
    → (l.clock_status == 0) || (l.clock_running == 0) ≡ true
    → (l' : Led) × (set_led fp count prev_led_sum led_sum l ≡ some (l', led_sum))
      × (commands l'.driver.wires
          ≡ commands l.driver.wires
            ++ (if l.mode == 0
                then (if l.status == 0 then [] else shows_minimum l)
                else if l.mode == 1
                then shows (l.static_values 0) (l.static_values 1) (l.static_values 2) l
                else []))
unfolding set_led pressure_colour clock_colour
set_led_plain fp count prev_led_sum led_sum l off still = (
  if l.mode == 0
      then (if l.status == 0
          then l
          else show (l.colour_values 0 0) (l.colour_values 0 1) (l.colour_values 0 2) l)
      else if l.mode == 1
      then show (l.static_values 0) (l.static_values 1) (l.static_values 2) l
      else l,
  ground arith,
  ground (
    arith,
    append-nil (commands l.driver.wires),
    set_colour_lem (l.static_values 0) (l.static_values 1) (l.static_values 2) l.driver,
    set_colour_lem (l.colour_values 0 0) (l.colour_values 0 1) (l.colour_values 0 2) l.driver,
  ),
)
