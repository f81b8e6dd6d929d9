-- ===== src/Examples/LightExamples.antt =====
-- Witnesses for SphereWare/SphereWare.c, the colour of the LED.
use sphere_ware.Base.{ℕ, ◌≡◌, some, ◌++◌, arith, refl}
use sphere_ware.Led.Settings.{Led, show, set_status}
use sphere_ware.Led.Modes.{shows}
use sphere_ware.Led.Wires.{commands}
use sphere_ware.Led.Colour.{Colour, set_led, pressure_colour, clock_colour}
use sphere_ware.Led.Late.{late, late_left_on}
use sphere_ware.Examples.{led, floats}

abbrev plain : Led
plain = record led { pressure_status = 0 }

-- A pass with the LED on.
abbrev lit : Led
lit = show (plain.colour_values 0 0) (plain.colour_values 0 1) (plain.colour_values 0 2) plain

plain_lit : set_led floats 0 0 0 plain ≡ some (lit, 0)
unfolding set_led pressure_colour clock_colour
plain_lit = refl

late_left_on_example :
    (c : Colour) × (q : Led) × (commands (set_status 0 lit).driver.wires
      ≡ commands plain.driver.wires ++ (shows c.red c.green c.blue plain ++ shows 0 0 0 plain))
    × (late floats (set_status 0) 0 0 0 plain ≡ some (q, 0))
    × (commands q.driver.wires
        ≡ commands plain.driver.wires ++ (shows 0 0 0 plain ++ shows c.red c.green c.blue plain))
    × (q.status ≡ 0)
    × ((count prev sum : ℕ) → set_led floats count prev sum q ≡ some (q, sum))
late_left_on_example = late_left_on floats 0 0 0 0 plain lit refl (omega arith) plain_lit
