-- ===== src/Led/Modes.antt =====
-- SphereWare/LED.c: what the settings show on the LED.
use sphere_ware.Base.{ℕ, ◌≡◌, ◌==◌, if◌then◌else◌, List, [], ◌∷◌, ◌++◌, arith}
use mathlib.Core.List.{append-nil}
use sphere_ware.Led.Wires.{commands, command_word, set_colour_lem}
use sphere_ware.Led.Settings.{Led, set_status}

-- The pair of commands that shows a colour.
abbrev pub shows : ℕ → ℕ → ℕ → Led → List ℕ
shows red green blue l =
    command_word 0 red green blue
    ∷ command_word 1 l.driver.red_setting l.driver.green_setting l.driver.blue_setting
    ∷ []

abbrev pub shows_minimum : Led → List ℕ
shows_minimum l = shows (l.colour_values 0 0) (l.colour_values 0 1) (l.colour_values 0 2) l

-- `LED_Set_Status` stores the status; in normal mode it also shows black for status 0 and the
-- minimum colour for any other, and in static mode it sends nothing to the chip.
pub set_status_lem :
    (status : ℕ) (l : Led)
    → let l' = set_status status l in
      (l'.status ≡ status)
      × (commands l'.driver.wires
          ≡ commands l.driver.wires
            ++ (if l.mode == 0
                then (if status == 0 then shows 0 0 0 l else shows_minimum l)
                else []))
unfolding set_status
set_status_lem status l = ground (
  arith,
  append-nil (commands l.driver.wires),
  set_colour_lem 0 0 0 l.driver,
  set_colour_lem (l.colour_values 0 0) (l.colour_values 0 1) (l.colour_values 0 2) l.driver,
)
