-- ===== src/Examples/LedExamples.antt =====
-- Witnesses for SphereWare/LED.c.
use sphere_ware.Base.{◌≡◌, [], ◌∷◌, ◌++◌, ◌+◌, ◌*◌, ◌%◌, ◌^◌, arith}
use sphere_ware.Led.Driver.{set_colour}
use sphere_ware.Led.Wires.{commands, command_word, set_colour_lem}
use sphere_ware.Led.Torn.{torn_colour, torn_colour_lem}
use sphere_ware.Examples.{driver}

set_colour_example :
    commands (set_colour 1023 0 512 driver).wires
    ≡ commands driver.wires ++ (command_word 0 1023 0 512 ∷ command_word 1 127 127 127 ∷ [])
set_colour_example = set_colour_lem 1023 0 512 driver

-- The interrupt switches the LED off after ten bits of the packet for red.
torn_colour_example :
    (torn_colour 10 22 (λ k. k) 1023 0 0 driver ≡ set_colour 1023 0 0 driver)
    × (commands (torn_colour 10 22 (set_colour 0 0 0) 1023 0 0 driver).wires
        ≡ commands driver.wires
          ++ (command_word 0 0 0 0
              ∷ command_word 1 127 127 127
              ∷ (command_word 1 127 127 127 * 2 ^ 22 + command_word 1 127 127 127 % 2 ^ 22) % 2 ^ 32
              ∷ command_word 1 127 127 127
              ∷ []))
torn_colour_example = torn_colour_lem 10 22 0 0 0 1023 0 0 driver (omega arith)
