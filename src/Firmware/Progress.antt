-- ===== src/Firmware/Progress.antt =====
-- SphereWare/SphereWare.c: when the main loop has a next step that C defines.
use sphere_ware.Base.{Bool, false, not, ◌&&◌, leb, ◌==◌}
use sphere_ware.Led.Floats.{Floats}
use sphere_ware.Led.Settings.{Led}
use sphere_ware.Led.Pressure.{overwrites}
use sphere_ware.Ports.Pins.{Ports}
use sphere_ware.Play.Machine.{Machine}
use sphere_ware.Firmware.Board.{Phase, at_reset, at_controls, at_pad}
use sphere_ware.Firmware.Start.{Start}

-- The colour of the LED is used without a value: the loop over the pads has ended, the LED is on in
-- normal mode with the pressure interaction, the sum of the pressures has jumped from 0 to 512
-- or more within a pass, and the clock interaction does not overwrite the colour.
abbrev pub is_undefined : Phase → Machine → Bool
is_undefined (at_reset i) m =
    (i == 48)
    && ((m.led.mode == 0)
        && (not (m.led.status == 0)
            && (not (m.led.pressure_status == 0)
                && ((m.prev_led_sum == 0) && (leb 512 m.round.led_sum && not (overwrites m.led))))))
is_undefined (at_controls i pad) m = false
is_undefined (at_pad i pad) m = false
