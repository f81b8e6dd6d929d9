-- ===== src/Led/Driver.antt =====
-- SphereWare/LED.c: the serial link to the LED driver chip. A packet is shifted out bit by bit
-- and latched; the wires are modelled as the list of what the chip sees.
use sphere_ware.Base.{
  ℕ, zero, suc, Bool, ◌==◌, if◌then◌else◌, List, [], ◌∷◌, ◌++◌, bit_and, bit_or, ◌<<<◌, ◌>>>◌,
}

-- A rising clock edge with the data pin as given, or a pulse on the latch pin.
pub data Edge : Type 0 where
  clocked : Bool → Edge
  latched : Edge

-- `LED_CommandMode`, the three commands and `setting`, with the edges so far.
pub record Driver : Type 0 where
  pub command_mode : ℕ
  pub red_command : ℕ
  pub green_command : ℕ
  pub blue_command : ℕ
  pub red_setting : ℕ
  pub green_setting : ℕ
  pub blue_setting : ℕ
  pub wires : List Edge

-- `led_command_packet`, an `unsigned long` of 32 bits.
unfoldable pub packet_of : ℕ → ℕ → ℕ → ℕ → ℕ
packet_of mode blue red green =
    let p = bit_and mode 0b11 in
    let p1 = bit_or (p <<< 10) (bit_and blue 1023) in
    let p2 = bit_or (p1 <<< 10) (bit_and red 1023) in bit_or (p2 <<< 10) (bit_and green 1023)

-- The loop over `j`, with the `32 - j` bits left: bit `31 - j` is put on the data pin.
unfoldable pub shift_out : ℕ → ℕ → List Edge
shift_out zero packet = []
shift_out (suc left) packet = clocked (bit_and (packet >>> left) 1 == 1) ∷ shift_out left packet

-- LED_SendPacket
unfoldable pub send_packet : Driver → Driver
unfolding packet_of shift_out
send_packet d =
    let d1 =
      if d.command_mode == 0b01
      then record d {
        red_command = d.red_setting;
        green_command = d.green_setting;
        blue_command = d.blue_setting;
      }
      else d in
    record d1 {
      wires =
          d1.wires
          ++ shift_out 32
              (packet_of d1.command_mode d1.blue_command d1.red_command d1.green_command);
    }

-- LED_Set_Current
unfoldable pub set_current : ℕ → ℕ → ℕ → Driver → Driver
set_current red green blue d = record d {
  red_setting = red;
  green_setting = green;
  blue_setting = blue;
}

-- LED_Latch
unfoldable pub latch : Driver → Driver
latch d = record d { wires = d.wires ++ (latched ∷ []) }

-- LED_WriteArray, for the one LED of NUM_OF_LEDS.
unfoldable pub write_array : ℕ → ℕ → ℕ → Driver → Driver
unfolding send_packet latch
write_array red green blue d =
    let d1 = record d {
      command_mode = 0b00;
      red_command = red;
      green_command = green;
      blue_command = blue;
    } in
    let d2 = latch (send_packet d1) in latch (send_packet (record d2 { command_mode = 0b01 }))

-- LED_TestLoop, without its delays.
unfoldable pub test_loop : Driver → Driver
unfolding write_array
test_loop d = write_array 0 0 1023 (write_array 0 1023 0 (write_array 1023 0 0 d))

-- LED_Set_Colour
unfoldable pub set_colour : ℕ → ℕ → ℕ → Driver → Driver
unfolding write_array
set_colour red green blue d = write_array red green blue d
