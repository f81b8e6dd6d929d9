-- ===== src/Device/Midi.antt =====
-- SphereWare/MIDI.c: MIDI messages to and from the host and to the serial port.
use sphere_ware.Base.{
  ℕ, ◌+◌, Bool, not, ◌||◌, List, [], ◌∷◌, ◌++◌, leb, ◌==◌, if◌then◌else◌, u8, bit_and, bit_or,
  ◌<<<◌, ◌>>>◌, Option, none, some,
}
use sphere_ware.Hid.Buffer.{Message, write_midi_data}
use sphere_ware.Led.Floats.{Floats}
use sphere_ware.Led.Settings.{set_static_colour}
use sphere_ware.Device.State.{Device}

-- MIDI_Init, apart from the registers of the UART.
unfoldable pub init : Device → Device
init d = record d { timing_count = 0 }

-- MIDI_Send_Uart_Midi, with MIDI_Uart_Put
unfoldable pub send_uart_midi : Message → Device → Device
send_uart_midi m d = record d { uart_sent = d.uart_sent ++ (m.status ∷ m.data1 ∷ m.data2 ∷ []) }

-- The packet of MIDI_Send_Usb_Midi. Its first byte is `MIDI_EVENT(0, midiCommand)`.
unfoldable pub event_packet : Message → List ℕ
event_packet m =
    u8 (bit_or (0 <<< 4) (bit_and m.status 0xf0 >>> 4)) ∷ m.status ∷ m.data1 ∷ m.data2 ∷ []

-- MIDI_Send_Usb_Midi
unfoldable pub send_usb_midi : Bool → Message → Device → Device
unfolding event_packet
send_usb_midi configured m d =
    if not configured
    then d
    else if m.status == 0
    then d
    else record d { midi_sent = d.midi_sent ++ (event_packet m ∷ []) }

-- The part of MIDI_Process_Usb_Midi for the MIDI clock.
unfoldable pub process_clock : ℕ → Device → Device
process_clock status d =
    if d.led.clock_running == 1
    then d
    else if (status == 250) || (status == 251)
    then record d { led = record d.led { clock_running = 2; fade_step = 100 }; timing_count = 0 }
    else if status == 252
    then record d { led = record d.led { clock_running = 0 } }
    else if status == 248
    then (let count = u8 (d.timing_count + 1) in
        if leb 24 count
        then record d { led = record d.led { fade_step = 100 }; timing_count = 0 }
        else record d { timing_count = count })
    else d

module _ (fp : Floats) where
  -- The part of MIDI_Process_Usb_Midi for the control changes of channel 16.
  unfoldable pub process_control : Message → Device → Device
  process_control m d =
      if m.status == 191
      then (if m.data1 == 20
          then record d { led = record d.led { mode = if m.data2 == 0 then 0 else 1 } }
          else if m.data1 == 21
          then record d { led = set_static_colour fp 0 m.data2 d.led }
          else if m.data1 == 22
          then record d { led = set_static_colour fp 1 m.data2 d.led }
          else if m.data1 == 23
          then record d { led = set_static_colour fp 2 m.data2 d.led }
          else d)
      else d

  -- MIDI_Process_Usb_Midi
  unfoldable pub process_usb_midi : Message → Device → Device
  process_usb_midi m d =
      let d1 = record d { hid = write_midi_data m d.hid } in
      process_control m (process_clock m.status d1)

  -- MIDI_Recieve_Usb_Midi: the packet is the one that waits at the endpoint, if there is one.
  unfoldable pub receive_usb_midi : Option Message → Device → Device
  unfolding process_usb_midi
  receive_usb_midi none d = d
  receive_usb_midi (some m) d = process_usb_midi m d
