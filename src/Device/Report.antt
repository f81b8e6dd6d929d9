-- ===== src/Device/Report.antt =====
-- SphereWare/GenericHID.c: `GenericHID_ProcessReport` and `GenericHID_Task`. A read behind the end
-- of the report is undefined in C; here the result is then `none`.
use sphere_ware.Base.{
  ℕ, zero, suc, ◌+◌, ◌-◌, ◌*◌, Bool, not, ◌&&◌, List, [], ◌∷◌, ◌++◌, leb, ◌==◌, if◌then◌else◌, u16,
  Option, some, get_elem?, ◌>>=◌, ◌<<<◌,
}
use sphere_ware.Hid.Buffer.{Message}
use sphere_ware.Hid.Transfer.{send_packet}
use sphere_ware.Led.Floats.{Floats}
use sphere_ware.Led.Settings.{set_status, set_pressure_status, set_colour_values}
use sphere_ware.Device.State.{Device, Usb}
use sphere_ware.Device.Midi.{send_usb_midi, send_uart_midi}

-- The general LED settings, message type 1.
unfoldable pub process_setting : ℕ → ℕ → Device → Device
process_setting which value d =
    if which == 0x01
    then record d { led = set_status value d.led }
    else if which == 0x02
    then record d { led = set_pressure_status value d.led }
    else if which == 0x03
    then record d { led = record d.led { clock_status = value } }
    else if which == 0x04
    then record d { led = record d.led { mode = value } }
    else d

-- The timing messages of AlphaLive's clock, message type 5.
unfoldable pub process_timing : ℕ → ℕ → ℕ → Device → Device
process_timing running low high d =
    let l1 =
      if running == 0x00
      then record d.led { clock_running = 0 }
      else record d.led { clock_running = 1; fade_step = 100 } in
    record d { led = record l1 { tempo = u16 (low + (high <<< 8)) } }

module _ (fp : Floats) (configured : Bool) (report : List ℕ) where
  -- The three kinds of message that read three more bytes, and the one that reads up to two.
  unfoldable pub midi_message : ℕ → Device → Option Device
  midi_message index d = do
    status ← get_elem? report (index + 1)
    data1 ← get_elem? report (index + 2)
    data2 ← get_elem? report (index + 3)
    let m : Message = record { status = status; data1 = data1; data2 = data2 }
    some (send_uart_midi m (send_usb_midi configured m d))

  unfoldable pub setting_message : ℕ → Device → Option Device
  setting_message index d = get_elem? report (index + 1) >>= λ which.
      if leb 1 which && leb which 4
      then (get_elem? report (index + 2) >>= λ value. some (process_setting which value d))
      else some d

  unfoldable pub colour_message : ℕ → ℕ → Device → Option Device
  colour_message kind index d = do
    red ← get_elem? report (index + 1)
    green ← get_elem? report (index + 2)
    blue ← get_elem? report (index + 3)
    some (record d { led = set_colour_values fp (kind - 2) red green blue d.led })

  unfoldable pub timing_message : ℕ → Device → Option Device
  timing_message index d = do
    running ← get_elem? report (index + 1)
    low ← get_elem? report (index + 2)
    high ← get_elem? report (index + 3)
    some (process_timing running low high d)

  -- The chain of tests on the first byte of a message.
  unfoldable pub dispatch : ℕ → Device → ℕ → Option Device
  dispatch index d kind =
      if kind == 0
      then midi_message index d
      else if kind == 1
      then setting_message index d
      else if leb 2 kind && leb kind 4
      then colour_message kind index d
      else if kind == 5
      then (if d.led.clock_running == 2 then some d else timing_message index d)
      else some d

  -- One round of the loop, for the message at `index`.
  unfoldable pub process_message : ℕ → Device → Option Device
  unfolding dispatch
  process_message index d = get_elem? report index >>= dispatch index d

  -- The loop, with the messages that are left and `i`.
  unfoldable pub process_messages : ℕ → ℕ → Device → Option Device
  process_messages zero i d = some d
  process_messages (suc left) i d = do
    d' ← process_message (i * 4 + 2) d
    process_messages left (i + 1) d'

  -- GenericHID_ProcessReport
  unfoldable pub process_report : Device → Option Device
  process_report d = get_elem? report 0 >>= λ command.
      if command == 0x01
      then (get_elem? report 1 >>= λ count. process_messages count 0 d)
      else some d

-- GenericHID_Task
unfoldable pub task : Floats → Usb → Device → Option Device
unfolding process_report send_packet
task fp usb d =
    if not usb.configured
    then some d
    else (let d1 =
          if usb.in_ready
          then record d {
            hid = (send_packet d.hid).1;
            hid_sent = d.hid_sent ++ ((send_packet d.hid).0 ∷ []);
          }
          else d in
        if usb.out_received && usb.read_write_allowed
        then process_report fp usb.configured usb.report d1
        else some d1)
