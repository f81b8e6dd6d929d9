-- ===== src/Device/State.antt =====
-- The part of the firmware's state that messages from the host act on, and what was sent.
use sphere_ware.Base.{ℕ, List, Option, Bool}
use sphere_ware.Hid.Buffer.{Hid}
use sphere_ware.Led.Settings.{Led}

pub record Device : Type 0 where
  pub hid : Hid
  pub led : Led
  -- `MIDI_Clock_Timing_Count`
  pub timing_count : ℕ
  -- The MIDI event packets and the HID packets given to the USB library, and the bytes written to
  -- the UART.
  pub midi_sent : List (List ℕ)
  pub hid_sent : List (List (Option ℕ))
  pub uart_sent : List ℕ

-- What the USB library answers in one run of a task.
pub record Usb : Type 0 where
  -- `USB_DeviceState == DEVICE_STATE_Configured`
  pub configured : Bool
  pub in_ready : Bool
  pub out_received : Bool
  pub read_write_allowed : Bool
  -- The report that `Endpoint_Read_Stream_LE` reads.
  pub report : List ℕ
