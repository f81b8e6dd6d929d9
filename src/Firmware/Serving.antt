-- ===== src/Firmware/Serving.antt =====
-- SphereWare/GenericHID.c and SphereWare/MIDI.c: what the tasks for the host keep of the report.
use sphere_ware.Base.{
  ℕ, [], ◌∷◌, ◌++◌, zero, suc, ◌+◌, ◌*◌, ◌≡◌, Bool, ◌&&◌, List, Option, none, some, >>=-eq-some,
  Option-cases, Bool-cases, inl, inr, arith, ◌∙◌, get_elem?, if◌then◌else◌,
}
use sphere_ware.Hid.Buffer.{Message}
use sphere_ware.Hid.MidiQueue.{IsQueue, write_midi_data-IsQueue}
use sphere_ware.Hid.Transfer.{send_packet}
use sphere_ware.Led.Floats.{Floats}
use sphere_ware.Device.State.{Device, Usb}
use sphere_ware.Device.Midi.{
  process_usb_midi, process_clock, process_control, send_usb_midi, send_uart_midi, receive_usb_midi,
}
use sphere_ware.Device.Report.{
  process_message, dispatch, midi_message, setting_message, colour_message, timing_message,
  process_messages, process_report, process_setting, process_timing, task,
}
use sphere_ware.Firmware.Report.{send_packet-IsQueue}
use sphere_ware.Firmware.Board.{AreBytes}

hid-process_clock : (status : ℕ) (d : Device) → (process_clock status d).hid ≡ d.hid
unfolding process_clock
hid-process_clock status d = ground arith

hid-process_control :
    (fp : Floats) (m : Message) (d : Device) → (process_control fp m d).hid ≡ d.hid
unfolding process_control
hid-process_control fp m d = ground arith

pub receive_usb_midi-IsQueue :
    (fp : Floats) (packet : Option Message) (d : Device)
    → AreBytes packet
    → IsQueue d.hid
    → IsQueue (receive_usb_midi fp packet d).hid
unfolding receive_usb_midi process_usb_midi
receive_usb_midi-IsQueue fp none d b q = q
receive_usb_midi-IsQueue fp (some m) d b q =
    rw (hid-process_control fp m _, hid-process_clock m.status _)
      (write_midi_data-IsQueue m d.hid b q)

module _ (fp : Floats) (configured : Bool) (report : List ℕ) where
  hid-midi_message :
      (index : ℕ) (d d' : Device)
      → midi_message fp configured report index d ≡ some d'
      → d'.hid ≡ d.hid
  unfolding midi_message send_usb_midi send_uart_midi
  hid-midi_message index d d' e = ground arith

  hid-setting_message :
      (index : ℕ) (d d' : Device)
      → setting_message fp configured report index d ≡ some d'
      → d'.hid ≡ d.hid
  unfolding setting_message process_setting
  hid-setting_message index d d' e = ground arith

  hid-colour_message :
      (kind index : ℕ) (d d' : Device)
      → colour_message fp configured report kind index d ≡ some d'
      → d'.hid ≡ d.hid
  unfolding colour_message
  hid-colour_message kind index d d' e = ground arith

  hid-timing_message :
      (index : ℕ) (d d' : Device)
      → timing_message fp configured report index d ≡ some d'
      → d'.hid ≡ d.hid
  unfolding timing_message process_timing
  hid-timing_message index d d' e = ground arith

  hid-process_message :
      (index : ℕ) (d d' : Device)
      → process_message fp configured report index d ≡ some d'
      → d'.hid ≡ d.hid
  unfolding process_message
  hid-process_message index d d' e =
      let (kind, got, rest) =
        >>=-eq-some (get_elem? report index) (dispatch fp configured report index d) e in
      ground (
        arith,
        rest,
        hid-midi_message index d d',
        hid-setting_message index d d',
        hid-colour_message kind index d d',
        hid-timing_message index d d',
      )

  hid-process_messages :
      (left i : ℕ) (d d' : Device)
      → process_messages fp configured report left i d ≡ some d'
      → d'.hid ≡ d.hid
  unfolding process_messages
  hid-process_messages zero i d d' e = ground arith
  hid-process_messages (suc left) i d d' e =
      elim (Option-cases (process_message fp configured report (i * 4 + 2) d)) [
        | inl bad ↦ cc
        | inr (m, ok) ↦
            hid-process_messages left (i + 1) m d' (rw ok at e)
            ∙ hid-process_message (i * 4 + 2) d m ok
      ]

  hid-process_report :
      (d d' : Device) → process_report fp configured report d ≡ some d' → d'.hid ≡ d.hid
  unfolding process_report
  hid-process_report d d' e = elim (Option-cases (get_elem? report 1)) [
    | inl missing ↦ ground arith
    | inr (count, found) ↦ ground (arith, hid-process_messages count 0 d d')
  ]

hid-task :
    (fp : Floats) (usb : Usb) (d d' : Device)
    → task fp usb d ≡ some d'
    → d'.hid ≡ (if usb.configured && usb.in_ready then (send_packet d.hid).1 else d.hid)
unfolding task
hid-task fp usb d d' e =
    let sent = record d {
      hid = (send_packet d.hid).1;
      hid_sent = d.hid_sent ++ ((send_packet d.hid).0 ∷ []);
    } in
    ground (
      arith,
      hid-process_report fp usb.configured usb.report sent d',
      hid-process_report fp usb.configured usb.report d d',
    )

pub task-IsQueue :
    (fp : Floats) (usb : Usb) (d d' : Device)
    → IsQueue d.hid
    → task fp usb d ≡ some d'
    → IsQueue d'.hid
task-IsQueue fp usb d d' q e = elim (Bool-cases (usb.configured && usb.in_ready)) [
  | inl ready ↦ rw (hid-task fp usb d d' e, ready) (send_packet-IsQueue d.hid q)
  | inr busy ↦ rw (hid-task fp usb d d' e, busy) q
]
