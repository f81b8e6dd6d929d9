-- ===== src/Device/Clock.antt =====
-- SphereWare/MIDI.c and SphereWare/GenericHID.c: the two clocks that the LED can follow. The
-- states of `LED_Clock_Running` are 0 for none, 1 for AlphaLive and 2 for a MIDI clock.
use sphere_ware.Base.{
  ℕ, zero, suc, ◌+◌, ◌*◌, ◌%◌, ◌≤◌, ◌<◌, ◌≡◌, ◌≢◌, inl, inr, Bool, List, ◌==◌, Option-cases,
  >>=-eq-some, some, get_elem?, arith, refl,
}
use sphere_ware.Hid.Buffer.{Message, write_midi_data}
use sphere_ware.Led.Floats.{Floats}
use sphere_ware.Led.Settings.{set_static_colour, set_colour_values, set_status, set_pressure_status}
use sphere_ware.Device.State.{Device}
use sphere_ware.Device.Midi.{
  process_usb_midi, process_clock, process_control, send_usb_midi, send_uart_midi,
}
use sphere_ware.Device.Report.{
  process_message, dispatch, midi_message, setting_message, colour_message, timing_message,
  process_messages, process_report, process_setting, process_timing,
}

abbrev pub running : Device → ℕ
running d = d.led.clock_running

running-process_control :
    (fp : Floats) (m : Message) (d : Device) → running (process_control fp m d) ≡ running d
unfolding process_control set_static_colour
running-process_control fp m d = ground arith

-- `n` timing messages (248) of a MIDI clock, one after the other.
unfoldable pub ticks : Floats → Message → ℕ → Device → Device
ticks fp m zero d = d
ticks fp m (suc n) d = ticks fp m n (process_usb_midi fp m d)

timing-process_control :
    (fp : Floats) (m : Message) (d : Device)
    → (process_control fp m d).timing_count ≡ d.timing_count
unfolding process_control
timing-process_control fp m d = ground arith

tick_lem :
    (fp : Floats) (m : Message) (d : Device)
    → m.status ≡ 248
    → running d ≢ 1
    → d.timing_count < 24
    → ((process_usb_midi fp m d).timing_count ≡ (d.timing_count + 1) % 24)
      × (running (process_usb_midi fp m d) ≡ running d)
unfolding process_usb_midi process_clock
tick_lem fp m d e free small = ground (
  arith,
  timing-process_control fp m (process_clock m.status (record d { hid = write_midi_data m d.hid })),
  running-process_control fp m
      (process_clock m.status (record d { hid = write_midi_data m d.hid })),
)

-- While AlphaLive's clock does not run, `MIDI_Clock_Timing_Count`, if below 24, counts the timing
-- messages of the MIDI clock modulo 24, the number of these in a beat, and they start or stop no
-- clock.
pub ticks_lem :
    (fp : Floats) (m : Message) (n : ℕ) (d : Device)
    → m.status ≡ 248
    → running d ≢ 1
    → d.timing_count < 24
    → ((ticks fp m n d).timing_count ≡ (d.timing_count + n) % 24)
      × (running (ticks fp m n d) ≡ running d)
unfolding ticks
ticks_lem fp m zero d e free small = (omega arith, refl)
ticks_lem fp m (suc n) d e free small =
    ground (arith, tick_lem fp m d, ticks_lem fp m n (process_usb_midi fp m d))

-- What a message of a HID report may do to the clock.
abbrev Keeps : Device → Device → Type 0
Keeps d d' = (running d ≡ 2 → running d' ≡ 2) × (running d ≤ 1 → running d' ≤ 1)

module _ (fp : Floats) (configured : Bool) (report : List ℕ) where
  midi_message-Keeps :
      (index : ℕ) (d d' : Device)
      → midi_message fp configured report index d ≡ some d'
      → running d' ≡ running d
  unfolding midi_message send_usb_midi send_uart_midi
  midi_message-Keeps index d d' e = ground arith

  setting_message-Keeps :
      (index : ℕ) (d d' : Device)
      → setting_message fp configured report index d ≡ some d'
      → running d' ≡ running d
  unfolding setting_message process_setting set_status set_pressure_status
  setting_message-Keeps index d d' e = ground arith

  colour_message-Keeps :
      (kind index : ℕ) (d d' : Device)
      → colour_message fp configured report kind index d ≡ some d'
      → running d' ≡ running d
  unfolding colour_message set_colour_values
  colour_message-Keeps kind index d d' e = ground arith

  timing_message-Keeps :
      (index : ℕ) (d d' : Device)
      → timing_message fp configured report index d ≡ some d'
      → running d' ≤ 1
  unfolding timing_message process_timing
  timing_message-Keeps index d d' e = ground arith

  process_message-Keeps :
      (index : ℕ) (d d' : Device)
      → process_message fp configured report index d ≡ some d'
      → Keeps d d'
  unfolding process_message
  process_message-Keeps index d d' e =
      let (kind, got, rest) =
        >>=-eq-some (get_elem? report index) (dispatch fp configured report index d) e in
      ground (
        arith,
        rest,
        midi_message-Keeps index d d',
        setting_message-Keeps index d d',
        colour_message-Keeps kind index d d',
        timing_message-Keeps index d d',
      )

  process_messages-Keeps :
      (left i : ℕ) (d d' : Device)
      → process_messages fp configured report left i d ≡ some d'
      → Keeps d d'
  unfolding process_messages
  process_messages-Keeps zero i d d' e = ground arith
  process_messages-Keeps (suc left) i d d' e =
      elim (Option-cases (process_message fp configured report (i * 4 + 2) d)) [
        | inl bad ↦ cc
        | inr (m, ok) ↦
            let step = process_message-Keeps (i * 4 + 2) d m ok in
            let rest = process_messages-Keeps left (i + 1) m d' (rw ok at e) in
            (λ two. rest.0 (step.0 two), λ low. rest.1 (step.1 low))
      ]

  process_report-Keeps :
      (d d' : Device) → process_report fp configured report d ≡ some d' → Keeps d d'
  unfolding process_report
  process_report-Keeps d d' e = elim (Option-cases (get_elem? report 1)) [
    | inl missing ↦ ground arith
    | inr (count, found) ↦ ground (arith, process_messages-Keeps count 0 d d')
  ]

  -- For the clock states 0 to 2, a HID report from AlphaLive that is processed neither stops nor
  -- takes over a running MIDI clock, and never starts one: the MIDI clock runs after it exactly if
  -- it ran before.
  pub process_report_clock :
      (d d' : Device)
      → running d ≤ 2
      → process_report fp configured report d ≡ some d'
      → (running d' == 2) ≡ (running d == 2)
  process_report_clock d d' h e = ground (arith, process_report-Keeps d d' e)
