-- ===== src/Examples/HidExamples.antt =====
-- Witnesses for SphereWare/GenericHID.c, the report.
use sphere_ware.Base.{◌≡◌, false, [], ◌∷◌, ◌++◌, map, some, none, refl, arith}
use sphere_ware.Hid.Buffer.{initial, write_pad_data, write_midi_data}
use sphere_ware.Hid.Pads.{IsWhole, write_pad_data-IsWhole}
use sphere_ware.Hid.MidiQueue.{IsQueue, IsMessage, queued, write_midi_data_lem}
use sphere_ware.Hid.Transfer.{send_packet, send_packet_twice}
use sphere_ware.Hid.Halves.{received_value, received_velocity, received_pad}
use sphere_ware.Examples.{note_on, half_sent, changed}

initial-IsWhole : IsWhole initial
initial-IsWhole = refl

note_on-IsMessage : IsMessage note_on
note_on-IsMessage = (omega arith, omega arith, omega arith)

initial-IsQueue : IsQueue initial
initial-IsQueue = record { whole = initial-IsWhole; counted = refl; few = omega arith }

write_midi_data_example :
    queued (write_midi_data note_on initial) ≡ queued initial ++ (note_on ∷ [])
write_midi_data_example = write_midi_data_lem note_on initial note_on-IsMessage initial-IsQueue

send_packet_twice_example :
    let (first, h1) = send_packet initial in
    let (second, h2) = send_packet h1 in
    (first ++ second ≡ map some initial.buffer ++ (none ∷ [])) × (h2.flip ≡ false)
send_packet_twice_example = send_packet_twice initial initial-IsWhole refl

-- The second report has the value 301 and the velocity 90 for pad 31.
received_pad_example :
    let packets = (send_packet initial).0 ++ (send_packet changed).0 in
    (received_velocity packets 31 ≡ 0) × (received_value packets 31 ≡ 300)
unfolding write_pad_data
received_pad_example =
    received_pad initial changed 31 initial-IsWhole
      (write_pad_data-IsWhole half_sent 31 301 90 initial-IsWhole) refl refl (omega arith)
      (omega arith) (omega arith)
