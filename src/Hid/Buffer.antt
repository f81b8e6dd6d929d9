-- ===== src/Hid/Buffer.antt =====
-- SphereWare/GenericHID.c: the state of the HID IN report and the functions that write to it.
-- `hid_in_buffer` is a list, since its bounds matter; a write out of range changes nothing.
use sphere_ware.Base.{
  ℕ, ◌+◌, ◌*◌, Bool, false, List, ◌∷◌, leb, if◌then◌else◌, get_or, set, replicate, for_range, u8,
  bit_and, bit_or, ◌<<<◌, ◌>>>◌,
}

-- GENERIC_REPORT_SIZE
abbrev pub report_size : ℕ
report_size = 127

-- `hid_in_buffer`, `noOfMidiInMessages`, and the `flip` of `GenericHID_Task`.
pub record Hid : Type 0 where
  pub buffer : List ℕ
  pub midi_messages : ℕ
  pub flip : Bool

abbrev pub initial : Hid
initial = record { buffer = 1 ∷ replicate 126 0; midi_messages = 0; flip = false }

abbrev pub byte_at : Hid → ℕ → ℕ
byte_at h i = get_or h.buffer i 0

-- `hid_in_buffer[i] = v`
abbrev pub store : ℕ → ℕ → Hid → Hid
store i v h = record h { buffer = set h.buffer i (u8 v) }

-- GenericHID_Write_PadData
unfoldable pub write_pad_data : ℕ → ℕ → ℕ → Hid → Hid
write_pad_data pad_number pad_value pad_velocity h =
    let h1 =
      store (1 + pad_number * 2) (bit_or (bit_and pad_velocity 0x7f) (bit_and pad_value 1 <<< 7))
        h in
    store (2 + pad_number * 2) (pad_value >>> 1) h1

-- GenericHID_Write_PressureOnly
unfoldable pub write_pressure_only : ℕ → ℕ → Hid → Hid
write_pressure_only pad_number pad_value h =
    let i = 1 + pad_number * 2 in
    let h1 = store i (bit_and (byte_at h i) 0x7f) h in
    let h2 = store i (bit_or (byte_at h1 i) (bit_and pad_value 1 <<< 7)) h1 in
    store (2 + pad_number * 2) (pad_value >>> 1) h2

-- GenericHID_Write_DebugData
unfoldable pub write_debug_data : ℕ → ℕ → Hid → Hid
write_debug_data pad_number pad_value h =
    let h1 = store 0 0x02 h in
    let h2 = store (1 + pad_number * 2) (bit_and pad_value 0xff) h1 in
    store (2 + pad_number * 2) (pad_value >>> 8) h2

-- GenericHID_Write_ButtonData
unfoldable pub write_button_data : ℕ → Hid → Hid
write_button_data buttons h = store 97 buttons h

-- GenericHID_Adjust_Dial: `amount` is the pattern of an `int8_t`.
unfoldable pub adjust_dial : ℕ → ℕ → Hid → Hid
adjust_dial dial_number amount h =
    store (98 + dial_number) (byte_at h (98 + dial_number) + amount) h

-- `memset` of `n` bytes from index `i` on to zero.
unfoldable pub zero_bytes : ℕ → ℕ → List ℕ → List ℕ
zero_bytes i n b = for_range n i (λ k xs. set xs k 0) b

-- GenericHID_Clear
unfoldable pub clear : Hid → Hid
unfolding zero_bytes
clear h = record h { buffer = zero_bytes 1 95 h.buffer }

-- A MIDI message of three bytes.
pub record Message : Type 0 where
  pub status : ℕ
  pub data1 : ℕ
  pub data2 : ℕ

-- GenericHID_Write_MidiData
unfoldable pub write_midi_data : Message → Hid → Hid
write_midi_data m h =
    if leb h.midi_messages 6
    then (let index = h.midi_messages * 3 + 101 in
        let h1 = store index m.status h in
        let h2 = store (index + 1) m.data1 h1 in
        let h3 = store (index + 2) m.data2 h2 in
        let count = u8 (h.midi_messages + 1) in
        store 100 count (record h3 { midi_messages = count }))
    else h
