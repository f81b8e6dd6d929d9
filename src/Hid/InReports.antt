-- ===== src/Hid/InReports.antt =====
-- SphereWare/HidInReports.c, which the makefile leaves out: reports of their own for each event. A
-- byte of the array that is not written is undefined.
use sphere_ware.Base.{
  ℕ, zero, suc, ◌+◌, ◌*◌, ◌/◌, ◌%◌, ◌<◌, ◌≡◌, ◌==◌, Bool, true, if◌then◌else◌, List, [], ◌∷◌,
  Option, none, some, update, u8, refl, arith,
}
use sphere_ware.Hid.Buffer.{report_size}

-- `report_data`.
abbrev pub Report : Type 0
Report = ℕ → Option ℕ

abbrev pub undefined : Report
undefined j = none

abbrev pub with_byte : ℕ → ℕ → Report → Report
with_byte i v r = update r i (some (u8 v))

-- HidInReports_Create_Pad_Report. `pad_value` is the bit pattern of an `int`.
unfoldable pub pad_report : ℕ → ℕ → ℕ → Report
pad_report pad_number pad_value pad_velocity = with_byte 4 pad_velocity (
    with_byte 3 (pad_value / 256 % 256)
      (with_byte 2 (pad_value % 256) (with_byte 1 pad_number (with_byte 0 0x01 undefined))))

-- The other three have the same form: Create_Button_Report, Create_Dial_Report and
-- Create_Host_Setup_Report.
abbrev pair_report : ℕ → ℕ → ℕ → Report
pair_report command first second =
    with_byte 2 second (with_byte 1 first (with_byte 0 command undefined))

unfoldable pub button_report : ℕ → ℕ → Report
button_report button_number button_value = pair_report 0x02 button_number button_value

unfoldable pub dial_report : ℕ → ℕ → Report
dial_report dial_number dial_value = pair_report 0x03 dial_number dial_value

unfoldable pub host_setup_report : ℕ → ℕ → Report
host_setup_report firmware_version device_type = pair_report 0x04 firmware_version device_type

-- HidInReports_Send_Report: what is written to the endpoint, if anything is.
abbrev copied : ℕ → ℕ → Report → List (Option ℕ)
copied zero i r = []
copied (suc n) i r = r i ∷ copied n (suc i) r

unfoldable pub send_report : Bool → Bool → Report → Option (List (Option ℕ))
send_report configured in_ready r =
    if configured then (if in_ready then some (copied report_size 0 r) else none) else none

-- What a host makes of a report.
pub data Event : Type 0 where
  pad : ℕ → ℕ → ℕ → Event
  button : ℕ → ℕ → Event
  dial : ℕ → ℕ → Event
  host_setup : ℕ → ℕ → Event

abbrev byte : Option ℕ → ℕ
byte none = 0
byte (some v) = v

abbrev decode : List (Option ℕ) → Option Event
decode (c ∷ x ∷ y ∷ z ∷ w ∷ rest) =
    if byte c == 1
    then some (pad (byte x) (byte z * 256 + byte y) (byte w))
    else if byte c == 2
    then some (button (byte x) (byte y))
    else if byte c == 3
    then some (dial (byte x) (byte y))
    else if byte c == 4
    then some (host_setup (byte x) (byte y))
    else none
decode _ = none

abbrev report_of : Event → Report
report_of (pad n v p) = pad_report n v p
report_of (button n v) = button_report n v
report_of (dial n v) = dial_report n v
report_of (host_setup v t) = host_setup_report v t

-- The arguments are of the types that they have in C.
abbrev InRange : Event → Type 0
InRange (pad n v p) = (n < 256) × (v < 65536) × (p < 256)
InRange (button n v) = (n < 256) × (v < 256)
InRange (dial n v) = (n < 256) × (v < 256)
InRange (host_setup v t) = (v < 256) × (t < 256)

-- What the device sends a host can read, for each of the four reports, with all values that their
-- arguments can have.
send_report-decode :
    (e : Event)
    → InRange e
    → (sent : List (Option ℕ)) × (send_report true true (report_of e) ≡ some sent)
      × (decode sent ≡ some e)
unfolding send_report pad_report button_report dial_report host_setup_report
send_report-decode (pad n v p) (a, b, c) = (_, refl, ground arith)
send_report-decode (button n v) (a, b) = (_, refl, ground arith)
send_report-decode (dial n v) (a, b) = (_, refl, ground arith)
send_report-decode (host_setup v t) (a, b) = (_, refl, ground arith)
