-- ===== src/Ports/Presses.antt =====
-- SphereWare/ButtonsAndDials.c: what the reading of one of the three buttons does in normal use.
use sphere_ware.Base.{
  ℕ, ◌+◌, ◌-◌, ◌*◌, ◌/◌, ◌%◌, ◌^◌, ◌<◌, ◌≡◌, Bool, true, false, ◌&&◌, ◌==◌, ==_iff, if◌then◌else◌,
  none, some, arith, refl, bit_and, bit_or, ◌<<<◌, ◌>>>◌, update, Bool-cases, inl, inr, ◌∙◌,
}
use sphere_ware.Base.Bits.{all_below, all_below_sound, bit_and-low}
use sphere_ware.Hid.Buffer.{byte_at, store, write_button_data}
use sphere_ware.Hid.Pads.{IsWhole, byte_at-store}
use sphere_ware.Ports.Buttons.{Controls, pressed, buttons_read, read_line, read_button, set_played}

-- The buttons with the names of their lines.
pub data Button : Type 0 where
  sw2 sw3 sw4 : Button

abbrev pub line_of : Button → ℕ
line_of sw2 = 1
line_of sw3 = 0
line_of sw4 = 3

-- The bit of a button in the report.
abbrev pub bit_of : Button → ℕ
bit_of sw2 = 3
bit_of sw3 = 2
bit_of sw4 = 1

abbrev mask_of : Button → ℕ
mask_of sw2 = 0b0111
mask_of sw3 = 0b1011
mask_of sw4 = 0b1101

-- The number with the bit `s` set to `v`.
abbrev pub with_bit : ℕ → ℕ → ℕ → ℕ
with_bit b s v = b - b / 2 ^ s % 2 * 2 ^ s + v * 2 ^ s

mask_test : Button → ℕ → ℕ → Bool
mask_test k b v = bit_or (bit_and b (mask_of k)) (v <<< bit_of k) == with_bit b (bit_of k) v

mask_table : (k : Button) → all_below 16 (λ b. all_below 2 (mask_test k b)) ≡ true
unfolding all_below mask_test
mask_table sw2 = refl
mask_table sw3 = refl
mask_table sw4 = refl

masked :
    (k : Button) (b v : ℕ)
    → b < 16
    → v < 2
    → bit_or (bit_and b (mask_of k)) (v <<< bit_of k) ≡ with_bit b (bit_of k) v
unfolding mask_test
masked k b v hb hv = (==_iff _ _).0 (
    all_below_sound 2 (mask_test k b) v
      (all_below_sound 16 (λ b. all_below 2 (mask_test k b)) b (mask_table k) hb) hv)

abbrev pub flag_at : Controls → ℕ → Bool
flag_at c j = elim c.being_played [ none ↦ false | some flags ↦ flags j ]

read_line_button :
    (k : Button) (pind : ℕ) (c : Controls)
    → read_line (line_of k) pind c ≡ read_button (line_of k) (mask_of k) (bit_of k) pind c
unfolding read_line
read_line_button sw2 pind c = refl
read_line_button sw3 pind c = refl
read_line_button sw4 pind c = refl

with_bit_tests :
    (k : Button) (b v : ℕ)
    → b < 16
    → v < 2
    → let b' = with_bit b (bit_of k) v in (b' < 16) × (b' / 2 ^ bit_of k % 2 ≡ v) × (b' % 2 ≡ b % 2)
with_bit_tests sw2 b v hb hv = (omega arith, omega arith, omega arith)
with_bit_tests sw3 b v hb hv = (omega arith, omega arith, omega arith)
with_bit_tests sw4 b v hb hv = (omega arith, omega arith, omega arith)

-- The state after the case of the switch.
read_button_lem :
    (k : Button) (pind : ℕ) (c : Controls) (flags : ℕ → Bool)
    → c.being_played ≡ some flags
    → c.buttons < 16
    → let v = pressed pind in
      let b = with_bit c.buttons (bit_of k) v in
      read_line (line_of k) pind c
      ≡ some (record c {
        buttons = b;
        hid = write_button_data b c.hid;
        being_played = some (update flags (line_of k) (v == 1));
      })
unfolding read_button set_played
read_button_lem k pind c flags e small =
    let v = pressed pind in
    let lt : v < 2 = ground arith in
    let b = with_bit c.buttons (bit_of k) v in
    let t = with_bit_tests k c.buttons v small lt in
    let on : bit_and (b >>> bit_of k) 1 ≡ v = bit_and-low 1 (b >>> bit_of k) ∙ t.1 in
    read_line_button k pind c ∙ rw (masked k c.buttons v small lt, on, e) refl

-- Reading the line of a button, with four bits in `buttons` and the flags of the controls there, sets
-- the bit of the button to whether it is pressed, that is whether PD6 is low, and no other bit, and
-- writes the bits to byte 97 of the report. The flag of the line then says that the button is
-- pressed, or, on a unit that is not elite, that it is not, whatever the pin says; the other flags
-- are as before.
pub buttons_read_button :
    (k : Button) (pad pind : ℕ) (c : Controls) (flags : ℕ → Bool) (j : ℕ)
    → bit_and pad 0b111 ≡ line_of k
    → c.being_played ≡ some flags
    → c.buttons < 16
    → IsWhole c.hid
    → let v = pressed pind in
      (c' : Controls) × (buttons_read pad pind c ≡ some c')
      × (c'.buttons ≡ with_bit c.buttons (bit_of k) v)
      × (byte_at c'.hid 97 ≡ c'.buttons)
      × (flag_at c' j ≡ (if j == line_of k then (v == 1) && (c.buttons % 2 == 1) else flags j))
unfolding buttons_read write_button_data
buttons_read_button k pad pind c flags j at_line live small w =
    let v = pressed pind in
    let lt : v < 2 = ground arith in
    let b = with_bit c.buttons (bit_of k) v in
    let t = with_bit_tests k c.buttons v small lt in
    let elite = bit_and-low 1 b in
    let stored = byte_at-store c.hid 97 b 97 w (omega arith) in
    let byte : byte_at (store 97 b c.hid) 97 ≡ b = omega (arith, stored, t.0) in
    let c1 = record c {
      buttons = b;
      hid = write_button_data b c.hid;
      being_played = some (update flags (line_of k) (v == 1));
    } in
    let read : read_line (bit_and pad 0b111) pind c ≡ some c1 =
      rw at_line (read_button_lem k pind c flags live small) in
    elim (Bool-cases (bit_and b 1 == 0)) [
      | inl plain ↦
          let c2 = record c1 {
            being_played = some (update (update flags (line_of k) (v == 1)) (line_of k) false);
          } in
          (c2, rw (read, plain, at_line) refl, refl, byte, ground (arith, plain, elite, t))
      | inr is_elite ↦
          (c1, rw (read, is_elite) refl, refl, byte, ground (arith, is_elite, elite, t))
    ]
