-- ===== src/Ports/Buttons.antt =====
-- SphereWare/ButtonsAndDials.c: `ButtonsAndDials_Read`, which reads one of the elite controls on
-- each call. `being_played` points to the flags of these controls or is the null pointer; a write
-- through the null pointer makes the result `none`. The delays of 25 ms are left out.
use sphere_ware.Base.{
  ℕ, ◌+◌, ◌*◌, ◌/◌, ◌<◌, ◌≡◌, Bool, true, false, ◌==◌, ==_iff, if◌then◌else◌, arith, refl, bit_and,
  bit_or, ◌<<<◌, ◌>>>◌, update, Option, none, some, ◌>>=◌,
}
use sphere_ware.Base.Bits.{bit_and-low, bit_or-fields, all_below, all_below_sound}
use sphere_ware.Hid.Buffer.{Hid, write_button_data}
use sphere_ware.Ports.Encoder.{encoder_read, pins_of}

-- The static variables of the file, with the report and the flags.
pub record Controls : Type 0 where
  pub buttons : ℕ
  pub dial_state : ℕ → ℕ
  pub hid : Hid
  pub being_played : Option (ℕ → Bool)

-- `being_played[i] = v`
unfoldable pub set_played : ℕ → Bool → Controls → Option Controls
set_played i v c =
    c.being_played >>= λ flags. some (record c { being_played = some (update flags i v) })

-- The pin PD6, inverted: 1 while a button is pressed.
abbrev pub pressed : ℕ → ℕ
pressed pind = if bit_and (pind >>> 6) 1 == 0 then 1 else 0

-- The cases SW2, SW3 and SW4: the mask keeps the other bits of `buttons`.
unfoldable pub read_button : ℕ → ℕ → ℕ → ℕ → Controls → Option Controls
unfolding set_played
read_button line mask shift pind c =
    let buttons = bit_or (bit_and c.buttons mask) (pressed pind <<< shift) in
    set_played line (bit_and (buttons >>> shift) 1 == 1) (record c { buttons = buttons }) >>= λ c'.
    some (record c' { hid = write_button_data buttons c'.hid })

-- The cases ENC1B and ENC2B. `Encoder_Read` writes to its flag only if the pins have changed.
unfoldable pub read_dial_flag : ℕ → ℕ → ℕ → Option (ℕ → Bool) → Controls → Option Controls
read_dial_flag line number pind none c =
    if pins_of number pind == bit_and (c.dial_state number) 0b11 then some c else none
read_dial_flag line number pind (some flags) c =
    let (dials, h, turned) = encoder_read number pind c.dial_state c.hid (flags line) in
    some (record c { dial_state = dials; hid = h; being_played = some (update flags line turned) })

unfoldable pub read_dial : ℕ → ℕ → ℕ → Controls → Option Controls
unfolding read_dial_flag
read_dial line number pind c = read_dial_flag line number pind c.being_played c

-- The switch of ButtonsAndDials_Read. The lines are SW3 = 0, SW2 = 1, ENC1B = 2, SW4 = 3,
-- ENC2B = 4 and ELITE = 5.
unfoldable pub read_line : ℕ → ℕ → Controls → Option Controls
unfolding read_button read_dial
read_line line pind c =
    if line == 1
    then read_button 1 0b0111 3 pind c
    else if line == 0
    then read_button 0 0b1011 2 pind c
    else if line == 3
    then read_button 3 0b1101 1 pind c
    else if line == 5
    then some (record c {
      buttons = bit_or (bit_and c.buttons 0b1110) (pressed pind);
      hid = write_button_data 0xff c.hid;
    })
    else if line == 2
    then read_dial 2 0 pind c
    else if line == 4
    then read_dial 4 1 pind c
    else some c

-- ButtonsAndDials_Read
unfoldable pub buttons_read : ℕ → ℕ → Controls → Option Controls
unfolding read_line set_played
buttons_read pad pind c =
    let line = bit_and pad 0b111 in
    read_line line pind c >>= λ c'.
    if bit_and c'.buttons 1 == 0 then set_played line false c' else some c'

low_bit_table : all_below 16 (λ b. bit_and b 14 == (b / 2 * 2)) ≡ true
unfolding all_below
low_bit_table = refl

low_bit :
    (b p : ℕ)
    → b < 16
    → p < 2
    → (bit_or (bit_and b 14) p ≡ b / 2 * 2 + p) × (bit_and (bit_or (bit_and b 14) p) 1 ≡ p)
low_bit b p hb hp =
    rw
      (
        (==_iff _ _).0 (all_below_sound 16 (λ b. bit_and b 14 == (b / 2 * 2)) b low_bit_table hb),
        bit_or-fields 1 (b / 2) p hp,
        bit_and-low 1 (b / 2 * 2 + p),
      )
      (omega arith)

pressed-lt : (pind : ℕ) → pressed pind < 2
pressed-lt pind = ground arith

-- The detection of an elite unit at the start, with the null pointer and four bits in `buttons`: it
-- succeeds if the pin PD6 is low, as it is on an elite unit, and sets the lowest bit of `buttons`;
-- on any other unit, where the pin is high, it writes through the null pointer.
pub buttons_read_detect :
    (pind : ℕ) (c : Controls)
    → c.being_played ≡ none
    → c.buttons < 16
    → buttons_read 5 pind c ≡ (
        if bit_and (pind >>> 6) 1 == 0
        then some (record c { buttons = c.buttons / 2 * 2 + 1; hid = write_button_data 0xff c.hid })
        else none)
unfolding buttons_read
buttons_read_detect pind c e small =
    ground (arith, low_bit c.buttons (pressed pind) small (pressed-lt pind))
