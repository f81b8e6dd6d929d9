-- ===== src/Ports/Encoder.antt =====
-- SphereWare/ButtonsAndDials.c: `Encoder_Read`, which follows a rotary encoder by its two pins.
use sphere_ware.Base.{
  ℕ, ◌+◌, ◌*◌, ◌/◌, ◌%◌, ◌^◌, ◌<◌, ◌≡◌, ◌≢◌, Bool, true, false, ◌&&◌, ◌==◌, if◌then◌else◌, u8,
  arith, bit_and, bit_or, ◌<<<◌, ◌>>>◌, update,
}
use sphere_ware.Base.Bits.{bit_and-low, bit_or-fields}
use sphere_ware.Hid.Buffer.{Hid, adjust_dial}

-- The two pins of encoder `number`, from the register PIND.
unfoldable pub pins_of : ℕ → ℕ → ℕ
pins_of number pind = bit_or (bit_and (pind >>> 6) 1 <<< 1) (bit_and (pind >>> number) 1)

-- What a call makes of `dial_state[number]` when the pins have changed.
unfoldable pub next_state : ℕ → ℕ → ℕ
next_state state pins = u8 (bit_or (state <<< 2) pins)

-- Encoder_Read: `dial_state`, the report and the flag behind `being_turned`.
unfoldable pub encoder_read : ℕ → ℕ → (ℕ → ℕ) → Hid → Bool → (ℕ → ℕ) × Hid × Bool
unfolding next_state
encoder_read number pind dial_state h being_turned =
    let pins = pins_of number pind in
    let state = dial_state number in
    if pins == bit_and state 0b11
    then (dial_state, h, being_turned)
    else (let seen = bit_and (next_state state pins) 0b111111 in
        let dials = update dial_state number (next_state state pins) in
        if seen == 0b110100
        then (dials, adjust_dial number 255 h, true)
        else if seen == 0b111000
        then (dials, adjust_dial number 1 h, true)
        else (dials, h, false))

-- The last three positions of the pins, the newest last; a position lasts until the pins change.
pub record History : Type 0 where
  pub oldest : ℕ
  pub middle : ℕ
  pub newest : ℕ

abbrev pub history : ℕ → History
history state = record { oldest = state / 16 % 4; middle = state / 4 % 4; newest = state % 4 }

seen_lem :
    (state pins : ℕ)
    → state < 256
    → pins < 4
    → (bit_and state 0b11 ≡ state % 4)
      × (u8 (bit_or (state * 4) pins) ≡ (state * 4 + pins) % 256)
      × (bit_and (u8 (bit_or (state * 4) pins)) 0b111111 ≡ (state * 4 + pins) % 64)
seen_lem state pins h k = (
  bit_and-low 2 state,
  omega (arith, bit_or-fields 2 state pins k),
  omega (arith, bit_or-fields 2 state pins k, bit_and-low 6 (u8 (bit_or (state * 4) pins))),
)

pins_of-lt : (number pind : ℕ) → pins_of number pind < 4
unfolding pins_of
pins_of-lt number pind =
    rw
      (
        bit_and-low 1 (pind / 2 ^ 6),
        bit_and-low 1 (pind / 2 ^ number),
        bit_or-fields 1 (pind / 2 ^ 6 % 2) (pind / 2 ^ number % 2) (omega arith),
      )
      (omega arith)

-- With a byte as its history, a call that finds the pins changed puts the new position behind the
-- last two. It turns the dial of this encoder down by one after the positions 3, 1, 0 and up by one
-- after 3, 2, 0, and then reports a turn; after any other positions it leaves the report alone and
-- reports none.
pub encoder_read_lem :
    (number pind : ℕ) (dial_state : ℕ → ℕ) (h : Hid) (being_turned : Bool)
    → dial_state number < 256
    → pins_of number pind ≢ (history (dial_state number)).newest
    → let (dials, h', turned) = encoder_read number pind dial_state h being_turned in
      let old = history (dial_state number) in
      let pins = pins_of number pind in
      (history (dials number) ≡ record { oldest = old.middle; middle = old.newest; newest = pins })
      × (◌≡◌ {A = Hid × Bool}
          (h', turned)
          (if (old.middle == 3) && ((old.newest == 1) && (pins == 0))
            then (adjust_dial number 255 h, true)
            else if (old.middle == 3) && ((old.newest == 2) && (pins == 0))
            then (adjust_dial number 1 h, true)
            else (h, false)))
unfolding encoder_read
encoder_read_lem number pind dial_state h being_turned small e = (
  ground (
    arith,
    seen_lem (dial_state number) (pins_of number pind) small (pins_of-lt number pind),
    pins_of-lt number pind,
  ),
  ground (
    arith,
    seen_lem (dial_state number) (pins_of number pind) small (pins_of-lt number pind),
    pins_of-lt number pind,
  ),
)
