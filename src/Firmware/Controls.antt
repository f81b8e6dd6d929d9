-- ===== src/Firmware/Controls.antt =====
-- SphereWare/ButtonsAndDials.c and SphereWare/SphereWare.c: what the reading of the elite controls
-- keeps.
use sphere_ware.Base.{
  ℕ, ◌<◌, ◌≡◌, Bool, true, false, ◌==◌, if◌then◌else◌, bit_and, bit_or, ◌<<<◌, ◌>>>◌, Option, none,
  some, ◌>>=◌, arith, update, Option-cases, inl, inr,
}
use sphere_ware.Hid.Buffer.{Hid, adjust_dial}
use sphere_ware.Hid.MidiQueue.{IsQueue}
use sphere_ware.Ports.Encoder.{encoder_read, next_state, pins_of}
use sphere_ware.Ports.Buttons.{
  pressed, Controls, buttons_read, read_line, read_button, read_dial, read_dial_flag, set_played,
}
use sphere_ware.Firmware.Report.{write_button_data-IsQueue, adjust_dial-IsQueue}

-- The call does not end, or the report holds a queue after it.
data Kept : Option Controls → Type 0 where
  lost : Kept none
  kept : (c : Controls) → IsQueue c.hid → Kept (some c)

Kept-if : (b : Bool) {x y : Option Controls} → Kept x → Kept y → Kept (if b then x else y)
Kept-if true k l = k
Kept-if false k l = l

Kept->>= :
    {o : Option Controls} (f : Controls → Option Controls)
    → Kept o
    → ((c : Controls) → IsQueue c.hid → Kept (f c))
    → Kept (o >>= f)
Kept->>= f lost k = lost
Kept->>= f (kept c q) k = k c q

set_played-Kept : (i : ℕ) (v : Bool) (c : Controls) → IsQueue c.hid → Kept (set_played i v c)
unfolding set_played
set_played-Kept i v c q = elim (Option-cases c.being_played) [
  | inl null ↦ rw null lost
  | inr (flags, e) ↦ rw e (kept _ q)
]

read_button-Kept :
    (line mask shift pind : ℕ) (c : Controls)
    → IsQueue c.hid
    → Kept (read_button line mask shift pind c)
unfolding read_button
read_button-Kept line mask shift pind c q =
    let buttons = bit_or (bit_and c.buttons mask) (pressed pind <<< shift) in
    Kept->>= _
      (set_played-Kept line (bit_and (buttons >>> shift) 1 == 1) (record c { buttons = buttons }) q)
      λ c' q'. kept _ (write_button_data-IsQueue buttons c'.hid q')

three_tests-IsQueue :
    (a b c : Bool) (x y z w : (ℕ → ℕ) × Hid × Bool)
    → IsQueue x.1
    → IsQueue y.1
    → IsQueue z.1
    → IsQueue w.1
    → IsQueue (if a then x else if b then y else if c then z else w).1
three_tests-IsQueue true b c x y z w i j k l = i
three_tests-IsQueue false true c x y z w i j k l = j
three_tests-IsQueue false false true x y z w i j k l = k
three_tests-IsQueue false false false x y z w i j k l = l

encoder_read-IsQueue :
    (number pind : ℕ) (dials : ℕ → ℕ) (h : Hid) (turned : Bool)
    → number < 2
    → IsQueue h
    → IsQueue (encoder_read number pind dials h turned).1
unfolding encoder_read
encoder_read-IsQueue number pind dials h turned lt q =
    let pins = pins_of number pind in
    let state = dials number in
    let next = next_state state pins in
    let seen = bit_and next 0b111111 in
    let dials' = update dials number next in
    three_tests-IsQueue (pins == bit_and state 0b11) (seen == 0b110100) (seen == 0b111000)
      (dials, h, turned) (dials', adjust_dial number 255 h, true)
      (dials', adjust_dial number 1 h, true) (dials', h, false) q
      (adjust_dial-IsQueue number 255 h lt q) (adjust_dial-IsQueue number 1 h lt q) q

read_dial_flag-Kept :
    (line number pind : ℕ) (o : Option (ℕ → Bool)) (c : Controls)
    → number < 2
    → IsQueue c.hid
    → Kept (read_dial_flag line number pind o c)
unfolding read_dial_flag
read_dial_flag-Kept line number pind none c lt q =
    Kept-if (pins_of number pind == bit_and (c.dial_state number) 3) (kept c q) lost
read_dial_flag-Kept line number pind (some flags) c lt q =
    kept _ (encoder_read-IsQueue number pind c.dial_state c.hid (flags line) lt q)

read_dial-Kept :
    (line number pind : ℕ) (c : Controls)
    → number < 2
    → IsQueue c.hid
    → Kept (read_dial line number pind c)
unfolding read_dial
read_dial-Kept line number pind c lt q = read_dial_flag-Kept line number pind c.being_played c lt q

read_line-Kept : (line pind : ℕ) (c : Controls) → IsQueue c.hid → Kept (read_line line pind c)
unfolding read_line
read_line-Kept line pind c q = Kept-if (line == 1) (read_button-Kept 1 7 3 pind c q) (
    Kept-if (line == 0) (read_button-Kept 0 11 2 pind c q) (
      Kept-if (line == 3) (read_button-Kept 3 13 1 pind c q) (
        Kept-if (line == 5) (kept _ (write_button_data-IsQueue 255 c.hid q)) (
          Kept-if (line == 2) (read_dial-Kept 2 0 pind c (omega arith) q)
            (Kept-if (line == 4) (read_dial-Kept 4 1 pind c (omega arith) q) (kept c q))))))

buttons_read-Kept : (pad pind : ℕ) (c : Controls) → IsQueue c.hid → Kept (buttons_read pad pind c)
unfolding buttons_read
buttons_read-Kept pad pind c q =
    let line = bit_and pad 7 in
    Kept->>= _ (read_line-Kept line pind c q)
      λ c1 q1. Kept-if (bit_and c1.buttons 1 == 0) (set_played-Kept line false c1 q1) (kept c1 q1)

Kept-IsQueue : (c : Controls) → Kept (some c) → IsQueue c.hid
Kept-IsQueue c (kept c' q) = q

pub buttons_read-IsQueue :
    (pad pind : ℕ) (c c' : Controls)
    → IsQueue c.hid
    → buttons_read pad pind c ≡ some c'
    → IsQueue c'.hid
buttons_read-IsQueue pad pind c c' q e = Kept-IsQueue c' (rw e at (buttons_read-Kept pad pind c q))
