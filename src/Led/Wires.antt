-- ===== src/Led/Wires.antt =====
-- SphereWare/LED.c against the LED driver chip: a shift register of 32 bits, whose content becomes
-- a command when the latch pin rises.
use sphere_ware.Base.{
  ℕ, zero, suc, ◌+◌, ◌*◌, ◌/◌, ◌%◌, ◌^◌, ◌≤◌, ◌<◌, ◌≡◌, Bool, ◌==◌, if◌then◌else◌, List, [], ◌∷◌,
  ◌++◌, bit_and, arith, refl, ap, ◌∙◌,
}
use sphere_ware.Base.Bits.{bit_and-low, bit_or-fields}
use native.Mathlib.Nat.{
  pow-suc, one-le-pow, mod-lt, mod-eq_of_lt, div-add-mod, mul-add-mod_self_right, mul_comm,
}
use mathlib.Core.List.{append_assoc}
use sphere_ware.Led.Driver.{
  Edge, clocked, latched, Driver, packet_of, shift_out, set_colour, test_loop,
}

abbrev digit : Bool → ℕ
digit b = if b then 1 else 0

-- All bits shifted in, behind those of `r`; the register holds the last 32 of them.
unfoldable pub register : List Edge → ℕ → ℕ
register [] r = r
register (clocked b ∷ es) r = register es (2 * r + digit b)
register (latched ∷ es) r = register es r

-- The commands that the edges latch.
unfoldable pub commands_from : List Edge → ℕ → List ℕ
commands_from [] r = []
commands_from (clocked b ∷ es) r = commands_from es (2 * r + digit b)
commands_from (latched ∷ es) r = (r % 2 ^ 32) ∷ commands_from es r

unfoldable pub commands : List Edge → List ℕ
unfolding commands_from
commands es = commands_from es 0

-- A command word: two bits of mode, then ten bits of each colour.
abbrev pub command_word : ℕ → ℕ → ℕ → ℕ → ℕ
command_word mode red green blue =
    mode % 4 * 2 ^ 30 + blue % 1024 * 2 ^ 20 + red % 1024 * 2 ^ 10 + green % 1024

pub packet_of_lem :
    (mode blue red green : ℕ) → packet_of mode blue red green ≡ command_word mode red green blue
unfolding packet_of
packet_of_lem mode blue red green =
    let m = mode % 4 in
    let p1 = m * 1024 + blue % 1024 in
    let p2 = p1 * 1024 + red % 1024 in
    rw
      (
        bit_and-low 2 mode,
        bit_and-low 10 blue,
        bit_and-low 10 red,
        bit_and-low 10 green,
        bit_or-fields 10 m (blue % 1024) (omega arith),
        bit_or-fields 10 p1 (red % 1024) (omega arith),
        bit_or-fields 10 p2 (green % 1024) (omega arith),
      )
      (omega arith)

pub commands_from-append :
    (xs ys : List Edge) (r : ℕ)
    → commands_from (xs ++ ys) r ≡ commands_from xs r ++ commands_from ys (register xs r)
unfolding commands_from register
commands_from-append [] ys r = refl
commands_from-append (clocked b ∷ xs) ys r = commands_from-append xs ys (2 * r + digit b)
commands_from-append (latched ∷ xs) ys r = ap (◌∷◌ (r % 2 ^ 32)) (commands_from-append xs ys r)

halves : (q : ℕ) → q ≡ 2 * (q / 2) + q % 2
halves q = omega arith

product_le : (b w : ℕ) → b ≤ 1 → b * w ≤ w
product_le b w h = grind arith

mod_double : (p w : ℕ) → 0 < w → p % (2 * w) ≡ p / w % 2 * w + p % w
mod_double p w h =
    let q : ℕ = p / w in
    let c : ℕ = q % 2 * w + p % w in
    let split : p ≡ q / 2 * (2 * w) + c =
      omega (arith, ap (λ (t : ℕ). w * t) (halves q), div-add-mod p w) in
    let small : c < 2 * w = omega (arith, product_le (q % 2) w (omega arith), mod-lt p h) in
    ap (λ (t : ℕ). t % (2 * w)) split
    ∙ mul-add-mod_self_right (q / 2) (2 * w) c
    ∙ mod-eq_of_lt small

digit_bit : (q : ℕ) → digit (bit_and q 1 == 1) ≡ q % 2
digit_bit q = ground (arith, bit_and-low 1 q)

shift_step :
    (r p n : ℕ)
    → (2 * r + digit (bit_and (p / 2 ^ n) 1 == 1)) * 2 ^ n + p % 2 ^ n
      ≡ r * 2 ^ suc n + p % 2 ^ suc n
shift_step r p n =
    rw (digit_bit (p / 2 ^ n), pow-suc 2 n)
      (omega (
        arith,
        mod_double p (2 ^ n) (one-le-pow n 2 (omega arith)),
        ap (λ (t : ℕ). p % t) (mul_comm 2 (2 ^ n)),
      ))

-- Shifting `n` bits of `p` in behind `r`.
pub commands_from-shift_out :
    (n p r : ℕ) (es : List Edge)
    → commands_from (shift_out n p ++ es) r ≡ commands_from es (r * 2 ^ n + p % 2 ^ n)
unfolding commands_from shift_out
commands_from-shift_out zero p r es = ap (commands_from es) (omega arith)
commands_from-shift_out (suc n) p r es =
    commands_from-shift_out n p _ es ∙ ap (commands_from es) (shift_step r p n)

-- A packet that is shifted out and latched is the command, whatever came before.
pub commands_from-packet :
    (p r : ℕ) (es : List Edge)
    → p < 2 ^ 32
    → commands_from (shift_out 32 p ++ (latched ∷ es)) r
      ≡ p ∷ commands_from es (r * 2 ^ 32 + p % 2 ^ 32)
commands_from-packet p r es h =
    commands_from-shift_out 32 p r (latched ∷ es)
    ∙ unfold commands_from in ap (λ c. c ∷ commands_from es (r * 2 ^ 32 + p % 2 ^ 32)) (omega arith)

pub command_word-lt : (mode red green blue : ℕ) → command_word mode red green blue < 2 ^ 32
command_word-lt mode red green blue = omega arith

wires-set_colour :
    (red green blue : ℕ) (d : Driver)
    → (set_colour red green blue d).wires
      ≡ d.wires
        ++ (shift_out 32 (packet_of 0 blue red green)
            ++ (latched
                ∷ (shift_out 32 (packet_of 1 d.blue_setting d.red_setting d.green_setting)
                    ++ (latched ∷ []))))
unfolding set_colour
wires-set_colour red green blue d = simp append_assoc

-- `LED_Set_Colour` makes the driver chip latch two commands, after whatever it latched before:
-- first the colour, cut to ten bits for each part, with mode 0, then the current setting with
-- mode 1.
pub set_colour_lem :
    (red green blue : ℕ) (d : Driver)
    → commands (set_colour red green blue d).wires
      ≡ commands d.wires
        ++ (command_word 0 red green blue
            ∷ command_word 1 d.red_setting d.green_setting d.blue_setting
            ∷ [])
unfolding commands
set_colour_lem red green blue d = rw (
  wires-set_colour red green blue d,
  packet_of_lem 0 blue red green,
  packet_of_lem 1 d.blue_setting d.red_setting d.green_setting,
  commands_from-append d.wires,
  commands_from-packet (command_word 0 red green blue) (register d.wires 0) _
      (command_word-lt 0 red green blue),
  commands_from-packet (command_word 1 d.red_setting d.green_setting d.blue_setting) _ []
      (command_word-lt 1 d.red_setting d.green_setting d.blue_setting),
  commands_from,
)

-- `LED_TestLoop` shows red, green and blue in turn, each with the current setting behind it.
test_loop_lem :
    (d : Driver)
    → let s = command_word 1 d.red_setting d.green_setting d.blue_setting in
      commands (test_loop d).wires
      ≡ commands d.wires
        ++ (command_word 0 1023 0 0
            ∷ s
            ∷ command_word 0 0 1023 0
            ∷ s
            ∷ command_word 0 0 0 1023
            ∷ s
            ∷ [])
unfolding test_loop set_colour
test_loop_lem d =
    let red = set_colour 1023 0 0 d in
    let green = set_colour 0 1023 0 red in
    rw (set_colour_lem 0 0 1023 green, set_colour_lem 0 1023 0 red, set_colour_lem 1023 0 0 d)
      (simp append_assoc)
