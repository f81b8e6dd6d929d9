-- ===== src/Led/Torn.antt =====
-- SphereWare/LED.c: `LED_SendPacket` shifts `led_command_packet`, a global, out with the interrupts
-- enabled. The timer interrupt, which may set the colour too, may come between two bits.
use sphere_ware.Base.{
  ℕ, zero, suc, ◌+◌, ◌*◌, ◌%◌, ◌^◌, ◌<◌, ◌≡◌, ◌==◌, if◌then◌else◌, List, [], ◌∷◌, ◌++◌, bit_and,
  ◌>>>◌, arith, refl, ap, ◌∙◌,
}
use native.Mathlib.Nat.{mul-add-mod_self_right, mod-eq_of_lt}
use mathlib.Core.List.{append_assoc}
use sphere_ware.Led.Driver.{
  Edge, clocked, latched, Driver, packet_of, shift_out, send_packet, latch, set_colour,
}
use sphere_ware.Led.Wires.{
  commands, commands_from, register, command_word, command_word-lt, packet_of_lem,
  commands_from-append, commands_from-shift_out, commands_from-packet,
}

-- `led_command_packet` after LED_SendPacket.
unfoldable pub packet_sent : Driver → ℕ
unfolding packet_of
packet_sent d = packet_of d.command_mode d.blue_command d.red_command d.green_command

-- The first rounds of the loop over `j`, after which `left` are left.
unfoldable pub shift_part : ℕ → ℕ → ℕ → List Edge
shift_part zero left packet = []
shift_part (suc rounds) left packet =
    clocked (bit_and (packet >>> (rounds + left)) 1 == 1) ∷ shift_part rounds left packet

-- LED_SendPacket, where the interrupt runs LED_Set_Colour after some rounds. The other rounds go on
-- with the packet that the interrupt leaves in the global.
unfoldable pub torn_packet : ℕ → ℕ → (Driver → Driver) → Driver → Driver
unfolding packet_sent shift_part shift_out
torn_packet rounds left interrupt d =
    let d1 =
      if d.command_mode == 0b01
      then record d {
        red_command = d.red_setting;
        green_command = d.green_setting;
        blue_command = d.blue_setting;
      }
      else d in
    let d2 =
      interrupt (record d1 { wires = d1.wires ++ shift_part rounds left (packet_sent d1) }) in
    record d2 { wires = d2.wires ++ shift_out left (packet_sent d2) }

-- LED_Set_Colour with the interrupt in its first LED_SendPacket.
unfoldable pub torn_colour : ℕ → ℕ → (Driver → Driver) → ℕ → ℕ → ℕ → Driver → Driver
unfolding torn_packet latch send_packet
torn_colour rounds left interrupt red green blue d =
    let d1 = record d {
      command_mode = 0b00;
      red_command = red;
      green_command = green;
      blue_command = blue;
    } in
    let d2 = latch (torn_packet rounds left interrupt d1) in
    latch (send_packet (record d2 { command_mode = 0b01 }))

-- Nothing is latched in a part of a packet.
commands_from-shift_part :
    (rounds left packet r : ℕ) → commands_from (shift_part rounds left packet) r ≡ []
unfolding commands_from shift_part
commands_from-shift_part zero left packet r = refl
commands_from-shift_part (suc rounds) left packet r = commands_from-shift_part rounds left packet _

-- The rest of a packet behind a packet `s`.
mixed_lem :
    (q s left : ℕ)
    → s < 2 ^ 32
    → ((q * 2 ^ 32 + s % 2 ^ 32) * 2 ^ left + s % 2 ^ left) % 2 ^ 32
      ≡ (s * 2 ^ left + s % 2 ^ left) % 2 ^ 32
mixed_lem q s left h =
    let split : (q * 2 ^ 32 + s % 2 ^ 32) * 2 ^ left + s % 2 ^ left
        ≡ q * 2 ^ left * 2 ^ 32 + (s * 2 ^ left + s % 2 ^ left) =
      rw (mod-eq_of_lt h) (grind arith) in
    ap (λ (t : ℕ). t % 2 ^ 32) split ∙ mul-add-mod_self_right (q * 2 ^ left) (2 ^ 32) _

-- The edges of the interrupted call after the part of the first packet.
edges_after : ℕ → ℕ → ℕ → List Edge
edges_after left p s =
    shift_out 32 p
    ++ (latched
        ∷ (shift_out 32 s
            ++ (latched ∷ (shift_out left s ++ (latched ∷ (shift_out 32 s ++ (latched ∷ [])))))))

commands_from-edges_after :
    (left p s r : ℕ)
    → p < 2 ^ 32
    → s < 2 ^ 32
    → commands_from (edges_after left p s) r
      ≡ p ∷ s ∷ (s * 2 ^ left + s % 2 ^ left) % 2 ^ 32 ∷ s ∷ []
unfolding edges_after commands_from
commands_from-edges_after left p s r hp hs =
    rw
      (
        commands_from-packet p r _ hp,
        commands_from-packet s _ _ hs,
        commands_from-shift_out left s _ _,
        mixed_lem (r * 2 ^ 32 + p % 2 ^ 32) s left hs,
        commands_from-packet s _ [] hs,
      )
      refl

wires-torn_colour :
    (rounds left red' green' blue' red green blue : ℕ) (d : Driver)
    → (torn_colour rounds left (set_colour red' green' blue') red green blue d).wires
      ≡ d.wires
        ++ (shift_part rounds left (packet_of 0 blue red green)
            ++ edges_after left
                (packet_of 0 blue' red' green')
                (packet_of 1 d.blue_setting d.red_setting d.green_setting))
unfolding torn_colour set_colour edges_after
wires-torn_colour rounds left red' green' blue' red green blue d = simp append_assoc

shift_part-shift_out :
    (rounds left packet : ℕ)
    → shift_part rounds left packet ++ shift_out left packet ≡ shift_out (rounds + left) packet
unfolding shift_part shift_out
shift_part-shift_out zero left packet = ap (λ n. shift_out n packet) (omega arith)
shift_part-shift_out (suc rounds) left packet =
    let carried : suc (rounds + left) ≡ suc rounds + left = omega arith in
    ap (◌∷◌ (clocked (bit_and (packet >>> (rounds + left)) 1 == 1)))
      (shift_part-shift_out rounds left packet)
    ∙ ap (λ n. shift_out n packet) carried

torn_colour-idle :
    (rounds left red green blue : ℕ) (d : Driver)
    → rounds + left ≡ 32
    → torn_colour rounds left (λ k. k) red green blue d ≡ set_colour red green blue d
unfolding torn_colour set_colour
torn_colour-idle rounds left red green blue d whole =
    let p = packet_of 0 blue red green in
    let rest : List Edge → Driver = λ edges. latch (
      send_packet
        (record (latch (record d {
          command_mode = 0;
          red_command = red;
          green_command = green;
          blue_command = blue;
          wires = edges;
        })) { command_mode = 1 })) in
    ap rest (
      append_assoc d.wires (shift_part rounds left p) (shift_out left p)
      ∙ ap (λ edges. d.wires ++ edges)
          (shift_part-shift_out rounds left p ∙ ap (λ n. shift_out n p) whole))

-- The interrupt comes while the packet of a colour is shifted out, after any number of its bits. If
-- it does nothing, the colour is set as without it. If it sets a colour, the first colour is never
-- shown: the chip is told the colour of the interrupt, the current setting `s`, a word that is the
-- current setting shifted by the bits that are left with its lowest bits behind it, and the current
-- setting once more.
pub torn_colour_lem :
    (rounds left red' green' blue' red green blue : ℕ) (d : Driver)
    → rounds + left ≡ 32
    → let s = command_word 1 d.red_setting d.green_setting d.blue_setting in
      (torn_colour rounds left (λ k. k) red green blue d ≡ set_colour red green blue d)
      × (commands (torn_colour rounds left (set_colour red' green' blue') red green blue d).wires
          ≡ commands d.wires
            ++ (command_word 0 red' green' blue'
                ∷ s
                ∷ (s * 2 ^ left + s % 2 ^ left) % 2 ^ 32
                ∷ s
                ∷ []))
unfolding commands
torn_colour_lem rounds left red' green' blue' red green blue d whole =
    let part = shift_part rounds left (packet_of 0 blue red green) in
    let s = command_word 1 d.red_setting d.green_setting d.blue_setting in
    (
      torn_colour-idle rounds left red green blue d whole,
      rw
          (
            wires-torn_colour rounds left red' green' blue' red green blue d,
            packet_of_lem 0 blue' red' green',
            packet_of_lem 1 d.blue_setting d.red_setting d.green_setting,
            commands_from-append d.wires,
            commands_from-append part _ (register d.wires 0),
            commands_from-shift_part rounds left (packet_of 0 blue red green) (register d.wires 0),
            commands_from-edges_after left (command_word 0 red' green' blue') s _
                (command_word-lt 0 red' green' blue')
                (command_word-lt 1 d.red_setting d.green_setting d.blue_setting),
          )
          refl,
    )
