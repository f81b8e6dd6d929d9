-- ===== src/Ports/Live.antt =====
-- SphereWare/ButtonsAndDials.c: lemmas on `ButtonsAndDials_Read` in normal use, with the flags of
-- the elite controls to write to.
use sphere_ware.Base.{
  ℕ, ◌≡◌, ◌≢◌, ◌==◌, Bool, if◌then◌else◌, bit_and, bit_or, ◌<<<◌, ◌>>>◌, Option, none, some,
  Option-cases, inl, inr, true, false, refl,
}
use sphere_ware.Ports.Buttons.{
  pressed, Controls, buttons_read, read_line, read_button, read_dial, read_dial_flag, set_played,
}

-- The flags are there.
abbrev pub IsLive : Controls → Type 0
IsLive c = c.being_played ≢ none

-- The call succeeds, and the flags are still there.
abbrev pub Lives : Option Controls → Type 0
Lives o = (c : Controls) × (o ≡ some c) × IsLive c

Lives-if : (b : Bool) {x y : Option Controls} → Lives x → Lives y → Lives (if b then x else y)
Lives-if true l r = l
Lives-if false l r = r

set_played-live : (i : ℕ) (v : Bool) (c : Controls) → IsLive c → Lives (set_played i v c)
unfolding set_played
set_played-live i v c live = elim (Option-cases c.being_played) [
  | inl bad ↦ absurd (live bad)
  | inr (flags, e) ↦ rw e (_, refl, λ bad. cc)
]

read_button-live :
    (line mask shift pind : ℕ) (c : Controls)
    → IsLive c
    → Lives (read_button line mask shift pind c)
unfolding read_button
read_button-live line mask shift pind c live =
    let buttons = bit_or (bit_and c.buttons mask) (pressed pind <<< shift) in
    let (c1, e, live1) =
      set_played-live line (bit_and (buttons >>> shift) 1 == 1) (record c { buttons = buttons })
        live in
    rw e (_, refl, live1)

read_dial-live :
    (line number pind : ℕ) (c : Controls) → IsLive c → Lives (read_dial line number pind c)
unfolding read_dial read_dial_flag
read_dial-live line number pind c live = elim (Option-cases c.being_played) [
  | inl bad ↦ absurd (live bad)
  | inr (flags, e) ↦ rw e (_, refl, λ bad. cc)
]

read_line-live : (line pind : ℕ) (c : Controls) → IsLive c → Lives (read_line line pind c)
unfolding read_line
read_line-live line pind c live = Lives-if (line == 1) (read_button-live 1 7 3 pind c live) (
    Lives-if (line == 0) (read_button-live 0 11 2 pind c live) (
      Lives-if (line == 3) (read_button-live 3 13 1 pind c live) (
        Lives-if (line == 5) (_, refl, live)
          (Lives-if (line == 2) (read_dial-live 2 0 pind c live)
            (Lives-if (line == 4) (read_dial-live 4 1 pind c live) (c, refl, live))))))

pub buttons_read-live : (pad pind : ℕ) (c : Controls) → IsLive c → Lives (buttons_read pad pind c)
unfolding buttons_read
buttons_read-live pad pind c live =
    let line = bit_and pad 7 in
    let (c1, e1, live1) = read_line-live line pind c live in
    rw e1
      (Lives-if (bit_and c1.buttons 1 == 0) (set_played-live line false c1 live1) (c1, refl, live1))
