-- ===== src/Led/Late.antt =====
-- SphereWare/SphereWare.c: `LED_Set_Colour` at the end of the colour of the LED in normal mode, which
-- runs with the interrupts enabled. The timer interrupt, which takes the messages of the host, may
-- come between the test of `LED_Status` and that call.
use sphere_ware.Base.{
  ℕ, ◌≡◌, ◌≢◌, Option, some, sym, ◌∙◌, ◌>>=◌, ◌++◌, arith, refl, ap, Option-cases, inl, inr,
}
use mathlib.Core.Option.{some-injective}
use mathlib.Core.List.{append_assoc}
use sphere_ware.Led.Floats.{Floats}
use sphere_ware.Led.Driver.{set_colour}
use sphere_ware.Led.Wires.{commands, set_colour_lem}
use sphere_ware.Led.Settings.{Led, show, set_status}
use sphere_ware.Led.Modes.{shows, set_status_lem}
use sphere_ware.Led.Colour.{Colour, set_led, pressure_colour, clock_colour}

-- The end of the branch for normal mode, from the clock interaction on; `interrupt` runs before the
-- colour is sent.
unfoldable pub finish : Floats → (Led → Led) → ℕ → ℕ → Led → Option Colour → Option (Led × ℕ)
finish fp interrupt count sum l chosen =
    let (shown, l1) = clock_colour fp count chosen l in
    shown >>= λ c. some (show c.red c.green c.blue (interrupt l1), sum)

-- The branch for normal mode with the LED on.
unfoldable pub late : Floats → (Led → Led) → ℕ → ℕ → ℕ → Led → Option (Led × ℕ)
unfolding finish
late fp interrupt count prev_led_sum led_sum l =
    let (chosen, sum) = pressure_colour fp prev_led_sum led_sum l in
    finish fp interrupt count sum l chosen

-- The clock interaction changes nothing but the step of the fading.
clock_colour-step :
    (fp : Floats) (count : ℕ) (c : Option Colour) (l : Led)
    → (step : ℕ) × ((clock_colour fp count c l).1 ≡ record l { fade_step = step })
unfolding clock_colour
clock_colour-step fp count c l = ((clock_colour fp count c l).1.fade_step, ground arith)

-- With the LED off in normal mode a pass of the main loop sends nothing.
set_led-off :
    (fp : Floats) (count prev_led_sum led_sum : ℕ) (l : Led)
    → l.mode ≡ 0
    → l.status ≡ 0
    → set_led fp count prev_led_sum led_sum l ≡ some (l, led_sum)
unfolding set_led
set_led-off fp count prev_led_sum led_sum l normal off = ground arith

set_led-on :
    (fp : Floats) (count prev_led_sum led_sum : ℕ) (l : Led)
    → l.mode ≡ 0
    → l.status ≢ 0
    → set_led fp count prev_led_sum led_sum l ≡ late fp (λ l1. l1) count prev_led_sum led_sum l
unfolding set_led late finish
set_led-on fp count prev_led_sum led_sum l normal on = ground arith

set_status-mode : (status : ℕ) (l : Led) → (set_status status l).mode ≡ l.mode
unfolding set_status
set_status-mode status l = ground arith

-- What the chip is told by a colour, and by the two orders of a colour and the switching off.
commands-show :
    (c : Colour) (l : Led)
    → commands (show c.red c.green c.blue l).driver.wires
      ≡ commands l.driver.wires ++ shows c.red c.green c.blue l
commands-show c l = set_colour_lem c.red c.green c.blue l.driver

commands-off :
    (l : Led)
    → l.mode ≡ 0
    → commands (set_status 0 l).driver.wires ≡ commands l.driver.wires ++ shows 0 0 0 l
unfolding set_status
commands-off l normal = ground (arith, set_colour_lem 0 0 0 l.driver)

shows-show :
    (c : Colour) (red green blue : ℕ) (l : Led)
    → shows red green blue (show c.red c.green c.blue l) ≡ shows red green blue l
unfolding set_colour
shows-show c red green blue l = refl

shows-set_status :
    (red green blue : ℕ) (l : Led) → shows red green blue (set_status 0 l) ≡ shows red green blue l
unfolding set_status set_colour
shows-set_status red green blue l = ground arith

colour_then_off :
    (c : Colour) (l : Led)
    → l.mode ≡ 0
    → commands (set_status 0 (show c.red c.green c.blue l)).driver.wires
      ≡ commands l.driver.wires ++ (shows c.red c.green c.blue l ++ shows 0 0 0 l)
colour_then_off c l normal =
    rw
      (
        commands-off (show c.red c.green c.blue l) normal,
        shows-show c 0 0 0 l,
        commands-show c l,
        append_assoc (commands l.driver.wires) (shows c.red c.green c.blue l) (shows 0 0 0 l),
      )
      refl

off_then_colour :
    (c : Colour) (l : Led)
    → l.mode ≡ 0
    → commands (show c.red c.green c.blue (set_status 0 l)).driver.wires
      ≡ commands l.driver.wires ++ (shows 0 0 0 l ++ shows c.red c.green c.blue l)
off_then_colour c l normal =
    rw
      (
        commands-show c (set_status 0 l),
        shows-set_status c.red c.green c.blue l,
        commands-off l normal,
        append_assoc (commands l.driver.wires) (shows 0 0 0 l) (shows c.red c.green c.blue l),
      )
      refl

-- The settings at the end of a pass, with the interrupt before the colour is sent and without it.
finish_lem :
    (fp : Floats) (interrupt : Led → Led) (count sum next : ℕ) (l l' : Led) (chosen : Option Colour)
    → finish fp (λ l1. l1) count sum l chosen ≡ some (l', next)
    → (shown : Colour) × (step : ℕ) × (l'
        ≡ show shown.red shown.green shown.blue (record l { fade_step = step }))
      × (finish fp interrupt count sum l chosen
          ≡ some (
            show shown.red shown.green shown.blue (interrupt (record l { fade_step = step })),
            next,
          ))
unfolding finish
finish_lem fp interrupt count sum next l l' chosen e =
    let (step, changed) = clock_colour-step fp count chosen l in
    elim (Option-cases (clock_colour fp count chosen l).0) [
      | inl no_value ↦ absurd (ground (arith, e, no_value))
      | inr (shown, value) ↦
          let same = some-injective _ _ (rw (value, changed) at e) in
          (
            shown,
            step,
            sym (ap (λ (r : Led × ℕ). r.0) same),
            rw (value, changed, ap (λ (r : Led × ℕ). r.1) same) refl,
          )
    ]

-- The host switches the LED off in normal mode, in a pass whose colour has a value. If the message is taken after the colour of a pass
-- is computed and before it is sent, the chip is told black and then that colour, and since the
-- status is 0, every later pass leaves the colour on. If it is taken after the pass, black is last.
pub late_left_on :
    (fp : Floats) (count prev_led_sum led_sum next : ℕ) (l l' : Led)
    → l.mode ≡ 0
    → l.status ≢ 0
    → set_led fp count prev_led_sum led_sum l ≡ some (l', next)
    → (c : Colour) × (q : Led) × (commands (set_status 0 l').driver.wires
        ≡ commands l.driver.wires ++ (shows c.red c.green c.blue l ++ shows 0 0 0 l))
      × (late fp (set_status 0) count prev_led_sum led_sum l ≡ some (q, next))
      × (commands q.driver.wires
          ≡ commands l.driver.wires ++ (shows 0 0 0 l ++ shows c.red c.green c.blue l))
      × (q.status ≡ 0)
      × ((count' prev sum : ℕ) → set_led fp count' prev sum q ≡ some (q, sum))
unfolding late
late_left_on fp count prev_led_sum led_sum next l l' normal on e =
    let (c, step, drawn, ended) =
      finish_lem fp (set_status 0) count (pressure_colour fp prev_led_sum led_sum l).1 next l l'
        (pressure_colour fp prev_led_sum led_sum l).0
        (sym (set_led-on fp count prev_led_sum led_sum l normal on) ∙ e) in
    let faded : Led = record l { fade_step = step } in
    (
      c,
      show c.red c.green c.blue (set_status 0 faded),
      ap (λ (k : Led). commands (set_status 0 k).driver.wires) drawn
          ∙ colour_then_off c faded normal,
      ended,
      off_then_colour c faded normal,
      (set_status_lem 0 faded).0,
      λ count' prev sum.
          set_led-off fp count' prev sum _ (set_status-mode 0 faded ∙ normal)
            ((set_status_lem 0 faded).0),
    )
