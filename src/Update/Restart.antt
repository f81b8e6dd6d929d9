-- ===== src/Update/Restart.antt =====
-- Bootloader/BootloaderHID.c: `main`, from the first instructions to the restart that the watchdog
-- forces. The requests that `USB_USBTask` handles come in two groups for each period of a second,
-- those while the LED is on and those while it is off.
use sphere_ware.Base.{
  ◌∙◌, ℕ, ◌≡◌, Bool, true, false, if◌then◌else◌, List, [], ◌∷◌, ◌++◌, Option, none, some, ◌>>=◌,
  Bool-cases, inl, inr, arith, refl,
}
use sphere_ware.Led.Driver.{Driver, set_colour}
use sphere_ware.Update.Flash.{Spm}
use sphere_ware.Update.Handler.{Boot, control_request, application_jump_check, magic_boot_key}
use sphere_ware.Update.Loader.{reboot_packet}
use sphere_ware.Update.Packets.{words}

pub record Request : Type 0 where
  pub request_type : ℕ
  pub request : ℕ
  pub word : ℕ → ℕ

pub record Period : Type 0 where
  pub lit : List Request
  pub dark : List Request

-- The request that carries the reboot packet.
abbrev pub reboot_request : Request
reboot_request = record { request_type = 0x21; request = 0x09; word = words reboot_packet }

module _ (spm : Spm) where
  -- `MagicBootKey`, `RunBootloader` and the flash memory, and the LED, when `main` waits for the
  -- watchdog.
  pub record End : Type 0 where
    pub key : ℕ
    pub boot : Boot spm
    pub driver : Driver

  -- The requests of half a period.
  unfoldable pub handle : List Request → Boot spm → Boot spm
  handle [] b = b
  handle (r ∷ rest) b = handle rest (control_request spm r.request_type r.request r.word b)

  -- The `while` loop: `none` if it still runs after these periods.
  unfoldable pub run_periods : List Period → Boot spm → Driver → Option (Boot spm × Driver)
  run_periods [] b d = if b.run_bootloader then none else some (b, d)
  run_periods (p ∷ rest) b d =
      let b2 = handle p.dark (handle p.lit b) in
      let next = run_periods rest b2 (set_colour 0 0 0 (set_colour 1023 0 0 d)) in
      if b.run_bootloader then next else some (b, d)

  -- main, with the LED of SetupHardware. `pe2_low` is the test of the reset button.
  unfoldable pub boot_main : Bool → List Period → Boot spm → Driver → Option End
  boot_main pe2_low periods b d =
      let d1 = set_colour 1023 0 0 d in
      (if pe2_low then run_periods periods b d1 else some (b, d1)) >>= λ last.
      some (record { key = magic_boot_key; boot = last.0; driver = last.1 })

  control_request-stopped :
      (r : Request) (b : Boot spm)
      → b.run_bootloader ≡ false
      → (control_request spm r.request_type r.request r.word b).run_bootloader ≡ false
  unfolding control_request
  control_request-stopped r b e = ground arith

  handle-stopped :
      (rs : List Request) (b : Boot spm)
      → b.run_bootloader ≡ false
      → (handle rs b).run_bootloader ≡ false
  unfolding handle
  handle-stopped [] b e = e
  handle-stopped (r ∷ rest) b e = handle-stopped rest _ (control_request-stopped r b e)

  handle-reboot :
      (before after : List Request) (b : Boot spm)
      → (handle (before ++ (reboot_request ∷ after)) b).run_bootloader ≡ false
  unfolding handle control_request reboot_packet
  handle-reboot [] after b = handle-stopped after _ refl
  handle-reboot (r ∷ before) after b = handle-reboot before after _

  run_periods-stopped :
      (ps : List Period) (b : Boot spm) (d : Driver)
      → b.run_bootloader ≡ false
      → run_periods ps b d ≡ some (b, d)
  unfolding run_periods
  run_periods-stopped [] b d e = rw e refl
  run_periods-stopped (p ∷ ps) b d e = rw e refl

  run_periods_on :
      (p : Period) (rest : List Period) (b : Boot spm) (d : Driver)
      → b.run_bootloader ≡ true
      → run_periods (p ∷ rest) b d
        ≡ run_periods rest
            (handle p.dark (handle p.lit b))
            (set_colour 0 0 0 (set_colour 1023 0 0 d))
  unfolding run_periods
  run_periods_on p rest b d e = ground arith

  -- A period in whose lit or dark half the reboot packet comes.
  abbrev pub reboot_period : Bool → List Request → List Request → List Request → Period
  reboot_period is_lit before after other =
      let half = before ++ (reboot_request ∷ after) in
      if is_lit then record { lit = half; dark = other } else record { lit = other; dark = half }

  handle-reboot_period :
      (is_lit : Bool) (before after other : List Request) (b : Boot spm)
      → let p = reboot_period is_lit before after other in
        (handle p.dark (handle p.lit b)).run_bootloader ≡ false
  handle-reboot_period true before after other b =
      handle-stopped other _ (handle-reboot before after b)
  handle-reboot_period false before after other b = handle-reboot before after (handle other b)

  run_periods-reboot :
      (is_lit : Bool) (earlier later : List Period) (before after other : List Request)
      (b : Boot spm) (d : Driver)
      → let reboot = reboot_period is_lit before after other in
        (last : Boot spm × Driver) × (run_periods (earlier ++ (reboot ∷ later)) b d ≡ some last)
  run_periods-reboot is_lit [] later before after other b d = elim (Bool-cases b.run_bootloader) [
    | inl on ↦
        let reboot = reboot_period is_lit before after other in
        let b2 = handle reboot.dark (handle reboot.lit b) in
        (
          _,
          run_periods_on reboot later b d on
              ∙ run_periods-stopped later b2 (set_colour 0 0 0 (set_colour 1023 0 0 d))
                  (handle-reboot_period is_lit before after other b),
        )
    | inr off ↦ (_, run_periods-stopped _ b d off)
  ]
  run_periods-reboot is_lit (p ∷ earlier) later before after other b d =
      elim (Bool-cases b.run_bootloader) [
        | inl on ↦
            let (last, e) =
              run_periods-reboot is_lit earlier later before after other
                (handle p.dark (handle p.lit b)) (set_colour 0 0 0 (set_colour 1023 0 0 d)) in
            (last, run_periods_on p _ b d on ∙ e)
        | inr off ↦ (_, run_periods-stopped _ b d off)
      ]

  -- Whatever else the host sends before and after, once the reboot packet has come, in the lit or the
  -- dark half of a period, `main` of the bootloader ends with a key with which, after the restart by
  -- the watchdog, the application is started and the key is cleared. The same holds if the reset
  -- button is not pressed at the start.
  pub boot_main_restart :
      (pe2_low is_lit : Bool) (earlier later : List Period) (before after other : List Request)
      (b : Boot spm) (d : Driver)
      → let reboot = reboot_period is_lit before after other in
        (last : End) × (boot_main pe2_low (earlier ++ (reboot ∷ later)) b d ≡ some last)
        × (application_jump_check true last.key ≡ (true, 0))
  unfolding boot_main application_jump_check
  boot_main_restart true is_lit earlier later before after other b d =
      let (last, e) =
        run_periods-reboot is_lit earlier later before after other b (set_colour 1023 0 0 d) in
      rw e (_, refl, refl)
  boot_main_restart false is_lit earlier later before after other b d = (_, refl, refl)
