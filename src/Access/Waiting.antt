-- ===== src/Access/Waiting.antt =====
-- Bootloader/HostLoaderApp/hid_bootloader_cli.c: the loop of `main` that waits for the device, on a
-- variant of the access to USB.
use sphere_ware.Base.{
  ◌≡◌, Bool, true, false, not, ◌&&◌, ◌||◌, ◌∙◌, if◌then◌else◌, List, [], ◌∷◌, Option, none, some,
  refl, sym, arith,
}
use mathlib.Core.Path.{subst}
use sphere_ware.Access.{Host, Access, IsBalanced}
use sphere_ware.Access.Ledger.{Opens, Reboots, IsAccess, is_open}
use sphere_ware.Update.Program.{Opened, opened, gave_up, waiting, open_device}

-- `if (teensy_open()) break;`
abbrev after_open :
    Option (Bool × Host) → Bool → (Host → Option (Opened × Host)) → Option (Opened × Host)
after_open none waited next = none
after_open (some (true, t)) waited next = some (opened waited, t)
after_open (some (false, t)) waited next = next t

-- `if (!hard_reboot()) die(...);`
abbrev after_reboot :
    Option (Bool × Host) → (Host → Option (Opened × Host)) → Option (Opened × Host)
after_reboot none next = none
after_reboot (some (true, t)) next = next t
after_reboot (some (false, t)) next = some (gave_up, t)

module _ (a : Access) where
  open a use {Answers, Written, teensy_open, hard_reboot, owned}

  -- What the system answers in a round of the loop.
  pub record Attempt : Type 0 where
    pub opening : Answers × Answers
    pub rebooting : Answers × Answers
    pub reboot_written : Written

  -- The loop of `main`: `none` if `open_usb_device` ends the program.
  unfoldable pub wait_loop : List Attempt → Bool → Bool → Bool → Host → Option (Opened × Host)
  wait_loop [] hard wait waited s = some (waiting, s)
  wait_loop (x ∷ rest) hard wait waited s =
      let again = λ (u : Host). wait_loop rest false true true u in
      after_open (teensy_open x.opening s) waited λ t.
        if hard
        then after_reboot (hard_reboot x.rebooting x.reboot_written t) again
        else if wait
        then again t
        else some (gave_up, t)

  -- A result, where the run does not end in `die`.
  abbrev pub Agrees : Option (Bool × Host) → Bool → Type 0
  Agrees none b = Unit
  Agrees (some (result, t)) b = b ≡ result

  -- Which answers let `teensy_open` and `hard_reboot` succeed, whatever the state is.
  pub record Decides : Type 0 where
    pub opens : Answers × Answers → Bool
    pub reboots : Answers × Answers → Written → Bool
    pub opens_so :
        (answers : Answers × Answers) (s : Host) → Agrees (teensy_open answers s) (opens answers)
    pub reboots_so :
        (answers : Answers × Answers) (w : Written) (s : Host)
        → Agrees (hard_reboot answers w s) (reboots answers w)

  abbrev pub HasDevice : Opened → Host → Type 0
  HasDevice (opened waited) t = is_open t.handle ≡ true
  HasDevice gave_up t = Unit
  HasDevice waiting t = Unit

  -- Only the first round can ask for a reboot.
  open_device-works :
      (answers : List Bool) (works other wait waited : Bool)
      → open_device answers works false wait waited ≡ open_device answers other false wait waited
  unfolding open_device
  open_device-works [] works other wait waited = refl
  open_device-works (answer ∷ rest) works other wait waited =
      ground (arith, open_device-works rest works other (false || wait) true)

  module _ (d : Decides) where
    -- In which rounds `teensy_open` succeeds, and whether `hard_reboot` would in the first one.
    abbrev pub opened_in : List Attempt → List Bool
    opened_in [] = []
    opened_in (x ∷ rest) = d.opens x.opening ∷ opened_in rest

    abbrev pub rebooted_in : List Attempt → Bool
    rebooted_in [] = true
    rebooted_in (x ∷ rest) = d.reboots x.rebooting x.reboot_written

    -- The loop ends as `open_device` does with the answers of these rounds.
    pub record Ends (rounds : List Attempt) (hard wait waited : Bool) (o : Opened) (t : Host)
        : Type 0 where
      pub same_end : open_device (opened_in rounds) (rebooted_in rounds) hard wait waited ≡ o
      pub balanced : IsBalanced owned t
      pub has_device : HasDevice o t

    abbrev Result : List Attempt → Bool → Bool → Bool → Option (Opened × Host) → Type 0
    Result rounds hard wait waited none = Unit
    Result rounds hard wait waited (some (o, t)) = Ends rounds hard wait waited o t

    -- A round in which `teensy_open` fails and the loop goes on.
    go_on :
        (x : Attempt) (rest : List Attempt) (hard wait waited : Bool) (r : Option (Opened × Host))
        → d.opens x.opening ≡ false
        → (hard || wait) ≡ true
        → (hard && not (d.reboots x.rebooting x.reboot_written)) ≡ false
        → Result rest false true true r
        → Result (x ∷ rest) hard wait waited r
    unfolding open_device
    go_on x rest hard wait waited none off more works e = tt
    go_on x rest hard wait waited (some (o, t)) off more works e = record {
      same_end =
          rw (off, works, more)
            (open_device-works (opened_in rest) (d.reboots x.rebooting x.reboot_written)
                (rebooted_in rest) true true
              ∙ e.same_end);
      balanced = e.balanced;
      has_device = e.has_device;
    }

    after_open-Result :
        (x : Attempt) (rest : List Attempt) (hard wait waited : Bool) (r : Option (Bool × Host))
        (next : Host → Option (Opened × Host))
        → Opens owned r
        → Agrees r (d.opens x.opening)
        → ((t : Host)
            → d.opens x.opening ≡ false
            → IsBalanced owned t
            → Result (x ∷ rest) hard wait waited (next t))
        → Result (x ∷ rest) hard wait waited (after_open r waited next)
    unfolding open_device
    after_open-Result x rest hard wait waited none next l agrees more = tt
    after_open-Result x rest hard wait waited (some (true, t)) next (balanced, has) agrees more =
        record { same_end = rw agrees refl; balanced = balanced; has_device = sym has }
    after_open-Result x rest hard wait waited (some (false, t)) next (balanced, has) agrees more =
        more t agrees balanced

    after_reboot-Result :
        (x : Attempt) (rest : List Attempt) (wait waited : Bool) (s : Host)
        (r : Option (Bool × Host)) (next : Host → Option (Opened × Host))
        → d.opens x.opening ≡ false
        → Reboots owned s r
        → Agrees r (d.reboots x.rebooting x.reboot_written)
        → ((t : Host) → IsBalanced owned t → Result rest false true true (next t))
        → Result (x ∷ rest) true wait waited (after_reboot r next)
    unfolding open_device
    after_reboot-Result x rest wait waited s none next off l agrees more = tt
    after_reboot-Result x rest wait waited s (some (true, t)) next off (balanced, kept) agrees
          more =
        go_on x rest true wait waited (next t) off refl (rw agrees refl) (more t balanced)
    after_reboot-Result x rest wait waited s (some (false, t)) next off (balanced, kept) agrees
          more =
        record { same_end = rw (off, agrees) refl; balanced = balanced; has_device = tt }

    module _ (good : IsAccess a) where
      failed-Result :
          (x : Attempt) (rest : List Attempt) (hard wait waited : Bool) (t : Host)
          → d.opens x.opening ≡ false
          → IsBalanced owned t
          → ((u : Host)
              → IsBalanced owned u
              → Result rest false true true (wait_loop rest false true true u))
          → Result (x ∷ rest) hard wait waited (
              if hard
              then after_reboot
                  (hard_reboot x.rebooting x.reboot_written t)
                  (λ u. wait_loop rest false true true u)
              else if wait
              then wait_loop rest false true true t
              else some (gave_up, t))
      unfolding open_device
      failed-Result x rest true wait waited t off b again =
          after_reboot-Result x rest wait waited t _ _ off
            (good.reboots x.rebooting x.reboot_written t b)
            (d.reboots_so x.rebooting x.reboot_written t) again
      failed-Result x rest false true waited t off b again =
          go_on x rest false true waited _ off refl refl (again t b)
      failed-Result x rest false false waited t off b again = record {
        same_end = rw off refl;
        balanced = b;
        has_device = tt;
      }

      wait_loop-Result :
          (rounds : List Attempt) (hard wait waited : Bool) (s : Host)
          → IsBalanced owned s
          → Result rounds hard wait waited (wait_loop rounds hard wait waited s)
      unfolding wait_loop open_device
      wait_loop-Result [] hard wait waited s b = record {
        same_end = refl;
        balanced = b;
        has_device = tt;
      }
      wait_loop-Result (x ∷ rest) hard wait waited s b =
          after_open-Result x rest hard wait waited (teensy_open x.opening s) _
            (good.opens x.opening s b) (d.opens_so x.opening s)
            (λ t off balanced.
              failed-Result x rest hard wait waited t off balanced
                (λ u held. wait_loop-Result rest false true true u held))

      -- On a variant that keeps its promises and whose answers decide when it succeeds, with nothing
      -- held but the open device: where the loop of `main` comes to an end, it is the end that the
      -- model of the whole program has for the rounds in which these answers let `teensy_open`
      -- succeed and for whether they let `hard_reboot` succeed in the first round. A device is then
      -- open if it is the end `opened`, and nothing else is held.
      pub wait_loop-open_device :
          (rounds : List Attempt) (hard wait waited : Bool) (s : Host) {o : Opened} {t : Host}
          → IsBalanced owned s
          → wait_loop rounds hard wait waited s ≡ some (o, t)
          → (open_device (opened_in rounds) (rebooted_in rounds) hard wait waited ≡ o)
            × IsBalanced owned t
            × HasDevice o t
      wait_loop-open_device rounds hard wait waited s b e =
          let v =
            subst (Result rounds hard wait waited) e
              (wait_loop-Result rounds hard wait waited s b) in
          (v.same_end, v.balanced, v.has_device)
