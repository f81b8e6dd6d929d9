-- ===== src/Firmware/Passes.antt =====
-- SphereWare/SphereWare.c: without interrupts the parts of the main loop make up its passes.
use sphere_ware.Base.{
  ℕ, zero, suc, ◌+◌, ◌<◌, ◌≤◌, ◌≡◌, Option, some, ◌>>=◌, Option-cases, inl, inr, arith, refl,
  lt→ltb,
}
use sphere_ware.Led.Floats.{Floats}
use sphere_ware.Led.Colour.{set_led}
use sphere_ware.Play.Machine.{
  Machine, Answers, read_reset, read_controls, set_ladder, visit, visits, pass,
}
use sphere_ware.Firmware.Board.{at_reset, System, advance, advance_from}

-- The three parts of a round, with the same answers.
unfoldable pub round_parts : Floats → Answers → System → Option System
round_parts fp a s = advance fp a s >>= λ t. advance fp a t >>= λ u. advance fp a u

-- The rounds that are left, from `i` on.
unfoldable pub rounds : Floats → (ℕ → Answers) → ℕ → ℕ → System → Option System
rounds fp answers zero i s = some s
rounds fp answers (suc left) i s =
    round_parts fp (answers i) s >>= λ t. rounds fp answers left (i + 1) t

-- A pass: the 48 rounds and the LED.
unfoldable pub whole_pass : Floats → (ℕ → Answers) → System → Option System
whole_pass fp answers s = rounds fp answers 48 0 s >>= λ t. advance fp (answers 48) t

-- The state of the loop at `i`.
abbrev at_index : System → ℕ → Machine → System
at_index s i m = record s { phase = at_reset i; machine = m }

round_parts-visit :
    (fp : Floats) (a : Answers) (s : System) (i : ℕ) (m : Machine)
    → i < 48
    → round_parts fp a (at_index s i m) ≡ (visit a i m >>= λ m'. some (at_index s (i + 1) m'))
unfolding round_parts advance_from visit
round_parts-visit fp a s i m lt =
    let pad = m.round.pads.order.pad_order i in
    rw (lt→ltb i 48 lt)
      (elim (Option-cases (read_controls 5 0 pad a.pind (set_ladder i (read_reset a m)))) [
        | inl stuck ↦ rw stuck refl
        | inr (m3, read) ↦ rw read refl
      ])

rounds-visits :
    (fp : Floats) (answers : ℕ → Answers) (s : System) (left i : ℕ) (m : Machine)
    → i + left ≤ 48
    → rounds fp answers left i (at_index s i m)
      ≡ (visits left i answers m >>= λ m'. some (at_index s (i + left) m'))
unfolding rounds visits
rounds-visits fp answers s zero i m le = let e : i + 0 ≡ i = omega arith in rw e refl
rounds-visits fp answers s (suc left) i m le =
    rw (round_parts-visit fp (answers i) s i m (omega arith))
      (elim (Option-cases (visit (answers i) i m)) [
        | inl stuck ↦ rw stuck refl
        | inr (m1, done) ↦
            let e : i + 1 + left ≡ i + suc left = omega arith in
            rw done (rw e at (rounds-visits fp answers s left (i + 1) m1 (omega arith)))
      ])

-- The machine with the sum of the pressures at 0.
abbrev pub fresh : Machine → Machine
fresh m = record m { round = record m.round { led_sum = 0 } }

-- With the same answers and without interrupts, 48 times the three parts of a round and then the LED
-- do what the loops of `main` do in a pass, from any state, undefined steps included, and leave the
-- program at the start of the next pass.
pub whole_pass-pass :
    (fp : Floats) (answers : ℕ → Answers) (s : System) (m : Machine)
    → whole_pass fp answers (record s { phase = at_reset 0; machine = fresh m })
      ≡ (pass fp answers m >>= λ m'. some (record s { phase = at_reset 0; machine = fresh m' }))
unfolding whole_pass pass advance_from
whole_pass-pass fp answers s m =
    rw (rounds-visits fp answers s 48 0 (fresh m) (omega arith))
      (elim (Option-cases (visits 48 0 answers (fresh m))) [
        | inl stuck ↦ rw stuck refl
        | inr (m1, done) ↦
            rw done
              (elim (Option-cases
                (set_led fp m1.timing_count m1.prev_led_sum m1.round.led_sum m1.led)) [
                  | inl undefined ↦ rw undefined refl
                  | inr (shown, lit) ↦ rw lit refl
                ])
      ])
