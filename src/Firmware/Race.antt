-- ===== src/Firmware/Race.antt =====
-- SphereWare/SphereWare.c: `init_val[pad] -= ...` in a hit and `init_val[pad] += ...` in a release,
-- which run with the interrupts enabled. Each reads the entry and then writes it, and the timer
-- interrupt may come between the two.
use sphere_ware.Base.{ℕ, ◌<◌, ◌≡◌, true, false, if◌then◌else◌, update, sub16, ◌==◌, arith, refl}
use sphere_ware.Play.State.{Pads}
use sphere_ware.Play.Press.{hysterisis_adjust}
use sphere_ware.Play.Standby.{tick, lower_from, lower_from_lem, any_from_found}

-- The statement of a hit, without the interrupt and with it after the read.
unfoldable pub adjust : ℕ → Pads → Pads
adjust pad p = record p {
  init_val = update p.init_val pad (sub16 (p.init_val pad) (hysterisis_adjust pad));
}

unfoldable pub torn_adjust : ℕ → Pads → Pads
torn_adjust pad p =
    let old = p.init_val pad in
    let p1 = tick p in
    record p1 { init_val = update p1.init_val pad (sub16 old (hysterisis_adjust pad)) }

-- The interrupt that ends the standby mode.
tick_wakes :
    (pad : ℕ) (p : Pads)
    → pad < 48
    → p.being_played pad ≡ true
    → p.thresholds_raised ≡ true
    → tick p ≡ record p {
      idle_count = 0;
      init_val = lower_from 48 0 p.init_val;
      thresholds_raised = false;
    }
unfolding tick
tick_wakes pad p lt played raised =
    ground (arith, any_from_found 54 0 pad p.being_played false (omega arith) (omega arith) played)

-- The first hit after a standby, whose pad is marked as played when the statement is reached: if the
-- interrupt comes before the statement or after it, the threshold of the pad comes down by the
-- hysteresis and by the 100 of the standby. If it comes between the read and the write, the standby
-- mode is over and the other pads come down by 100, but the pad only by the hysteresis.
pub torn_adjust_lem :
    (pad other : ℕ) (p : Pads)
    → pad < 48
    → other < 48
    → p.being_played pad ≡ true
    → p.thresholds_raised ≡ true
    → let down = hysterisis_adjust pad in
      let q = torn_adjust pad p in
      ((tick (adjust pad p)).init_val pad ≡ sub16 (sub16 (p.init_val pad) down) 100)
      × ((adjust pad (tick p)).init_val pad ≡ sub16 (sub16 (p.init_val pad) 100) down)
      × (q.thresholds_raised ≡ false)
      × (q.init_val other
          ≡ (if other == pad then sub16 (p.init_val pad) down else sub16 (p.init_val other) 100))
unfolding adjust torn_adjust
torn_adjust_lem pad other p lt lt' played raised =
    let down = hysterisis_adjust pad in
    let adjusted = update p.init_val pad (sub16 (p.init_val pad) down) in
    rw (tick_wakes pad p lt played raised, tick_wakes pad (adjust pad p) lt played raised)
      (
        ground (arith, lower_from_lem 48 0 pad adjusted),
        ground (arith, lower_from_lem 48 0 pad p.init_val),
        refl,
        ground (arith, lower_from_lem 48 0 other p.init_val),
      )
