-- ===== src/Firmware/Playing.antt =====
-- SphereWare/SphereWare.c: what the main loop and the interrupt keep of the state of the pads.
use sphere_ware.Base.{
  ℕ, ◌+◌, ◌*◌, ◌%◌, ◌<◌, ◌≤◌, ◌≡◌, Bool, true, false, arith, refl, List, if◌then◌else◌, sub16,
  neg16, slt, u16, Bool-cases, inl, inr,
}
use sphere_ware.Hid.Buffer.{write_pad_data}
use sphere_ware.Hid.MidiQueue.{IsQueue}
use sphere_ware.Hid.Pads.{IsWhole}
use sphere_ware.Play.State.{Pads, Round}
use sphere_ware.Play.Press.{
  hit, hold, release, unstick, process_pad, process_pad_se, blend, peak_of, velocity_of_peak,
}
use sphere_ware.Play.Levels.{blend-lt, process_pad-IsLevel}
use sphere_ware.Play.Balance.{IsBalanced, process_pad-IsBalanced, tick-IsBalanced}
use sphere_ware.Play.Standby.{tick}
use sphere_ware.Firmware.Report.{write_pad_data-IsQueue, write_pressure_only-IsQueue}

-- The threshold of a single-ended pad: the calibrated value, and 10 more while the pad is pressed.
-- The calibrated value is a reading of ten bits less 40.
abbrev pub IsThreshold : ℕ → Bool → ℕ → Type 0
IsThreshold base pressed threshold =
    ((base + 40) % 65536 < 1024)
    × (base < 65536)
    × (threshold ≡ (base + (if pressed then 10 else 0)) % 65536)

-- For calibrated values `base` and `base_se` of the thresholds: the filtered values fit into the
-- report, the order of the visits holds pads, each once, and the thresholds are the calibrated ones
-- with the adjustments of the flags.
pub record IsSteady (base base_se : ℕ → ℕ) (p : Pads) : Type 0 where
  pub fits : (q : ℕ) → p.filtered_val q < 512
  pub in_range : (k : ℕ) → k < 48 → p.order.pad_order k < 48
  pub distinct : (a b : ℕ) → a < 48 → b < 48 → p.order.pad_order a ≡ p.order.pad_order b → a ≡ b
  pub balanced : IsBalanced base p
  pub balanced_se :
      (q : ℕ) → 40 ≤ q → q < 48 → IsThreshold (base_se q) (p.hysterisis_applied q) (p.init_val_se q)

process_pad-order :
    (pad reading : ℕ) (readings : List ℕ) (r : Round)
    → (process_pad pad reading readings r).pads.order ≡ r.pads.order
unfolding process_pad hit hold release unstick
process_pad-order pad reading readings r = ground arith

process_pad-init_val_se :
    (pad reading : ℕ) (readings : List ℕ) (r : Round)
    → ((process_pad pad reading readings r).pads.init_val_se ≡ r.pads.init_val_se)
      × ((process_pad pad reading readings r).pads.hysterisis_applied ≡ r.pads.hysterisis_applied)
unfolding process_pad hit hold release unstick
process_pad-init_val_se pad reading readings r = ground arith

pub process_pad-IsSteady :
    (base base_se : ℕ → ℕ) (pad reading : ℕ) (readings : List ℕ) (r : Round)
    → IsWhole r.hid
    → IsSteady base base_se r.pads
    → IsSteady base base_se (process_pad pad reading readings r).pads
process_pad-IsSteady base base_se pad reading readings r w v =
    let order = process_pad-order pad reading readings r in
    let se = process_pad-init_val_se pad reading readings r in
    record {
      fits =
          (process_pad-IsLevel pad reading readings r (record { whole = w; fits = v.fits })).fits;
      in_range = rw order v.in_range;
      distinct = rw order v.distinct;
      balanced = process_pad-IsBalanced base pad reading readings r v.balanced;
      balanced_se = rw (se.0, se.1) v.balanced_se;
    }

two_tests-IsQueue :
    (b c : Bool) (x y z w : Round)
    → IsQueue x.hid
    → IsQueue y.hid
    → IsQueue z.hid
    → IsQueue w.hid
    → IsQueue (if b then (if c then x else y) else (if c then z else w)).hid
two_tests-IsQueue true true x y z w i j k l = i
two_tests-IsQueue true false x y z w i j k l = j
two_tests-IsQueue false true x y z w i j k l = k
two_tests-IsQueue false false x y z w i j k l = l

pub process_pad-IsQueue :
    (pad reading : ℕ) (readings : List ℕ) (r : Round)
    → pad < 48
    → IsQueue r.hid
    → IsQueue (process_pad pad reading readings r).hid
unfolding process_pad hit hold release
process_pad-IsQueue pad reading readings r lt q =
    let val = sub16 (neg16 reading) (r.pads.init_val pad) in
    let peak = velocity_of_peak (peak_of (r.pads.init_val pad) val readings) in
    let pressure = blend (r.pads.filtered_val pad) val in
    let sent = r.pads.velocity_sent pad in
    two_tests-IsQueue (slt 0 val) sent (hold pad val r) (hit pad val readings r) (release pad r) r
      (write_pressure_only-IsQueue pad pressure r.hid lt q)
      (write_pad_data-IsQueue pad peak peak r.hid lt q) (write_pad_data-IsQueue pad 0 0 r.hid lt q)
      q

process_pad_se-fits :
    (base pad reading q : ℕ) (r : Round)
    → reading < 1024
    → IsThreshold base (r.pads.hysterisis_applied pad) (r.pads.init_val_se pad)
    → r.pads.filtered_val q < 512
    → r.pads.filtered_val pad < 512
    → (process_pad_se pad reading r).pads.filtered_val q < 512
unfolding process_pad_se
process_pad_se-fits base pad reading q r small v hq hp =
    let val = sub16 (r.pads.init_val_se pad) reading in
    let positive : slt 0 val ≡ true → slt 0 (u16 (val * 2)) ≡ true = λ e. ground arith in
    let f = blend (r.pads.filtered_val pad) (u16 (val * 2)) in
    ground (arith, blend-lt (r.pads.filtered_val pad) (u16 (val * 2)) hp)

process_pad_se-IsThreshold :
    (base pad reading q : ℕ) (r : Round)
    → IsThreshold base (r.pads.hysterisis_applied q) (r.pads.init_val_se q)
    → let p' = (process_pad_se pad reading r).pads in
      IsThreshold base (p'.hysterisis_applied q) (p'.init_val_se q)
unfolding process_pad_se
process_pad_se-IsThreshold base pad reading q r v = (v.0, v.1, ground (arith, v.2))

process_pad_se-rest :
    (pad reading : ℕ) (r : Round)
    → let p' = (process_pad_se pad reading r).pads in
      (p'.order ≡ r.pads.order)
      × (p'.init_val ≡ r.pads.init_val)
      × (p'.velocity_sent ≡ r.pads.velocity_sent)
      × (p'.anti_sticky_applied ≡ r.pads.anti_sticky_applied)
      × (p'.thresholds_raised ≡ r.pads.thresholds_raised)
unfolding process_pad_se
process_pad_se-rest pad reading r = ground arith

pub process_pad_se-IsSteady :
    (base base_se : ℕ → ℕ) (pad reading : ℕ) (r : Round)
    → 40 ≤ pad
    → pad < 48
    → reading < 1024
    → IsSteady base base_se r.pads
    → IsSteady base base_se (process_pad_se pad reading r).pads
process_pad_se-IsSteady base base_se pad reading r low high small v =
    let (order, thresholds, sent, sticky, raised) = process_pad_se-rest pad reading r in
    record {
      fits = λ q.
          process_pad_se-fits (base_se pad) pad reading q r small (v.balanced_se pad low high)
            (v.fits q) (v.fits pad);
      in_range = rw order v.in_range;
      distinct = rw order v.distinct;
      balanced = rw (thresholds, sent, sticky, raised) v.balanced;
      balanced_se =
          λ q l h. process_pad_se-IsThreshold (base_se q) pad reading q r (v.balanced_se q l h);
    }

process_pad_se-hid :
    (pad reading : ℕ) (r : Round)
    → (value : ℕ) × (velocity : ℕ) × ((process_pad_se pad reading r).hid
        ≡ write_pad_data pad value velocity r.hid)
unfolding process_pad_se
process_pad_se-hid pad reading r =
    let val = sub16 (r.pads.init_val_se pad) reading in
    elim (Bool-cases (slt 0 val)) [
      | inl on ↦ (blend (r.pads.filtered_val pad) (u16 (val * 2)), 127, ground arith)
      | inr off ↦ (0, 0, rw off refl)
    ]

pub process_pad_se-IsQueue :
    (pad reading : ℕ) (r : Round)
    → pad < 48
    → IsQueue r.hid
    → IsQueue (process_pad_se pad reading r).hid
process_pad_se-IsQueue pad reading r lt q =
    let (value, velocity, same) = process_pad_se-hid pad reading r in
    rw same (write_pad_data-IsQueue pad value velocity r.hid lt q)

tick-rest :
    (p : Pads)
    → ((tick p).order ≡ p.order)
      × ((tick p).filtered_val ≡ p.filtered_val)
      × ((tick p).init_val_se ≡ p.init_val_se)
      × ((tick p).hysterisis_applied ≡ p.hysterisis_applied)
unfolding tick
tick-rest p = ground arith

pub tick-IsSteady :
    (base base_se : ℕ → ℕ) (p : Pads) → IsSteady base base_se p → IsSteady base base_se (tick p)
tick-IsSteady base base_se p v =
    let (order, filtered, thresholds, pressed) = tick-rest p in
    record {
      fits = rw filtered v.fits;
      in_range = rw order v.in_range;
      distinct = rw order v.distinct;
      balanced = tick-IsBalanced base p v.balanced;
      balanced_se = rw (thresholds, pressed) v.balanced_se;
    }

-- A pad adds at most 511 to the sum of the pressures.
pub process_pad-led_sum :
    (pad reading : ℕ) (readings : List ℕ) (r : Round)
    → let r' = process_pad pad reading readings r in
      r'.pads.filtered_val pad < 512 → r'.led_sum ≤ r.led_sum + 511
unfolding process_pad hit hold release
process_pad-led_sum pad reading readings r fits = ground arith

pub process_pad_se-led_sum :
    (pad reading : ℕ) (r : Round)
    → let r' = process_pad_se pad reading r in
      r'.pads.filtered_val pad < 512 → r'.led_sum ≤ r.led_sum + 511
unfolding process_pad_se
process_pad_se-led_sum pad reading r fits = ground arith
