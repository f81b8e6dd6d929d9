-- ===== src/Firmware/Calibrated.antt =====
-- SphereWare/SphereWare.c: `Calibrate` brings the pads into a steady state.
use sphere_ware.Base.{
  ℕ, zero, suc, ◌+◌, ◌<◌, ◌≤◌, ◌≡◌, false, ◌&&◌, leb, ltb, if◌then◌else◌, update, sub16, neg16,
  for_range, arith, Bool-cases, inl, inr,
}
use sphere_ware.Hid.Buffer.{Hid}
use sphere_ware.Play.State.{Pads}
use sphere_ware.Play.Calibrate.{
  search, calibrate_pad, calibrate_pad_se, calibrate_pads, calibrate, in_reach,
}
use sphere_ware.Play.Visits.{calibrate-pad_order}
use sphere_ware.Hid.MidiQueue.{IsQueue}
use sphere_ware.Firmware.Report.{clear-IsQueue}
use sphere_ware.Firmware.Playing.{IsSteady, IsThreshold}

for_range-keeps {ℓ κ} :
    {State : Type ℓ} (P : State → Type κ) (round : ℕ → State → State)
    → ((i : ℕ) (s : State) → P s → P (round i s))
    → (n i : ℕ) (s : State) → P s
    → P (for_range n i round s)
for_range-keeps P round keeps zero i s p = p
for_range-keeps P round keeps (suc n) i s p =
    for_range-keeps P round keeps n (suc i) (round i s) (keeps i s p)

-- The thresholds are patterns, and the standby mode is off.
pub record IsAwake (p : Pads) : Type 0 where
  pub low : p.thresholds_raised ≡ false
  pub patterns : (q : ℕ) → q < 40 → p.init_val q < 65536

search-IsAwake :
    (sample : ℕ → ℕ) (pad left i : ℕ) (p : Pads) → IsAwake p → IsAwake (search sample pad left i p)
unfolding search
search-IsAwake sample pad zero i p v = v
search-IsAwake sample pad (suc left) i p v = elim (Bool-cases (in_reach (neg16 (sample i)))) [
  | inl found ↦ rw found (record { low = v.low; patterns = λ q h. ground (arith, v.patterns q h) })
  | inr beyond ↦ rw beyond (search-IsAwake sample pad left (suc i) p v)
]

calibrate_pad-IsAwake :
    (samples : ℕ → ℕ → ℕ) (pad : ℕ) (p : Pads) → IsAwake p → IsAwake (calibrate_pad samples pad p)
unfolding calibrate_pad
calibrate_pad-IsAwake samples pad p v =
    let p1 = record p {
      order = record p.order { r2r_val = update p.order.r2r_val pad 0 };
      filtered_val = update p.filtered_val pad 0;
    } in
    let found =
      search-IsAwake (samples pad) pad 64 0 p1 (record { low = v.low; patterns = v.patterns }) in
    record { low = found.low; patterns = found.patterns }

calibrate_pads-IsAwake :
    (samples : ℕ → ℕ → ℕ) (samples_se : ℕ → ℕ) (p : Pads)
    → IsAwake p
    → IsAwake (calibrate_pads samples samples_se p)
unfolding calibrate_pads calibrate_pad_se
calibrate_pads-IsAwake samples samples_se p v =
    for_range-keeps IsAwake (calibrate_pad_se samples_se)
      (λ i s w. record { low = w.low; patterns = w.patterns }) 8 40
      (for_range 40 0 (calibrate_pad samples) p)
      (for_range-keeps IsAwake (calibrate_pad samples) (calibrate_pad-IsAwake samples) 40 0 p v)

second_loop-init_val_se :
    (samples_se : ℕ → ℕ) (n i q : ℕ) (p : Pads)
    → (for_range n i (calibrate_pad_se samples_se) p).init_val_se q
      ≡ (if leb i q && ltb q (i + n) then sub16 (samples_se q) 40 else p.init_val_se q)
unfolding calibrate_pad_se
second_loop-init_val_se samples_se zero i q p = ground arith
second_loop-init_val_se samples_se (suc n) i q p =
    ground (arith, second_loop-init_val_se samples_se n (suc i) q (calibrate_pad_se samples_se i p))

calibrated-IsThreshold :
    (sample : ℕ) → sample < 1024 → IsThreshold (sub16 sample 40) false (sub16 sample 40)
calibrated-IsThreshold sample h = (omega arith, omega arith, omega arith)

calibrate-init_val_se :
    (samples : ℕ → ℕ → ℕ) (samples_se : ℕ → ℕ) (p : Pads) (h : Hid) (q : ℕ)
    → 40 ≤ q
    → q < 48
    → (calibrate samples samples_se p h).0.init_val_se q ≡ sub16 (samples_se q) 40
unfolding calibrate calibrate_pads
calibrate-init_val_se samples samples_se p h q low high =
    ground
      (arith, second_loop-init_val_se samples_se 8 40 q (for_range 40 0 (calibrate_pad samples) p))

-- The values that `Calibrate` finds are the calibrated values of a steady state.
pub calibrate-IsSteady :
    (samples : ℕ → ℕ → ℕ) (samples_se : ℕ → ℕ) (p : Pads) (h : Hid)
    → ((pad : ℕ) → samples_se pad < 1024)
    → IsAwake p
    → let p' = (calibrate samples samples_se p h).0 in IsSteady p'.init_val p'.init_val_se p'
unfolding calibrate
calibrate-IsSteady samples samples_se p h small v =
    let order = calibrate-pad_order samples samples_se p h in
    let awake = calibrate_pads-IsAwake samples samples_se p v in
    record {
      fits = λ q. omega arith;
      in_range = λ k lt. (order k k lt lt).0;
      distinct = λ a b ha hb. (order a b ha hb).1;
      balanced = λ q lt. ground (arith, awake.low, awake.patterns q lt);
      balanced_se = λ q low high.
          rw (calibrate-init_val_se samples samples_se p h q low high)
            (calibrated-IsThreshold (samples_se q) (small q));
    }

pub calibrate-IsQueue :
    (samples : ℕ → ℕ → ℕ) (samples_se : ℕ → ℕ) (p : Pads) (h : Hid)
    → IsQueue h
    → IsQueue (calibrate samples samples_se p h).1
unfolding calibrate
calibrate-IsQueue samples samples_se p h q = clear-IsQueue h q
