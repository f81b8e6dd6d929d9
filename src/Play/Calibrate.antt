-- ===== src/Play/Calibrate.antt =====
-- SphereWare/SphereWare.c: `Calibrate`. The readings of the converter are functions: `samples pad
-- i` for a differential pad with the ladder at `i`, `samples_se pad` for a single-ended one.
use sphere_ware.Base.{
  ℕ, zero, suc, Bool, false, ltb, if◌then◌else◌, update, add16, sub16, neg16, minus16, slt,
  for_range,
}
use sphere_ware.Scan.Sort.{bubble_sort}
use sphere_ware.Hid.Buffer.{Hid, clear}
use sphere_ware.Play.State.{Pads}

-- THRESHOLD_UNDER_8, THRESHOLD and THRESHOLD_OVER_39
abbrev pub threshold : ℕ → ℕ
threshold pad = if ltb pad 8 then 120 else 105

abbrev pub threshold_over_39 : ℕ
threshold_over_39 = 40

-- `val > -400`, the test that ends the search.
abbrev pub in_reach : ℕ → Bool
in_reach val = slt (minus16 400) val

-- The search at `i` with the rounds that are left: the first ladder value in reach is taken.
unfoldable pub search : (ℕ → ℕ) → ℕ → ℕ → ℕ → Pads → Pads
search sample pad zero i p = p
search sample pad (suc left) i p =
    let rest = search sample pad left (suc i) p in
    let val = neg16 (sample i) in
    if in_reach val
    then record p {
      order = record p.order { r2r_val = update p.order.r2r_val pad i };
      init_val = update p.init_val pad (add16 val (threshold pad));
    }
    else rest

-- One round of the first loop.
unfoldable pub calibrate_pad : (ℕ → ℕ → ℕ) → ℕ → Pads → Pads
calibrate_pad samples pad p =
    let p1 = record p {
      order = record p.order { r2r_val = update p.order.r2r_val pad 0 };
      filtered_val = update p.filtered_val pad 0;
    } in
    let p2 = search (samples pad) pad 64 0 p1 in
    record p2 { order = record p2.order { pad_order = update p2.order.pad_order pad pad } }

-- One round of the second loop.
unfoldable pub calibrate_pad_se : (ℕ → ℕ) → ℕ → Pads → Pads
calibrate_pad_se samples_se pad p = record p {
  init_val_se = update p.init_val_se pad (sub16 (samples_se pad) threshold_over_39);
  order = record p.order { pad_order = update p.order.pad_order pad pad };
}

-- The two loops.
unfoldable pub calibrate_pads : (ℕ → ℕ → ℕ) → (ℕ → ℕ) → Pads → Pads
calibrate_pads samples samples_se p =
    for_range 8 40 (calibrate_pad_se samples_se) (for_range 40 0 (calibrate_pad samples) p)

-- Calibrate
unfoldable pub calibrate : (ℕ → ℕ → ℕ) → (ℕ → ℕ) → Pads → Hid → Pads × Hid
calibrate samples samples_se p h =
    let p1 = calibrate_pads samples samples_se p in
    (
      record p1 {
        order = bubble_sort 40 p1.order;
        being_played = λ _. false;
        anti_sticky_applied = λ _. false;
        hysterisis_applied = λ _. false;
        velocity_sent = λ _. false;
        filtered_val = λ _. 0;
      },
      clear h,
    )
