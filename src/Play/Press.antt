-- ===== src/Play/Press.antt =====
-- SphereWare/SphereWare.c: the part of the main loop that turns the readings of one pad into
-- report data. The readings are those that `ADC_Read` returns, as patterns of `int16_t`.
use sphere_ware.Base.{
  ℕ, ◌+◌, ◌*◌, ◌/◌, true, false, List, [], ◌∷◌, ltb, if◌then◌else◌, update, u16, add16, sub16,
  neg16, slt, sle, half_sum,
}
use sphere_ware.Hid.Buffer.{write_pad_data, write_pressure_only}
use sphere_ware.Play.State.{Pads, Round}

-- HYSTERISIS_ADJUST_UNDER_16 and HYSTERISIS_ADJUST
abbrev pub hysterisis_adjust : ℕ → ℕ
hysterisis_adjust pad = if ltb pad 16 then 35 else 25

-- ANTI_STICKY_ADJUST, STICKY_TIMEOUT and HYSTERISIS_ADJUST_OVER_39
abbrev pub anti_sticky_adjust : ℕ
anti_sticky_adjust = 50

abbrev pub sticky_timeout : ℕ
sticky_timeout = 10

abbrev pub hysterisis_adjust_over_39 : ℕ
hysterisis_adjust_over_39 = 10

-- The loop that looks for the peak among the next 200 readings.
unfoldable pub peak_of : ℕ → ℕ → List ℕ → ℕ
peak_of threshold peak [] = peak
peak_of threshold peak (reading ∷ rest) =
    let val = sub16 (neg16 reading) threshold in
    peak_of threshold (if slt peak val then val else peak) rest

-- Half of the peak, at most 127. The peak is positive.
unfoldable pub velocity_of_peak : ℕ → ℕ
velocity_of_peak peak = let velocity = peak / 2 in if ltb 127 velocity then 127 else velocity

-- The pad is hit: `!velocity_sent[pad]`.
unfoldable pub hit : ℕ → ℕ → List ℕ → Round → Round
unfolding peak_of velocity_of_peak
hit pad val readings r =
    let p = r.pads in
    let velocity = velocity_of_peak (peak_of (p.init_val pad) val readings) in
    record {
      pads = record p {
        being_played = update p.being_played pad true;
        velocity_sent = update p.velocity_sent pad true;
        filtered_val = update p.filtered_val pad velocity;
        init_val = update p.init_val pad (sub16 (p.init_val pad) (hysterisis_adjust pad));
      };
      hid = write_pad_data pad velocity velocity r.hid;
      led_sum = u16 (r.led_sum + velocity);
    }

-- The new `filtered_val`: the mean of the old one and the reading, cut off at 511.
unfoldable pub blend : ℕ → ℕ → ℕ
blend filtered val = let mixed = half_sum filtered val in if sle 511 mixed then 511 else mixed

-- The pad is held: `velocity_sent[pad]`.
unfoldable pub hold : ℕ → ℕ → Round → Round
hold pad val r =
    let p = r.pads in
    let filtered = blend (p.filtered_val pad) val in
    let p1 =
      if sle 511 (half_sum (p.filtered_val pad) val)
      then (if p.anti_sticky_applied pad then p else record p {
        init_val = update p.init_val pad (add16 (p.init_val pad) anti_sticky_adjust);
        anti_sticky_applied = update p.anti_sticky_applied pad true;
      })
      else p in
    record {
      pads = record p1 {
        filtered_val = update p1.filtered_val pad filtered;
        being_played = update p1.being_played pad true;
      };
      hid = write_pressure_only pad filtered r.hid;
      led_sum = u16 (r.led_sum + filtered);
    }

-- The anti-sticky part of a release.
unfoldable pub unstick : ℕ → Pads → Pads
unstick pad p =
    if p.anti_sticky_applied pad
    then (let count = u16 (p.sticky_count pad + 1) in
        if ltb sticky_timeout count
        then record p {
          init_val = update p.init_val pad (sub16 (p.init_val pad) anti_sticky_adjust);
          anti_sticky_applied = update p.anti_sticky_applied pad false;
          sticky_count = update p.sticky_count pad 0;
        }
        else record p { sticky_count = update p.sticky_count pad count })
    else p

-- The pad is released.
unfoldable pub release : ℕ → Round → Round
release pad r =
    let p = unstick pad r.pads in
    record r {
      pads = record p {
        being_played = update p.being_played pad false;
        velocity_sent = update p.velocity_sent pad false;
        init_val = update p.init_val pad (add16 (p.init_val pad) (hysterisis_adjust pad));
      };
      hid = write_pad_data pad 0 0 r.hid;
    }

-- The branch `pad < 40`, for the reading of the pad and those of the peak search.
unfoldable pub process_pad : ℕ → ℕ → List ℕ → Round → Round
process_pad pad reading readings r =
    let val = sub16 (neg16 reading) (r.pads.init_val pad) in
    if slt 0 val
    then (if r.pads.velocity_sent pad then hold pad val r else hit pad val readings r)
    else if r.pads.velocity_sent pad
    then release pad r
    else r

-- The branch `pad >= 40`.
unfoldable pub process_pad_se : ℕ → ℕ → Round → Round
process_pad_se pad reading r =
    let p = r.pads in
    let val = sub16 (p.init_val_se pad) reading in
    if slt 0 val
    then (let p1 = if p.hysterisis_applied pad then p else record p {
      init_val_se = update p.init_val_se pad (add16 (p.init_val_se pad) hysterisis_adjust_over_39);
      hysterisis_applied = update p.hysterisis_applied pad true;
    } in
        let filtered = blend (p1.filtered_val pad) (u16 (val * 2)) in
        record {
          pads = record p1 {
            filtered_val = update p1.filtered_val pad filtered;
            being_played = update p1.being_played pad true;
          };
          hid = write_pad_data pad filtered 127 r.hid;
          led_sum = u16 (r.led_sum + filtered);
        })
    else (let p1 =
          if p.hysterisis_applied pad
          then record p {
            init_val_se =
                update p.init_val_se pad (sub16 (p.init_val_se pad) hysterisis_adjust_over_39);
            hysterisis_applied = update p.hysterisis_applied pad false;
          }
          else p in
        record r {
          pads = record p1 { being_played = update p1.being_played pad false };
          hid = write_pad_data pad 0 0 r.hid;
        })
