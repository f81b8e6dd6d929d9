-- ===== src/Firmware/Single.antt =====
-- SphereWare/SphereWare.c: what a reading of one of the single-ended pads, 40 to 47, does.
use sphere_ware.Base.{
  ℕ, ◌+◌, ◌-◌, ◌*◌, ◌/◌, ◌%◌, ◌<◌, ◌≡◌, Bool, true, ltb, leb, if◌then◌else◌, arith, sub16, slt, u16,
  Bool-cases, inl, inr,
}
use sphere_ware.Hid.Pads.{IsWhole, value_of, velocity_of, write_pad_data_lem}
use sphere_ware.Play.State.{Round}
use sphere_ware.Play.Press.{process_pad_se, blend}

-- The pad is pressed if its reading is more than 40 below the calibrated one, or more than 30 below
-- it if the pad was pressed before.
abbrev pub limit : ℕ → Bool → ℕ
limit sample before = sample + (if before then 10 else 0)

abbrev pub is_pressed_se : ℕ → ℕ → Bool → Bool
is_pressed_se sample reading before = ltb (reading + 40) (limit sample before)

-- The new filtered value: half of the old one, and how far the reading is below the limit.
abbrev pub pressure : ℕ → ℕ → Bool → ℕ → ℕ
pressure sample reading before filtered =
    let mixed = (filtered + 2 * (limit sample before - (reading + 40))) / 2 in
    if leb 511 mixed then 511 else mixed

module _ (sample pad reading : ℕ) (r : Round) (old : r.pads.filtered_val pad < 512)
    (small : reading < 1024) (small_sample : sample < 1024)
    (threshold : r.pads.init_val_se pad
      ≡ (limit sample (r.pads.hysterisis_applied pad) + 65496) % 65536) where
  sign :
      slt 0 (sub16 (r.pads.init_val_se pad) reading)
      ≡ is_pressed_se sample reading (r.pads.hysterisis_applied pad)
  sign = ground (arith, threshold, small, small_sample)

  blended :
      is_pressed_se sample reading (r.pads.hysterisis_applied pad) ≡ true
      → blend (r.pads.filtered_val pad) (u16 (sub16 (r.pads.init_val_se pad) reading * 2))
        ≡ pressure sample reading (r.pads.hysterisis_applied pad) (r.pads.filtered_val pad)
  unfolding blend
  blended e = ground (arith, threshold, small, small_sample, old)

  -- A reading of ten bits of a single-ended pad, with a calibrated reading of ten bits and the
  -- threshold that belongs to it: the pad is taken for pressed exactly if the reading is more than
  -- 40 below the calibrated one, or more than 30 for a pad that was pressed before. The flags say
  -- so, and the threshold is the one that belongs to them. The host then reads velocity 127 and the
  -- pressure, half of the filtered value of before with how far the reading is below the limit, at
  -- most 511; and both 0 for a pad that is not pressed.
  pub process_pad_se_host :
      IsWhole r.hid
      → pad < 48
      → let r' = process_pad_se pad reading r in
        let before = r.pads.hysterisis_applied pad in
        let pressed = is_pressed_se sample reading before in
        (r'.pads.hysterisis_applied pad ≡ pressed)
        × (r'.pads.being_played pad ≡ pressed)
        × (r'.pads.init_val_se pad ≡ (limit sample pressed + 65496) % 65536)
        × (value_of r'.hid pad
            ≡ (if pressed then pressure sample reading before (r.pads.filtered_val pad) else 0))
        × (velocity_of r'.hid pad ≡ (if pressed then 127 else 0))
  unfolding process_pad_se
  process_pad_se_host w lt =
      let before = r.pads.hysterisis_applied pad in
      let deep = pressure sample reading before (r.pads.filtered_val pad) in
      elim (Bool-cases (is_pressed_se sample reading before)) [
        | inl on ↦
            let b = blended on in
            let h = write_pad_data_lem r.hid pad deep 127 pad w lt in
            ground (arith, sign, on, b, h, threshold)
        | inr off ↦
            let h = write_pad_data_lem r.hid pad 0 0 pad w lt in
            ground (arith, sign, off, h, threshold)
      ]
