-- ===== src/Play/Levels.antt =====
-- SphereWare/SphereWare.c: what the host reads of a pad after the main loop has processed it.
use sphere_ware.Base.{
  ℕ, ◌+◌, ◌/◌, ◌<◌, ◌≡◌, Bool, true, leb, if◌then◌else◌, sub16, neg16, slt, arith, List,
}
use sphere_ware.Hid.Pads.{
  IsWhole, value_of, velocity_of, write_pad_data_lem, write_pressure_only_lem,
  write_pad_data-IsWhole, write_pressure_only-IsWhole,
}
use sphere_ware.Play.State.{Round}
use sphere_ware.Play.Press.{
  hit, hold, release, unstick, process_pad, peak_of, velocity_of_peak, blend,
}

-- The whole buffer is there and every filtered value fits the nine bits of the report.
pub record IsLevel (r : Round) : Type 0 where
  pub whole : IsWhole r.hid
  pub fits : (q : ℕ) → r.pads.filtered_val q < 512

-- What the reading of a pad says: it is pressed if the reading is beyond its threshold.
abbrev pub is_pressed : ℕ → ℕ → Round → Bool
is_pressed pad reading r = slt 0 (sub16 (neg16 reading) (r.pads.init_val pad))

velocity_of_peak-lt : (peak : ℕ) → velocity_of_peak peak < 128
unfolding velocity_of_peak
velocity_of_peak-lt peak = ground arith

hit-host :
    (pad val : ℕ) (readings : List ℕ) (r : Round)
    → IsLevel r
    → pad < 48
    → let r' = hit pad val readings r in
      (value_of r'.hid pad ≡ r'.pads.filtered_val pad)
      × (velocity_of r'.hid pad ≡ r'.pads.filtered_val pad)
      × (r'.pads.filtered_val pad < 128)
unfolding hit
hit-host pad val readings r v lt =
    let w = velocity_of_peak (peak_of (r.pads.init_val pad) val readings) in
    ground (
      arith,
      write_pad_data_lem r.hid pad w w pad v.whole lt,
      velocity_of_peak-lt (peak_of (r.pads.init_val pad) val readings),
    )

blend_lem :
    (f val : ℕ)
    → f < 512
    → slt 0 val ≡ true
    → val < 65536
    → blend f val ≡ (if leb 511 ((f + val) / 2) then 511 else (f + val) / 2)
unfolding blend
blend_lem f val h p lt = ground arith

pub blend-lt : (f val : ℕ) → f < 512 → slt 0 val ≡ true → val < 65536 → blend f val < 512
blend-lt f val h p lt = ground (arith, blend_lem f val h p lt)

hold-host :
    (pad val : ℕ) (r : Round)
    → IsLevel r
    → pad < 48
    → slt 0 val ≡ true
    → val < 65536
    → let r' = hold pad val r in
      (value_of r'.hid pad ≡ r'.pads.filtered_val pad)
      × (velocity_of r'.hid pad ≡ velocity_of r.hid pad)
      × (r'.pads.filtered_val pad < 512)
unfolding hold
hold-host pad val r v lt p small =
    let w = blend (r.pads.filtered_val pad) val in
    ground (
      arith,
      write_pressure_only_lem r.hid pad w pad v.whole lt,
      blend-lt (r.pads.filtered_val pad) val (v.fits pad) p small,
    )

release-host :
    (pad : ℕ) (r : Round)
    → IsLevel r
    → pad < 48
    → (value_of (release pad r).hid pad ≡ 0) × (velocity_of (release pad r).hid pad ≡ 0)
unfolding release
release-host pad r v lt = ground (arith, write_pad_data_lem r.hid pad 0 0 pad v.whole lt)

-- If the report is whole and every filtered value is below 512, then after a reading of one of the
-- pads 0 to 39 the host reads the filtered value of the pad as its value if the pad is pressed, and
-- 0 if it has just been released. The velocity that the host reads is the filtered value if the
-- press is new, the velocity of before while the press lasts, and 0 after the release. Neither
-- changes for a pad that stays untouched.
pub process_pad_host :
    (pad reading : ℕ) (readings : List ℕ) (r : Round)
    → IsLevel r
    → pad < 40
    → let r' = process_pad pad reading readings r in
      let pressed = is_pressed pad reading r in
      let sent = r.pads.velocity_sent pad in
      (value_of r'.hid pad
        ≡ (if pressed then r'.pads.filtered_val pad else if sent then 0 else value_of r.hid pad))
      × (velocity_of r'.hid pad ≡ (
          if pressed
          then (if sent then velocity_of r.hid pad else r'.pads.filtered_val pad)
          else if sent
          then 0
          else velocity_of r.hid pad))
unfolding process_pad
process_pad_host pad reading readings r v lt =
    let val = sub16 (neg16 reading) (r.pads.init_val pad) in
    ground (
      arith,
      hit-host pad val readings r v (omega arith),
      hold-host pad val r v (omega arith),
      release-host pad r v (omega arith),
    )

filtered-release :
    (pad q : ℕ) (r : Round) → (release pad r).pads.filtered_val q ≡ r.pads.filtered_val q
unfolding release unstick
filtered-release pad q r = ground arith

filtered-hit :
    (pad q val : ℕ) (readings : List ℕ) (r : Round)
    → r.pads.filtered_val q < 512
    → (hit pad val readings r).pads.filtered_val q < 512
unfolding hit
filtered-hit pad q val readings r h =
    ground (arith, velocity_of_peak-lt (peak_of (r.pads.init_val pad) val readings))

filtered-hold :
    (pad q val : ℕ) (r : Round)
    → r.pads.filtered_val pad < 512
    → r.pads.filtered_val q < 512
    → slt 0 val ≡ true
    → val < 65536
    → (hold pad val r).pads.filtered_val q < 512
unfolding hold
filtered-hold pad q val r hp hq p lt =
    ground (arith, blend-lt (r.pads.filtered_val pad) val hp p lt)

process_pad-IsWhole :
    (pad reading : ℕ) (readings : List ℕ) (r : Round)
    → IsWhole r.hid
    → IsWhole (process_pad pad reading readings r).hid
unfolding process_pad hit hold release
process_pad-IsWhole pad reading readings r w =
    let val = sub16 (neg16 reading) (r.pads.init_val pad) in
    let peak = velocity_of_peak (peak_of (r.pads.init_val pad) val readings) in
    ground (
      arith,
      write_pad_data-IsWhole r.hid pad peak peak w,
      write_pressure_only-IsWhole r.hid pad (blend (r.pads.filtered_val pad) val) w,
      write_pad_data-IsWhole r.hid pad 0 0 w,
    )

-- Processing a reading keeps the report whole and every filtered value below 512.
pub process_pad-IsLevel :
    (pad reading : ℕ) (readings : List ℕ) (r : Round)
    → IsLevel r
    → IsLevel (process_pad pad reading readings r)
unfolding process_pad
process_pad-IsLevel pad reading readings r v = record {
  whole = process_pad-IsWhole pad reading readings r v.whole;
  fits = λ q.
      let val = sub16 (neg16 reading) (r.pads.init_val pad) in
      ground (
        arith,
        v.fits q,
        v.fits pad,
        filtered-hit pad q val readings r,
        filtered-hold pad q val r,
        filtered-release pad q r,
      );
}
