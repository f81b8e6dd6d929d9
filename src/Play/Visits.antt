-- ===== src/Play/Visits.antt =====
-- SphereWare/SphereWare.c: the order in which the main loop visits the pads after `Calibrate`, and
-- the values that the calibration finds.
use sphere_ware.Base.{
  ℕ, zero, suc, ◌+◌, ◌<◌, ◌≤◌, ◌≡◌, ◌&&◌, ltb, leb, ◌==◌, if◌then◌else◌, update, for_range, arith,
  refl, dec_lt, ◌∙◌,
}
use sphere_ware.Scan.Sort.{bubble_sort}
use sphere_ware.Scan.Sort.Laws.{Arranges, bubble_sort-Arranges, bubble_sort-IsSorted}
use sphere_ware.Hid.Buffer.{Hid}
use sphere_ware.Play.State.{Pads}
use sphere_ware.Play.Calibrate.{search, calibrate_pad, calibrate_pad_se, calibrate_pads, calibrate}

search-pad_order :
    (sample : ℕ → ℕ) (pad left i q : ℕ) (p : Pads)
    → (search sample pad left i p).order.pad_order q ≡ p.order.pad_order q
unfolding search
search-pad_order sample pad zero i q p = refl
search-pad_order sample pad (suc left) i q p =
    ground (arith, search-pad_order sample pad left (suc i) q p)

calibrate_pad-pad_order :
    (samples : ℕ → ℕ → ℕ) (pad q : ℕ) (p : Pads)
    → (calibrate_pad samples pad p).order.pad_order q
      ≡ (if pad == q then pad else p.order.pad_order q)
unfolding calibrate_pad
calibrate_pad-pad_order samples pad q p = ground (
  arith,
  search-pad_order (samples pad) pad 64 0 q (record p {
    order = record p.order { r2r_val = update p.order.r2r_val pad 0 };
    filtered_val = update p.filtered_val pad 0;
  }),
)

first_loop-pad_order :
    (samples : ℕ → ℕ → ℕ) (n i q : ℕ) (p : Pads)
    → (for_range n i (calibrate_pad samples) p).order.pad_order q
      ≡ (if leb i q && ltb q (i + n) then q else p.order.pad_order q)
first_loop-pad_order samples zero i q p = ground arith
first_loop-pad_order samples (suc n) i q p = ground (
  arith,
  first_loop-pad_order samples n (suc i) q (calibrate_pad samples i p),
  calibrate_pad-pad_order samples i q p,
)

second_loop-pad_order :
    (samples_se : ℕ → ℕ) (n i q : ℕ) (p : Pads)
    → (for_range n i (calibrate_pad_se samples_se) p).order.pad_order q
      ≡ (if leb i q && ltb q (i + n) then q else p.order.pad_order q)
unfolding calibrate_pad_se
second_loop-pad_order samples_se zero i q p = ground arith
second_loop-pad_order samples_se (suc n) i q p =
    ground (arith, second_loop-pad_order samples_se n (suc i) q (calibrate_pad_se samples_se i p))

calibrate_pads-pad_order :
    (samples : ℕ → ℕ → ℕ) (samples_se : ℕ → ℕ) (p : Pads) (q : ℕ)
    → q < 48
    → (calibrate_pads samples samples_se p).order.pad_order q ≡ q
unfolding calibrate_pads
calibrate_pads-pad_order samples samples_se p q h = ground (
  arith,
  second_loop-pad_order samples_se 8 40 q (for_range 40 0 (calibrate_pad samples) p),
  first_loop-pad_order samples 40 0 q p,
)

sorted_order :
    (samples : ℕ → ℕ → ℕ) (samples_se : ℕ → ℕ) (p : Pads)
    → let s = (calibrate_pads samples samples_se p).order in
      Arranges 40 s.r2r_val s (bubble_sort 40 s)
sorted_order samples samples_se p =
    let s = (calibrate_pads samples samples_se p).order in
    let same = calibrate_pads-pad_order samples samples_se p in
    bubble_sort-Arranges 40 s.r2r_val s (omega arith) (record {
      paired = λ k h. rw (same k (omega arith));
      in_range = λ k h. omega (arith, same k (omega arith));
      distinct = λ a b ha hb e. omega (arith, same a (omega arith), same b (omega arith));
      place = λ v h. (v, h, same v (omega arith));
      beyond = λ k h. (refl, refl);
    })

last_eight :
    (samples : ℕ → ℕ → ℕ) (samples_se : ℕ → ℕ) (p : Pads) (k : ℕ)
    → 40 ≤ k
    → k < 48
    → (bubble_sort 40 (calibrate_pads samples samples_se p).order).pad_order k ≡ k
last_eight samples samples_se p k low high =
    ((sorted_order samples samples_se p).beyond k low).1
    ∙ calibrate_pads-pad_order samples samples_se p k high

every_pad :
    (samples : ℕ → ℕ → ℕ) (samples_se : ℕ → ℕ) (p : Pads) (pad : ℕ)
    → pad < 48
    → (k : ℕ) × (k < 48)
      × ((bubble_sort 40 (calibrate_pads samples samples_se p).order).pad_order k ≡ pad)
every_pad samples samples_se p pad h = elim (dec_lt pad 40) [
  | yes low ↦
      let (k, inside, e) = (sorted_order samples samples_se p).place pad low in (k, omega arith, e)
  | no high ↦ (pad, h, last_eight samples samples_se p pad (omega arith) h)
]

-- The entries of `pad_order` after `Calibrate`.
pub calibrate-pad_order :
    (samples : ℕ → ℕ → ℕ) (samples_se : ℕ → ℕ) (p : Pads) (h : Hid) (a b : ℕ)
    → a < 48
    → b < 48
    → let s = (calibrate samples samples_se p h).0.order in
      (s.pad_order a < 48) × (s.pad_order a ≡ s.pad_order b → a ≡ b)
unfolding calibrate
calibrate-pad_order samples samples_se p h a b ha hb =
    let v = sorted_order samples samples_se p in
    let last_a = last_eight samples samples_se p a in
    let last_b = last_eight samples samples_se p b in
    (
      ground (arith, v.in_range a, last_a),
      λ e. ground (arith, e, v.distinct a b, v.in_range a, v.in_range b, last_a, last_b),
    )

-- After `Calibrate` a pass of the main loop over `pad_order` visits each of the 48 pads exactly
-- once: every pad stands at an index below 48, and the entries at two indices `a` and `b` are the
-- same only if the indices are. The first 40 entries of `r2r_val` ascend.
pub calibrate_visits :
    (samples : ℕ → ℕ → ℕ) (samples_se : ℕ → ℕ) (p : Pads) (h : Hid) (pad a b lower upper : ℕ)
    → pad < 48
    → a < 48
    → b < 48
    → lower < upper
    → upper < 40
    → let s = (calibrate samples samples_se p h).0.order in
      ((k : ℕ) × (k < 48) × (s.pad_order k ≡ pad))
      × ((s.pad_order a == s.pad_order b) ≡ (a == b))
      × (s.r2r_val lower ≤ s.r2r_val upper)
unfolding calibrate
calibrate_visits samples samples_se p h pad a b lower upper inside ha hb order high =
    let v = sorted_order samples samples_se p in
    (
      every_pad samples samples_se p pad inside,
      ground (
        arith,
        v.distinct a b,
        v.in_range a,
        v.in_range b,
        last_eight samples samples_se p a,
        last_eight samples samples_se p b,
      ),
      bubble_sort-IsSorted 40 _ (omega arith) (omega arith) lower upper order high,
    )
