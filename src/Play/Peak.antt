-- ===== src/Play/Peak.antt =====
-- SphereWare/SphereWare.c: the search for the peak of a hit, and the velocity.
use sphere_ware.Base.{
  ℕ, zero, suc, ◌/◌, ◌<◌, ◌≤◌, ◌≡◌, ◌⊎◌, inl, inr, ltb, if◌then◌else◌, List, [], ◌∷◌, length,
  get_or, arith, refl, sub16, neg16, slt, biased, Bool-cases,
}
use sphere_ware.Play.State.{Round}
use sphere_ware.Play.Press.{hit, peak_of}

-- How far a reading is beyond the threshold.
abbrev pub depth : ℕ → ℕ → ℕ
depth threshold reading = sub16 (neg16 reading) threshold

peak_of-first :
    (threshold peak : ℕ) (readings : List ℕ)
    → biased peak ≤ biased (peak_of threshold peak readings)
unfolding peak_of
peak_of-first threshold peak [] = omega arith
peak_of-first threshold peak (x ∷ readings) =
    let next = if slt peak (depth threshold x) then depth threshold x else peak in
    ground (arith, peak_of-first threshold next readings)

peak_of-bound :
    (threshold peak : ℕ) (readings : List ℕ) (k : ℕ)
    → k < length readings
    → biased (depth threshold (get_or readings k 0)) ≤ biased (peak_of threshold peak readings)
unfolding peak_of
peak_of-bound threshold peak [] k h = absurd (omega arith)
peak_of-bound threshold peak (x ∷ readings) zero h =
    let next = if slt peak (depth threshold x) then depth threshold x else peak in
    ground (arith, peak_of-first threshold next readings)
peak_of-bound threshold peak (x ∷ readings) (suc k) h =
    peak_of-bound threshold (if slt peak (depth threshold x) then depth threshold x else peak)
      readings k (omega arith)

abbrev pub IsAttained : ℕ → ℕ → List ℕ → ℕ → Type 0
IsAttained threshold first readings peak =
    (peak ≡ first)
    ⊎ ((k : ℕ) × (k < length readings) × (peak ≡ depth threshold (get_or readings k 0)))

peak_of-IsAttained :
    (threshold peak : ℕ) (readings : List ℕ)
    → IsAttained threshold peak readings (peak_of threshold peak readings)
unfolding peak_of
peak_of-IsAttained threshold peak [] = inl refl
peak_of-IsAttained threshold peak (x ∷ readings) =
    elim (Bool-cases (slt peak (depth threshold x))) [
      | inl more ↦ rw more (elim (peak_of-IsAttained threshold (depth threshold x) readings) [
        | inl e ↦ inr (0, omega arith, e)
        | inr (k, inside, e) ↦ inr (suc k, omega arith, e)
      ])
      | inr less ↦ rw less (elim (peak_of-IsAttained threshold peak readings) [
        | inl e ↦ inl e
        | inr (k, inside, e) ↦ inr (suc k, omega arith, e)
      ])
    ]

-- The velocity of a hit is half of a peak, at most 127. The peak is the depth of the first reading or
-- of one of those that follow it, and none of these is deeper, as signed numbers.
pub hit_velocity :
    (pad first : ℕ) (readings : List ℕ) (r : Round)
    → let depth_of = depth (r.pads.init_val pad) in
      (peak : ℕ) × ((hit pad first readings r).pads.filtered_val pad
        ≡ (if ltb 127 (peak / 2) then 127 else peak / 2))
      × IsAttained (r.pads.init_val pad) first readings peak
      × (biased first ≤ biased peak)
      × ((k : ℕ) → k < length readings → biased (depth_of (get_or readings k 0)) ≤ biased peak)
unfolding hit
hit_velocity pad first readings r =
    let threshold = r.pads.init_val pad in
    let peak = peak_of threshold first readings in
    (
      peak,
      ground arith,
      peak_of-IsAttained threshold first readings,
      peak_of-first threshold first readings,
      peak_of-bound threshold first readings,
    )
