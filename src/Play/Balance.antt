-- ===== src/Play/Balance.antt =====
-- SphereWare/SphereWare.c: the threshold `init_val` of a pad is moved by the hysteresis of a
-- press, by the anti-sticky adjustment and by the standby mode, each of which has a flag: how
-- the threshold, the calibrated value and the flags hang together.
use sphere_ware.Base.{
  ℕ, ◌+◌, ◌-◌, ◌%◌, ◌<◌, ◌≡◌, Bool, true, false, if◌then◌else◌, sub16, neg16, arith, List,
  Bool-cases, inl, inr,
}
use sphere_ware.Play.State.{Pads, Round}
use sphere_ware.Play.Press.{hysterisis_adjust, hit, hold, release, unstick, process_pad}
use sphere_ware.Play.Standby.{raise_from, raise_from_lem, lower_from, lower_from_lem, tick}

-- The calibrated value `base` with the adjustments of the flags.
abbrev adjusted : ℕ → ℕ → Bool → Bool → Bool → ℕ
adjusted pad base sent sticky raised =
    (base
      + 65536
      - (if sent then hysterisis_adjust pad else 0)
      + (if sticky then 50 else 0)
      + (if raised then 100 else 0))
    % 65536

abbrev IsBalancedAt : ℕ → ℕ → Pads → Type 0
IsBalancedAt base q p =
    p.init_val q ≡ adjusted q base (p.velocity_sent q) (p.anti_sticky_applied q) p.thresholds_raised

-- `base` gives the calibrated threshold of each of the 40 pads.
abbrev pub IsBalanced : (ℕ → ℕ) → Pads → Type 0
IsBalanced base p = (q : ℕ) → q < 40 → IsBalancedAt (base q) q p

module _ (base q pad : ℕ) where
  hit-balance :
      (val : ℕ) (readings : List ℕ) (r : Round)
      → r.pads.velocity_sent pad ≡ false
      → IsBalancedAt base q r.pads
      → IsBalancedAt base q (hit pad val readings r).pads
  unfolding hit
  hit-balance val readings r e v = ground arith

  hold-balance :
      (val : ℕ) (r : Round) → IsBalancedAt base q r.pads → IsBalancedAt base q (hold pad val r).pads
  unfolding hold
  hold-balance val r v = ground arith

  unstick-balance : (p : Pads) → IsBalancedAt base q p → IsBalancedAt base q (unstick pad p)
  unfolding unstick
  unstick-balance p v = ground arith

  unstick-sent : (p : Pads) (k : ℕ) → (unstick pad p).velocity_sent k ≡ p.velocity_sent k
  unfolding unstick
  unstick-sent p k = ground arith

  release-balance :
      (r : Round)
      → r.pads.velocity_sent pad ≡ true
      → IsBalancedAt base q r.pads
      → IsBalancedAt base q (release pad r).pads
  unfolding release
  release-balance r e v =
      ground (arith, unstick-balance r.pads v, unstick-sent r.pads pad, unstick-sent r.pads q)

-- Processing a reading of a pad keeps the threshold of each of the pads 0 to 39 at its calibrated
-- value with the adjustments of the flags that are set.
pub process_pad-IsBalanced :
    (base : ℕ → ℕ) (pad reading : ℕ) (readings : List ℕ) (r : Round)
    → IsBalanced base r.pads
    → IsBalanced base (process_pad pad reading readings r).pads
unfolding process_pad
process_pad-IsBalanced base pad reading readings r v q h =
    let val = sub16 (neg16 reading) (r.pads.init_val pad) in
    ground (
      arith,
      hit-balance (base q) q pad val readings r,
      hold-balance (base q) q pad val r,
      release-balance (base q) q pad r,
      v q h,
    )

raise-balance :
    (base q : ℕ) (p : Pads)
    → q < 40
    → p.thresholds_raised ≡ false
    → IsBalancedAt base q p
    → raise_from 48 0 p.init_val q
      ≡ adjusted q base (p.velocity_sent q) (p.anti_sticky_applied q) true
raise-balance base q p h low v = ground (arith, raise_from_lem 48 0 q p.init_val)

lower-balance :
    (base q : ℕ) (p : Pads)
    → q < 40
    → p.thresholds_raised ≡ true
    → IsBalancedAt base q p
    → lower_from 48 0 p.init_val q
      ≡ adjusted q base (p.velocity_sent q) (p.anti_sticky_applied q) false
lower-balance base q p h high v = ground (arith, lower_from_lem 48 0 q p.init_val)

-- The timer interrupt keeps the threshold of each of the pads 0 to 39 at its calibrated value with
-- the adjustments of the flags that are set.
pub tick-IsBalanced : (base : ℕ → ℕ) (p : Pads) → IsBalanced base p → IsBalanced base (tick p)
unfolding tick
tick-IsBalanced base p v q h = elim (Bool-cases p.thresholds_raised) [
  | inl high ↦ ground (arith, v q h, lower-balance (base q) q p h high (v q h))
  | inr low ↦ ground (arith, v q h, raise-balance (base q) q p h low (v q h))
]
