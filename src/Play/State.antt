-- ===== src/Play/State.antt =====
-- SphereWare/SphereWare.c: the globals that describe the pads. Pads 0 to 39 are read
-- differentially, pads 40 to 47 single-ended; all indices are below the lengths of the arrays.
use sphere_ware.Base.{ℕ, Bool}
use sphere_ware.Scan.Sort.{ScanOrder}
use sphere_ware.Hid.Buffer.{Hid}

pub record Pads : Type 0 where
  -- `r2r_val` and `pad_order`
  pub order : ScanOrder
  -- Patterns of `int16_t`.
  pub filtered_val : ℕ → ℕ
  pub init_val : ℕ → ℕ
  pub init_val_se : ℕ → ℕ
  pub anti_sticky_applied : ℕ → Bool
  pub hysterisis_applied : ℕ → Bool
  pub velocity_sent : ℕ → Bool
  -- 48 pads, then the elite controls and the reset button.
  pub being_played : ℕ → Bool
  pub thresholds_raised : Bool
  -- `sticky_count` of `main`
  pub sticky_count : ℕ → ℕ
  -- `count` of the timer interrupt
  pub idle_count : ℕ

-- What a round of the main loop works on: the pads, the report and `led_sum`.
pub record Round : Type 0 where
  pub pads : Pads
  pub hid : Hid
  pub led_sum : ℕ
