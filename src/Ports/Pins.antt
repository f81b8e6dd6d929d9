-- ===== src/Ports/Pins.antt =====
-- The port registers that several parts of the firmware write, and single bits of a byte.
use sphere_ware.Base.{ℕ, ◌-◌, ◌/◌, ◌%◌, ◌^◌, ◌<◌, u8}

pub record Ports : Type 0 where
  pub portb : ℕ
  pub portd : ℕ
  pub portf : ℕ

abbrev pub bit : ℕ → ℕ → ℕ
bit k x = x / 2 ^ k % 2

-- `~x`, as it is stored into a register of eight bits.
abbrev pub not8 : ℕ → ℕ
not8 x = 255 - u8 x

pub record IsPorts (p : Ports) : Type 0 where
  pub b : p.portb < 256
  pub d : p.portd < 256
  pub f : p.portf < 256
