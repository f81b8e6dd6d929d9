-- ===== src/Led/Floats.antt =====
-- The floating-point arithmetic that the C compiler provides. The program uses `float` and
-- `double` for the scaling of colours; the type and its operations are a parameter of the model.
use sphere_ware.Base.{ℕ, Bool}

pub record Floats : Type 1 where
  pub Float : Type 0
  -- The value of an integer, and of an `int16_t` from its bit pattern.
  pub of_ℕ : ℕ → Float
  pub of_int16 : ℕ → Float
  pub add : Float → Float → Float
  pub sub : Float → Float → Float
  pub mul : Float → Float → Float
  pub div : Float → Float → Float
  pub greater : Float → Float → Bool
  -- The value of an `int8_t` from its bit pattern, and the constant m / 10 ^ k.
  pub of_int8 : ℕ → Float
  pub literal : ℕ → ℕ → Float
  -- The conversions to an `uint16_t` and to an `int8_t`.
  pub to_uint16 : Float → ℕ
  pub to_int8 : Float → ℕ
  -- The conversion to a 16-bit integer, as a bit pattern.
  pub to_int16 : Float → ℕ
