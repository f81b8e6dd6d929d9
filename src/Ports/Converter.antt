-- ===== src/Ports/Converter.antt =====
-- SphereWare/ADC.c: the analogue-to-digital converter. The registers and the result of a
-- conversion are those of the microcontroller; a result is the two bytes ADCL and ADCH.
use sphere_ware.Base.{
  ℕ, ◌+◌, ◌-◌, ◌*◌, ◌%◌, ◌<◌, ◌≡◌, Bool, true, false, not, ◌&&◌, ◌==◌, if◌then◌else◌, arith, refl,
  bit_and, bit_or, ◌<<<◌, ◌>>>◌, ltb, neg16, minus16, add16,
}
use sphere_ware.Base.Bits.{bit_and-low, bit_or-fields_low}

-- ADMUX, ADCSRA and ADCSRB, with `prev_chan` and `prev_mode`.
pub record Converter : Type 0 where
  pub admux : ℕ
  pub adcsra : ℕ
  pub adcsrb : ℕ
  pub prev_chan : ℕ
  pub prev_mode : ℕ

-- ADC_Mode
pub data Mode : Type 0 where
  single_ended diff_1_x1 diff_0_x10 diff_1_x10 diff_0_x40 diff_1_x40 diff_0_x200 diff_1_x200
        previous_mode :
      Mode

abbrev pub mode_code : Mode → ℕ
mode_code single_ended = 0b000100
mode_code diff_1_x1 = 0b010100
mode_code diff_0_x10 = 0b101000
mode_code diff_1_x10 = 0b101100
mode_code diff_0_x40 = 0b110000
mode_code diff_1_x40 = 0b110100
mode_code diff_0_x200 = 0b111000
mode_code diff_1_x200 = 0b111100
mode_code previous_mode = 0b000001

-- ADC_Set
unfoldable pub set_channel : ℕ → ℕ → Converter → Converter
set_channel mode chan c =
    if not (mode == c.prev_mode)
    then record c {
      admux = bit_or (bit_and c.admux 0b11100000) (bit_and (bit_or mode chan) 0b011111);
      adcsrb = bit_or (bit_and c.adcsrb 0b11011111) (bit_and mode 0b100000);
      prev_chan = chan;
      prev_mode = mode;
    }
    else if not (chan == c.prev_chan)
    then record c {
      admux = bit_or (bit_and c.admux 0b11111100) (bit_and chan 0b11);
      prev_chan = chan;
    }
    else c

-- Ref_Mode
pub data Reference : Type 0 where
  ref_2v56 ref_vcc ref_external : Reference

abbrev pub reference_bits : Reference → ℕ → ℕ
reference_bits ref_2v56 admux = bit_or admux 0b11000000
reference_bits ref_vcc admux = bit_or admux 0b01000000
reference_bits ref_external admux = admux

-- ADC_SetRef
unfoldable pub set_reference : Reference → Converter → Converter
set_reference mode c = record c {
  admux = reference_bits mode (bit_and (bit_and c.admux 0b01111111) 0b10111111);
}

-- ADC_Init
unfoldable pub init : Converter → Converter
unfolding set_reference set_channel
init c =
    let c1 = record c {
      adcsra = bit_or c.adcsra 0b10000011;
      adcsrb = bit_or c.adcsrb 0b10000000;
    } in
    let c2 = set_reference ref_2v56 c1 in
    set_channel 0 0 (record c2 { prev_chan = 1; prev_mode = 1 })

-- The value that ADC_Read computes from the two bytes, as the pattern of an `int16_t`.
unfoldable pub result : ℕ → ℕ → ℕ → ℕ
result mode low high =
    if not (bit_and mode 0b110000 == 0) && not ((high >>> 1) == 0)
    then neg16 (511 - bit_or low (bit_and high 1 <<< 8))
    else bit_or low (high <<< 8)

-- ADC_Read, for the bytes that the conversion yields.
unfoldable pub read : Mode → ℕ → ℕ → ℕ → Converter → ℕ × Converter
unfolding set_channel result
read mode chan low high c = (result (mode_code mode) low high, set_channel (mode_code mode) chan c)

-- The integer that a differential conversion stands for, by the ten bits of two's complement that
-- the converter delivers, as the pattern of an `int16_t`.
abbrev pub ten_bits : ℕ → ℕ
ten_bits raw = if ltb raw 512 then raw else minus16 (1024 - raw)

unfoldable pub differential : Mode → Bool
differential single_ended = false
differential diff_1_x1 = true
differential diff_0_x10 = true
differential diff_1_x10 = true
differential diff_0_x40 = true
differential diff_1_x40 = true
differential diff_0_x200 = true
differential diff_1_x200 = true
differential previous_mode = false

mode_test : (m : Mode) → not (bit_and (mode_code m) 0b110000 == 0) ≡ differential m
unfolding differential
mode_test single_ended = refl
mode_test diff_1_x1 = refl
mode_test diff_0_x10 = refl
mode_test diff_1_x10 = refl
mode_test diff_0_x40 = refl
mode_test diff_1_x40 = refl
mode_test diff_0_x200 = refl
mode_test diff_1_x200 = refl
mode_test previous_mode = refl

-- For a conversion of ten bits, in single-ended mode and with PREVIOUS_MODE `ADC_Read` returns these bits. In a
-- differential mode it returns the integer that they stand for if this is not negative, and one
-- more than that integer if it is negative.
pub result_lem :
    (m : Mode) (low high : ℕ)
    → low < 256
    → high < 4
    → let raw = low + 256 * high in
      result (mode_code m) low high ≡ (
        if differential m
        then (if ltb raw 512 then ten_bits raw else add16 (ten_bits raw) 1)
        else raw)
unfolding result
result_lem m low high hl hh = rw (mode_test m) (
    ground
      (arith, bit_and-low 1 high, bit_or-fields_low 8 high low, bit_or-fields_low 8 (high % 2) low))
