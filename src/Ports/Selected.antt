-- ===== src/Ports/Selected.antt =====
-- SphereWare/ADC.c: `ADC_Set` writes to the registers only what differs from `prev_mode` and
-- `prev_chan`; what the registers hold after any number of calls.
use sphere_ware.Base.{
  ℕ, ◌+◌, ◌*◌, ◌/◌, ◌%◌, ◌<◌, ◌≡◌, ◌==◌, arith, bit_and, bit_or, List, [], ◌∷◌, ◌∙◌, ap, ◌≢◌, ◌&&◌,
  ltb, ltb→lt, both, ℕ_discrete, ◌⊎◌, inl, inr,
}
use sphere_ware.Base.Bits.{all_below_sound}
use sphere_ware.Ports.Fields.{
  low_table, pair_table, bit_table, code_table, high_table, two_table, start_table, speed_table,
  one_entry, two_entries, previous_table,
}
use sphere_ware.Ports.Converter.{Converter, set_channel, init}

-- A mode, as a code of ADC_Mode but PREVIOUS_MODE, and a channel.
abbrev pub IsChoice : ℕ → ℕ → Type 0
IsChoice mode chan = (mode < 64) × (mode % 4 ≡ 0) × (chan < 4)

-- The registers hold the choice, with the reference of 2.56 V.
pub record Holds (mode chan : ℕ) (c : Converter) : Type 0 where
  pub byte_a : c.admux < 256
  pub byte_b : c.adcsrb < 256
  pub reference : c.admux / 64 ≡ 3
  pub low_bits : c.admux % 32 ≡ (mode + chan) % 32
  pub high_bit : c.adcsrb / 32 % 2 ≡ mode / 32

-- The mode of PREVIOUS_MODE, 1, is the only one after which the registers may hold another choice.
record IsCached (c : Converter) : Type 0 where
  small_a : c.admux < 256
  small_b : c.adcsrb < 256
  volts : c.admux / 64 ≡ 3
  choice : c.prev_mode ≢ 1 → IsChoice c.prev_mode c.prev_chan
  holds : c.prev_mode ≢ 1 → Holds c.prev_mode c.prev_chan c

abbrev pub IsPrevious : ℕ → ℕ → Type 0
IsPrevious mode chan = (mode ≡ 1) × (chan < 4)

choice_bits :
    (mode chan : ℕ)
    → IsChoice mode chan
    → (bit_and (bit_or mode chan) 31 ≡ (mode + chan) % 32) × (bit_and mode 32 ≡ mode / 32 * 32)
choice_bits mode chan (small, whole, low) =
    let quarter : mode ≡ mode / 4 * 4 = omega (arith, whole) in
    let t =
      two_entries 16 4 (λ a c. bit_and (bit_or (a * 4) c) 31) (λ a c. (a * 4 + c) % 32) (mode / 4)
        chan code_table (omega arith) low in
    (
      ap (λ (x : ℕ). bit_and (bit_or x chan) 31) quarter ∙ t ∙ omega (arith, quarter),
      one_entry 64 (λ m. bit_and m 32) (λ m. m / 32 * 32) mode high_table small,
    )

set_both :
    (mode chan : ℕ) (c : Converter)
    → IsChoice mode chan
    → c.admux < 256
    → c.adcsrb < 256
    → c.admux / 64 ≡ 3
    → (bit_or (bit_and c.admux 224) (bit_and (bit_or mode chan) 31)
        ≡ c.admux / 32 * 32 + (mode + chan) % 32)
      × (bit_or (bit_and c.adcsrb 223) (bit_and mode 32)
          ≡ c.adcsrb / 64 * 64 + mode / 32 * 32 + c.adcsrb % 32)
set_both mode chan c choice a b ref =
    let (low, high) = choice_bits mode chan choice in
    (
      rw low (
          two_entries 256 32 (λ b v. bit_or (bit_and b 224) v) (λ b v. b / 32 * 32 + v) c.admux
            ((mode + chan) % 32) low_table a (omega arith)),
      rw high (
          two_entries 256 2 (λ b v. bit_or (bit_and b 223) (v * 32))
            (λ b v. b / 64 * 64 + v * 32 + b % 32) c.adcsrb (mode / 32) bit_table b (omega arith)),
    )

set_low :
    (chan : ℕ) (c : Converter)
    → chan < 4
    → c.admux < 256
    → bit_or (bit_and c.admux 252) (bit_and chan 3) ≡ c.admux / 4 * 4 + chan
set_low chan c low a = rw (one_entry 4 (λ c. bit_and c 3) (λ c. c) chan two_table low) (
    two_entries 256 4 (λ b v. bit_or (bit_and b 252) v) (λ b v. b / 4 * 4 + v) c.admux chan
      pair_table a low)

set_channel_prev :
    (mode chan : ℕ) (c : Converter)
    → ((set_channel mode chan c).prev_mode ≡ mode) × ((set_channel mode chan c).prev_chan ≡ chan)
unfolding set_channel
set_channel_prev mode chan c = (ground arith, ground arith)

-- A call with the mode of the call before, which was not PREVIOUS_MODE.
same_mode :
    (mode chan : ℕ) (c : Converter)
    → IsChoice mode chan
    → IsCached c
    → mode ≡ c.prev_mode
    → IsChoice mode c.prev_chan × Holds mode c.prev_chan c
same_mode mode chan c choice v e =
    let proper : c.prev_mode ≢ 1 = λ one. absurd (omega (arith, e, one, choice.1)) in
    (rw e (v.choice proper), rw e (v.holds proper))

set_channel-same :
    (mode chan : ℕ) (c : Converter)
    → IsChoice mode chan
    → IsCached c
    → mode ≡ c.prev_mode
    → Holds mode chan (set_channel mode chan c)
unfolding set_channel
set_channel-same mode chan c choice v e =
    let (before, h) = same_mode mode chan c choice v e in
    let low = set_low chan c choice.2 v.small_a in
    record {
      byte_a = ground (arith, low, h.byte_a);
      byte_b = ground (arith, low, h.byte_b);
      reference = ground (arith, low, h.reference);
      low_bits = ground (arith, low, h.low_bits, before, choice);
      high_bit = ground (arith, low, h.high_bit);
    }

set_channel-other :
    (mode chan : ℕ) (c : Converter)
    → IsChoice mode chan
    → IsCached c
    → mode ≢ c.prev_mode
    → Holds mode chan (set_channel mode chan c)
unfolding set_channel
set_channel-other mode chan c choice v other =
    let fields = set_both mode chan c choice v.small_a v.small_b v.volts in
    record {
      byte_a = ground (arith, fields);
      byte_b = ground (arith, fields);
      reference = ground (arith, fields);
      low_bits = ground (arith, fields);
      high_bit = ground (arith, fields);
    }

set_channel-Holds :
    (mode chan : ℕ) (c : Converter)
    → IsChoice mode chan
    → IsCached c
    → Holds mode chan (set_channel mode chan c)
set_channel-Holds mode chan c choice v = elim (ℕ_discrete mode c.prev_mode) [
  | yes e ↦ set_channel-same mode chan c choice v e
  | no other ↦ set_channel-other mode chan c choice v other
]

set_channel-IsCached :
    (mode chan : ℕ) (c : Converter)
    → IsChoice mode chan
    → IsCached c
    → IsCached (set_channel mode chan c)
unfolding set_channel
set_channel-IsCached mode chan c choice v =
    let (m, k) = set_channel_prev mode chan c in
    let h = set_channel-Holds mode chan c choice v in
    record {
      small_a = h.byte_a;
      small_b = h.byte_b;
      volts = h.reference;
      choice = λ proper. rw (m, k) choice;
      holds = λ proper. rw (m, k) h;
    }

-- A call with PREVIOUS_MODE keeps the reference.
previous-IsCached :
    (chan : ℕ) (c : Converter) → chan < 4 → IsCached c → IsCached (set_channel 1 chan c)
unfolding set_channel
previous-IsCached chan c low v =
    let (m, k) = set_channel_prev 1 chan c in
    let value : ℕ = bit_and (bit_or 1 chan) 31 in
    let few : value < 4 =
      ltb→lt value 4
        (both (ltb value 4) _ (
          all_below_sound 4
            (λ c. ltb (bit_and (bit_or 1 c) 31) 4 && (bit_and (bit_or 1 c) 31 / 32 == 0)) chan
            previous_table low)).0 in
    let mux =
      two_entries 256 32 (λ b v. bit_or (bit_and b 224) v) (λ b v. b / 32 * 32 + v) c.admux value
        low_table v.small_a (omega arith) in
    let control =
      two_entries 256 2 (λ b v. bit_or (bit_and b 223) (v * 32))
        (λ b v. b / 64 * 64 + v * 32 + b % 32) c.adcsrb 0 bit_table v.small_b (omega arith) in
    let pair = set_low chan c low v.small_a in
    record {
      small_a = ground (arith, mux, pair, v.small_a);
      small_b = ground (arith, control, v.small_b);
      volts = ground (arith, mux, pair, v.volts);
      choice = λ proper. absurd (proper m);
      holds = λ proper. absurd (proper m);
    }

-- Calls of `ADC_Set`, one after the other.
unfoldable pub set_channels : List (ℕ × ℕ) → Converter → Converter
set_channels [] c = c
set_channels ((mode, chan) ∷ calls) c = set_channels calls (set_channel mode chan c)

abbrev pub AreChoices : List (ℕ × ℕ) → Type 0
AreChoices [] = Unit
AreChoices ((mode, chan) ∷ calls) = (IsChoice mode chan ⊎ IsPrevious mode chan) × AreChoices calls

set_channels-IsCached :
    (calls : List (ℕ × ℕ)) (c : Converter)
    → AreChoices calls
    → IsCached c
    → IsCached (set_channels calls c)
unfolding set_channels
set_channels-IsCached [] c choices v = v
set_channels-IsCached ((mode, chan) ∷ calls) c choices v =
    set_channels-IsCached calls (set_channel mode chan c) choices.1 (elim choices.0 [
      | inl choice ↦ set_channel-IsCached mode chan c choice v
      | inr (previous, low) ↦ rw previous (previous-IsCached chan c low v)
    ])

init-IsCached : (c : Converter) → c.admux < 256 → c.adcsrb < 256 → IsCached (init c)
unfolding init
init-IsCached c a b =
    let mux : ℕ = c.admux % 64 + 192 in
    let control : ℕ = c.adcsrb % 128 + 128 in
    let e1 =
      one_entry 256 (λ b. bit_or (bit_and (bit_and b 127) 191) 192) (λ b. b % 64 + 192) c.admux
        start_table a in
    let e2 = one_entry 256 (λ b. bit_or b 128) (λ b. b % 128 + 128) c.adcsrb speed_table b in
    let t1 =
      two_entries 256 32 (λ b v. bit_or (bit_and b 224) v) (λ b v. b / 32 * 32 + v) mux 0 low_table
        (omega arith) (omega arith) in
    let t2 =
      two_entries 256 2 (λ b v. bit_or (bit_and b 223) (v * 32))
        (λ b v. b / 64 * 64 + v * 32 + b % 32) control 0 bit_table (omega arith) (omega arith) in
    let m1 = ap (λ (x : ℕ). bit_or (bit_and x 224) 0) e1 ∙ t1 in
    let m2 = ap (λ (x : ℕ). bit_or (bit_and x 223) 0) e2 ∙ t2 in
    record {
      small_a = omega (arith, m1);
      small_b = omega (arith, m2);
      volts = omega (arith, m1);
      choice = λ proper. (omega arith, omega arith, omega arith);
      holds = λ proper. record {
        byte_a = omega (arith, m1);
        byte_b = omega (arith, m2);
        reference = omega (arith, m1);
        low_bits = omega (arith, m1);
        high_bit = omega (arith, m2);
      };
    }

-- After `ADC_Init` and any calls of `ADC_Set` with modes and channels of the enumerations,
-- PREVIOUS_MODE included, a call with a mode other than PREVIOUS_MODE leaves the registers with the reference of 2.56 V and with the mode and the channel of the call, in
-- the low five bits of ADMUX and in bit 5 of ADCSRB, although it writes only what differs from the
-- call before.
pub set_channel_lem :
    (calls : List (ℕ × ℕ)) (mode chan : ℕ) (c : Converter)
    → AreChoices calls
    → IsChoice mode chan
    → c.admux < 256
    → c.adcsrb < 256
    → Holds mode chan (set_channel mode chan (set_channels calls (init c)))
set_channel_lem calls mode chan c choices choice a b =
    set_channel-Holds mode chan (set_channels calls (init c)) choice
      (set_channels-IsCached calls (init c) choices (init-IsCached c a b))
