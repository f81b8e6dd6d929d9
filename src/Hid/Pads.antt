-- ===== src/Hid/Pads.antt =====
-- SphereWare/GenericHID.c: what the host reads of a pad after each of the functions that write
-- pad data. The host reads a 9-bit value and a 7-bit velocity from two bytes.
use sphere_ware.Base.{
  ℕ, ◌+◌, ◌*◌, ◌/◌, ◌%◌, ◌<◌, ◌≡◌, ◌&&◌, ltb, leb, ◌==◌, if◌then◌else◌, length, get_or, set, u8,
  bit_and, bit_or, arith, length-set, get_or-set, get_or_of_le, suc, zero, List,
}
use sphere_ware.Base.Bits.{bit_and-low, bit_or-fields_low}
use sphere_ware.Hid.Buffer.{
  Hid, report_size, byte_at, store, write_pad_data, write_pressure_only, clear, zero_bytes,
}

-- The host's reading of the two bytes of a pad.
abbrev pub value_of : Hid → ℕ → ℕ
value_of h pad = byte_at h (2 + pad * 2) * 2 + byte_at h (1 + pad * 2) / 128

abbrev pub velocity_of : Hid → ℕ → ℕ
velocity_of h pad = byte_at h (1 + pad * 2) % 128

-- The buffer has its 127 bytes.
abbrev pub IsWhole : Hid → Type 0
IsWhole h = length h.buffer ≡ report_size

pub store-IsWhole : (h : Hid) (i v : ℕ) → IsWhole h → IsWhole (store i v h)
store-IsWhole h i v e = omega (arith, length-set h.buffer i (u8 v))

pub byte_at-store :
    (h : Hid) (i v j : ℕ)
    → IsWhole h
    → i < report_size
    → byte_at (store i v h) j ≡ (if j == i then u8 v else byte_at h j)
byte_at-store h i v j e lt = ground (arith, get_or-set h.buffer i j (u8 v) 0)

two_bytes :
    (h : Hid) (i v w j : ℕ)
    → IsWhole h
    → 1 + i < report_size
    → byte_at (store (1 + i) v (store i w h)) j
      ≡ (if j == (1 + i) then u8 v else if j == i then u8 w else byte_at h j)
two_bytes h i v w j e lt =
    ground
      (arith, store-IsWhole h i w, byte_at-store h i w j, byte_at-store (store i w h) (1 + i) v j)

low_byte : (v w : ℕ) → bit_or (bit_and w 127) (bit_and v 1 * 128) ≡ v % 2 * 128 + w % 128
low_byte v w =
    ground (arith, bit_and-low 1 v, bit_and-low 7 w, bit_or-fields_low 7 (v % 2) (w % 128))

-- Every byte of the buffer after `write_pad_data`.
pub write_pad_data_bytes :
    (h : Hid) (pad value velocity j : ℕ)
    → IsWhole h
    → pad < 48
    → byte_at (write_pad_data pad value velocity h) j ≡ (
        if j == (2 + pad * 2)
        then value / 2 % 256
        else if j == (1 + pad * 2)
        then value % 2 * 128 + velocity % 128
        else byte_at h j)
unfolding write_pad_data
write_pad_data_bytes h pad value velocity j e lt = ground (
  arith,
  low_byte value velocity,
  two_bytes h (1 + pad * 2) (value / 2) (bit_or (bit_and velocity 127) (bit_and value 1 * 128)) j,
)

-- Every byte of the buffer after `write_pressure_only`.
pub write_pressure_only_bytes :
    (h : Hid) (pad value j : ℕ)
    → IsWhole h
    → pad < 48
    → byte_at (write_pressure_only pad value h) j ≡ (
        if j == (2 + pad * 2)
        then value / 2 % 256
        else if j == (1 + pad * 2)
        then value % 2 * 128 + byte_at h j % 128
        else byte_at h j)
unfolding write_pressure_only
write_pressure_only_bytes h pad value j e lt =
    let i : ℕ = 1 + pad * 2 in
    let w : ℕ = bit_and (byte_at h i) 127 in
    let h1 = store i w h in
    let w' : ℕ = bit_or (byte_at h1 i) (bit_and value 1 * 128) in
    ground (
      arith,
      bit_and-low 7 (byte_at h i),
      bit_and-low 1 value,
      bit_or-fields_low 7 (value % 2) (byte_at h i % 128),
      store-IsWhole h i w,
      byte_at-store h i w i,
      byte_at-store h i w j,
      two_bytes h1 i (value / 2) w' j,
    )

pub write_pad_data-IsWhole :
    (h : Hid) (pad value velocity : ℕ) → IsWhole h → IsWhole (write_pad_data pad value velocity h)
unfolding write_pad_data
write_pad_data-IsWhole h pad value velocity e = simp length-set e

pub write_pressure_only-IsWhole :
    (h : Hid) (pad value : ℕ) → IsWhole h → IsWhole (write_pressure_only pad value h)
unfolding write_pressure_only
write_pressure_only-IsWhole h pad value e = simp length-set e

-- With the whole report, after `GenericHID_Write_PadData` for one of the 48 pads the host reads the
-- value modulo 512 and the velocity modulo 128 for that pad, and what it read before for every
-- other pad.
pub write_pad_data_lem :
    (h : Hid) (pad value velocity other : ℕ)
    → IsWhole h
    → pad < 48
    → let h' = write_pad_data pad value velocity h in
      (value_of h' other ≡ (if other == pad then value % 512 else value_of h other))
      × (velocity_of h' other ≡ (if other == pad then velocity % 128 else velocity_of h other))
write_pad_data_lem h pad value velocity other e lt = ground (
  arith,
  write_pad_data_bytes h pad value velocity (1 + other * 2) e lt,
  write_pad_data_bytes h pad value velocity (2 + other * 2) e lt,
)

-- With the whole report, `GenericHID_Write_PressureOnly` for one of the 48 pads changes the value
-- of its pad and no velocity: the host reads the value modulo 512 for that pad, the values of the
-- other pads as before, and every velocity as before.
pub write_pressure_only_lem :
    (h : Hid) (pad value other : ℕ)
    → IsWhole h
    → pad < 48
    → let h' = write_pressure_only pad value h in
      (value_of h' other ≡ (if other == pad then value % 512 else value_of h other))
      × (velocity_of h' other ≡ velocity_of h other)
write_pressure_only_lem h pad value other e lt = ground (
  arith,
  write_pressure_only_bytes h pad value (1 + other * 2) e lt,
  write_pressure_only_bytes h pad value (2 + other * 2) e lt,
)

pub zero_bytes_lem :
    (n i j : ℕ) (b : List ℕ)
    → get_or (zero_bytes i n b) j 0 ≡ (if leb i j && ltb j (i + n) then 0 else get_or b j 0)
unfolding zero_bytes
zero_bytes_lem zero i j b = ground arith
zero_bytes_lem (suc n) i j b =
    ground (arith, zero_bytes_lem n (suc i) j (set b i 0), get_or-set b i j 0 0, get_or_of_le b j 0)

-- `GenericHID_Clear` leaves each of the 48 pads at velocity 0, and each but the last at value 0. It
-- stops one byte short of the pads: pad 47 keeps the high bits of its value. Of the whole buffer
-- it clears the bytes 1 to 95 and no other.
pub clear_lem :
    (h : Hid) (pad j : ℕ)
    → pad < 48
    → (velocity_of (clear h) pad ≡ 0)
      × (value_of (clear h) pad ≡ (if pad == 47 then byte_at h 96 * 2 else 0))
      × (byte_at (clear h) j ≡ (if leb 1 j && leb j 95 then 0 else byte_at h j))
unfolding clear
clear_lem h pad j lt = ground (
  arith,
  zero_bytes_lem 95 1 (1 + pad * 2) h.buffer,
  zero_bytes_lem 95 1 (2 + pad * 2) h.buffer,
  zero_bytes_lem 95 1 96 h.buffer,
  zero_bytes_lem 95 1 j h.buffer,
)
