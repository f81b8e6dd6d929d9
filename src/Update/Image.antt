-- ===== src/Update/Image.antt =====
-- Bootloader/HostLoaderApp/hid_bootloader_cli.c: the image that an Intel hex file was read into,
-- and the two functions that read it. The addresses and lengths of the program are not negative.
use sphere_ware.Base.{
  ℕ, zero, suc, ◌+◌, ◌-◌, ◌<◌, ◌≡◌, Bool, true, false, ◌||◌, ◌&&◌, leb, ltb, if◌then◌else◌, update,
  arith, ℕ_discrete,
}

-- MAX_MEMORY_SIZE
abbrev pub max_memory_size : ℕ
max_memory_size = 0x10000

-- `firmware_image` and `firmware_mask`
pub record Image : Type 0 where
  pub firmware_image : ℕ → ℕ
  pub firmware_mask : ℕ → Bool

-- The loop of `ihex_bytes_within_range`, with the addresses that are left.
unfoldable pub any_within : Image → ℕ → ℕ → Bool
any_within m zero i = false
any_within m (suc left) i =
    let rest = any_within m left (suc i) in if m.firmware_mask i then true else rest

-- ihex_bytes_within_range; from `begin` to `end`, both included.
unfoldable pub bytes_within_range : Image → ℕ → ℕ → Bool
bytes_within_range m begin end =
    if leb max_memory_size begin || leb max_memory_size end
    then false
    else any_within m (end + 1 - begin) begin

-- The two loops of `ihex_get_data`, from index `i` on, with the bytes that are left.
unfoldable pub blank_bytes : ℕ → ℕ → (ℕ → ℕ) → ℕ → ℕ
blank_bytes zero i bytes = bytes
blank_bytes (suc left) i bytes = blank_bytes left (suc i) (update bytes i 255)

unfoldable pub copy_bytes : Image → ℕ → ℕ → ℕ → (ℕ → ℕ) → ℕ → ℕ
copy_bytes m zero i addr bytes = bytes
copy_bytes m (suc left) i addr bytes =
    copy_bytes m left (suc i) (addr + 1)
      (update bytes i (if m.firmware_mask addr then m.firmware_image addr else 255))

-- ihex_get_data: the bytes of the array behind `bytes` after the call.
unfoldable pub get_data : Image → ℕ → ℕ → (ℕ → ℕ) → ℕ → ℕ
get_data m addr len bytes =
    if leb max_memory_size (addr + len)
    then blank_bytes len 0 bytes
    else copy_bytes m len 0 addr bytes

-- What the flash memory is to hold at an address.
abbrev pub wanted : Image → ℕ → ℕ
wanted m k = if m.firmware_mask k then m.firmware_image k else 255

copy_bytes_lem :
    (m : Image) (left i addr : ℕ) (bytes : ℕ → ℕ) (j k : ℕ)
    → k + i ≡ addr + j
    → copy_bytes m left i addr bytes j
      ≡ (if leb i j && ltb j (i + left) then wanted m k else bytes j)
unfolding copy_bytes
copy_bytes_lem m zero i addr bytes j k e = ground arith
copy_bytes_lem m (suc left) i addr bytes j k e = elim (ℕ_discrete i j) [
  | yes here ↦
      let same : k ≡ addr = omega arith in
      rw same (
        ground
          (arith, copy_bytes_lem m left (suc i) (addr + 1) (update bytes i (wanted m addr)) j k))
  | no other ↦
      ground (arith, copy_bytes_lem m left (suc i) (addr + 1) (update bytes i (wanted m addr)) j k)
]

blank_bytes_lem :
    (left i : ℕ) (bytes : ℕ → ℕ) (j : ℕ)
    → blank_bytes left i bytes j ≡ (if leb i j && ltb j (i + left) then 255 else bytes j)
unfolding blank_bytes
blank_bytes_lem zero i bytes j = ground arith
blank_bytes_lem (suc left) i bytes j =
    ground (arith, blank_bytes_lem left (suc i) (update bytes i 255) j)

-- `ihex_get_data` for a block that ends below the last address of the memory fills the array with
-- what the flash memory is to hold, 255 where the image has no byte. For a block that reaches the
-- end of the memory, the last one included, it fills the array with 255, whatever the image has.
pub get_data_lem :
    (m : Image) (addr len : ℕ) (bytes : ℕ → ℕ) (j : ℕ)
    → j < len
    → get_data m addr len bytes j
      ≡ (if leb max_memory_size (addr + len) then 255 else wanted m (addr + j))
unfolding get_data
get_data_lem m addr len bytes j h = ground (
  arith,
  blank_bytes_lem len 0 bytes j,
  copy_bytes_lem m len 0 addr bytes j (addr + j) (omega arith),
)
