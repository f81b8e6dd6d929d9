-- ===== src/Update/Hex/Line.antt =====
-- Bootloader/HostLoaderApp/hid_bootloader_cli.c: `parse_hex_line`. An `int` is kept as its pattern
-- of 32 bits. What C leaves undefined has the result `undefined`: an access outside of the arrays,
-- a read behind the end of the line, and the use of a variable that `sscanf` has not set.
use sphere_ware.Base.{
  ℕ, zero, suc, ◌+◌, ◌*◌, ◌/◌, ◌%◌, ◌^◌, Bool, true, false, not, ◌&&◌, ltb, leb, ◌==◌,
  if◌then◌else◌, update, List, [], ◌∷◌, length, Option, none, some, ◌<<<◌,
}
use sphere_ware.Update.Image.{Image, max_memory_size}

-- What a call of `sscanf` with one conversion returns: 1 with the value, 0, or EOF.
pub data Scanned : Type 0 where
  converted : ℕ → Scanned
  failed ended : Scanned

-- `scan w text` is the call with the format "%02x" or "%04x", for the width w.
abbrev pub Scan : Type 0
Scan = ℕ → List ℕ → Scanned

-- The variables of the file.
pub record Hex : Type 0 where
  pub image : Image
  pub end_record_seen : Bool
  pub byte_count : ℕ
  pub extended_addr : ℕ

-- The value that is returned, as a truth value, with the variables after the call.
pub data Parsed : Type 0 where
  returned : Bool → Hex → Parsed
  undefined : Parsed
  -- Out of fuel.
  running : Parsed

-- A pointer into the line, as the text behind it; `none` is behind the end.
abbrev pub Pointer : Type 0
Pointer = Option (List ℕ)

abbrev pub advance : ℕ → Pointer → Pointer
advance n none = none
advance zero (some text) = some text
advance (suc n) (some []) = none
advance (suc n) (some (c ∷ text)) = advance n (some text)

abbrev pub scan_at : Scan → ℕ → Pointer → Option Scanned
scan_at scan w none = none
scan_at scan w (some text) = some (scan w text)

-- `if (!sscanf(...)) return ...;` and what follows it.
abbrev pub require : Option Scanned → Parsed → (ℕ → Parsed) → Parsed
require none fail next = undefined
require (some (converted v)) fail next = next v
require (some failed) fail next = fail
require (some ended) fail next = undefined

-- `if (sscanf(...) != 1) return ...;` and what follows it.
abbrev pub require_one : Option Scanned → Parsed → (ℕ → Parsed) → Parsed
require_one none fail next = undefined
require_one (some (converted v)) fail next = next v
require_one (some failed) fail next = fail
require_one (some ended) fail next = fail

abbrev pub u32 : ℕ → ℕ
u32 n = n % 2 ^ 32

-- `a < b` for the type `int`.
abbrev pub slt32 : ℕ → ℕ → Bool
slt32 a b = ltb (u32 (a + 2 ^ 31)) (u32 (b + 2 ^ 31))

-- `((sum & 255) + (cksum & 255)) & 255`, as a truth value.
abbrev pub is_wrong : ℕ → ℕ → Bool
is_wrong sum cksum = not ((sum % 256 + cksum % 256) % 256 == 0)

-- `firmware_image[index] = v; firmware_mask[index] = 1;`
abbrev pub store_byte : ℕ → ℕ → Hex → Hex
store_byte index v s = record s {
  image = record {
    firmware_image = update s.image.firmware_image index v;
    firmware_mask = update s.image.firmware_mask index true;
  };
}

-- `len`, `addr` and `code`.
pub record Header : Type 0 where
  pub len : ℕ
  pub addr : ℕ
  pub code : ℕ

module _ (scan : Scan) where
  -- The part behind the loop over the data.
  unfoldable pub check_sum : ℕ → Pointer → Hex → Parsed
  check_sum sum ptr s =
      require (scan_at scan 2 ptr) (returned false s)
        λ cksum. if is_wrong sum cksum then returned false s else returned true s

  -- `while (num != len)`, on fuel.
  unfoldable pub load : ℕ → Header → ℕ → ℕ → Pointer → Hex → Parsed
  load zero h num sum ptr s = running
  load (suc left) h num sum ptr s =
      let last = check_sum sum ptr s in
      let round = require_one (scan_at scan 2 ptr) (returned false s) λ i.
        let v : ℕ = i % 256 in
        let index = u32 (h.addr + s.extended_addr + num) in
        let s1 = store_byte index v s in
        let next = load left h (num + 1) (sum + v) (advance 2 ptr) s1 in
        if leb max_memory_size index
        then undefined
        else if leb 256 (num + 1)
        then returned false s1
        else next in
      if num == h.len then last else round

  -- The records with the codes 2 and 4, which set `extended_addr`.
  unfoldable pub extend : ℕ → ℕ → Pointer → Hex → Parsed
  extend shift sum ptr s = require (scan_at scan 4 ptr) (returned true s) λ i.
      require (scan_at scan 2 (advance 4 ptr)) (returned true s) λ cksum.
        if is_wrong (sum + i / 256 % 256 + i % 256) cksum
        then returned true s
        else returned true (record s { extended_addr = u32 (i <<< shift) })

  -- What follows the header.
  unfoldable pub parse_record : Header → Pointer → Hex → Parsed
  parse_record h ptr s =
      let sum = h.len % 256 + h.addr / 256 % 256 + h.addr % 256 + h.code % 256 in
      if leb max_memory_size (u32 (h.addr + s.extended_addr + h.len))
      then returned false s
      else if h.code == 0
      then load 256 h 0 sum ptr (record s { byte_count = u32 (s.byte_count + h.len) })
      else if h.code == 1
      then returned true (record s { end_record_seen = true })
      else if (h.code == 2) && (h.len == 2)
      then extend 4 sum ptr s
      else if (h.code == 4) && (h.len == 2)
      then extend 16 sum ptr s
      else returned true s

  -- The numbers of the header.
  unfoldable pub parse_header : List ℕ → Pointer → Hex → Parsed
  parse_header line ptr s = require (scan_at scan 2 ptr) (returned false s) λ len.
      if slt32 (length line) (u32 (11 + len * 2))
      then returned false s
      else (require (scan_at scan 4 (advance 2 ptr)) (returned false s) λ addr.
          require (scan_at scan 2 (advance 6 ptr)) (returned false s)
            λ code. parse_record (record { len = len; addr = addr; code = code }) (advance 8 ptr) s)

  -- parse_hex_line
  unfoldable pub parse_hex_line : List ℕ → Hex → Parsed
  parse_hex_line [] s = returned false s
  parse_hex_line (c ∷ text) s =
      if not (c == b':')
      then returned false s
      else if ltb (length (c ∷ text)) 11
      then returned false s
      else parse_header (c ∷ text) (some text) s
