-- ===== src/Update/Hex/Print.antt =====
-- Intel hex records as text, written down apart from the parser: a colon, the length, the address
-- and the kind, the bytes, and the checksum, each as digits to the base 16.
use sphere_ware.Base.{ℕ, ◌+◌, ◌-◌, ◌/◌, ◌%◌, ◌<◌, ◌≡◌, ltb, if◌then◌else◌, List, [], ◌∷◌, length}
use sphere_ware.Update.Hex.Line.{Scan, converted}

abbrev pub digit : ℕ → ℕ
digit d = if ltb d 10 then d + b'0' else d + 55

-- Two and four digits, with the text that follows.
abbrev pub two : ℕ → List ℕ → List ℕ
two b rest = digit (b / 16) ∷ digit (b % 16) ∷ rest

abbrev pub four : ℕ → List ℕ → List ℕ
four a rest = two (a / 256) (two (a % 256) rest)

abbrev pub digits_of : List ℕ → List ℕ → List ℕ
digits_of [] rest = rest
digits_of (b ∷ bytes) rest = two b (digits_of bytes rest)

abbrev pub total : List ℕ → ℕ
total [] = 0
total (b ∷ bytes) = b + total bytes

-- A record of data.
pub record Block : Type 0 where
  pub addr : ℕ
  pub bytes : List ℕ

abbrev pub AllBytes : List ℕ → Type 0
AllBytes [] = Unit
AllBytes (b ∷ bytes) = (b < 256) × AllBytes bytes

pub record IsBlock (r : Block) : Type 0 where
  pub addr_small : r.addr < 65536
  pub short : length r.bytes < 256
  pub small : AllBytes r.bytes

abbrev pub sum_of : ℕ → Block → ℕ
sum_of kind r = length r.bytes + r.addr / 256 + r.addr % 256 + kind + total r.bytes

-- The checksum that makes the sum of all bytes a multiple of 256.
abbrev pub checksum : ℕ → Block → ℕ
checksum kind r = (256 - sum_of kind r % 256) % 256

-- A line with any checksum and any end of the line.
abbrev pub line_with : ℕ → Block → ℕ → List ℕ → List ℕ
line_with kind r cksum rest =
    b':' ∷ two (length r.bytes) (four r.addr (two kind (digits_of r.bytes (two cksum rest))))

-- What the documentation of `sscanf` says about "%02x" and "%04x" on digits.
pub record ReadsDigits (scan : Scan) : Type 0 where
  pub reads_two : (b : ℕ) (rest : List ℕ) → b < 256 → scan 2 (two b rest) ≡ converted b
  pub reads_four : (a : ℕ) (rest : List ℕ) → a < 65536 → scan 4 (four a rest) ≡ converted a
