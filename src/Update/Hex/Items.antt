-- ===== src/Update/Hex/Items.antt =====
-- Intel hex files as lists of items, what they say about the memory, and how they are written.
use sphere_ware.Base.{
  ℕ, ◌+◌, ◌-◌, ◌*◌, ◌/◌, ◌%◌, ◌<◌, Bool, ◌&&◌, ltb, leb, if◌then◌else◌, List, [], ◌∷◌, length,
  Option, some, none, get_or,
}
use sphere_ware.Update.Hex.Print.{Block, IsBlock, checksum, line_with}

-- Data, or the address that is added to those of the data that follows: a segment of 16 bytes or the
-- upper half of a linear address.
pub data Item : Type 0 where
  block : Block → Item
  segment linear : ℕ → Item

abbrev pub base_after : Item → ℕ → ℕ
base_after (block r) base = base
base_after (segment i) base = i * 16
base_after (linear i) base = i * 65536

-- The item can stand in a file for 64 kB of memory, behind the base address `base`.
abbrev pub Fits : Item → ℕ → Type 0
Fits (block r) base = IsBlock r × (r.addr + base + length r.bytes < 65536)
Fits (segment i) base = (i < 65536) × (base + 2 < 65536)
Fits (linear i) base = (i < 65536) × (base + 2 < 65536)

abbrev pub AllFit : List Item → ℕ → Type 0
AllFit [] base = base < 65536
AllFit (item ∷ items) base = Fits item base × AllFit items (base_after item base)

abbrev pub covers : Block → ℕ → ℕ → Bool
covers r base k = leb (r.addr + base) k && ltb k (r.addr + base + length r.bytes)

-- The byte that the items give to the address `k`: the last one that covers it.
abbrev pub content : List Item → ℕ → ℕ → Option ℕ
content [] base k = none
content (block r ∷ items) base k = elim (content items base k) [
  | some v ↦ some v
  | none ↦ if covers r base k then some (get_or r.bytes (k - (r.addr + base)) 0) else none
]
content (segment i ∷ items) base k = content items (i * 16) k
content (linear i ∷ items) base k = content items (i * 65536) k

abbrev pub size : List Item → ℕ
size [] = 0
size (block r ∷ items) = length r.bytes + size items
size (segment i ∷ items) = size items
size (linear i ∷ items) = size items

abbrev pub word_block : ℕ → Block
word_block i = record { addr = 0; bytes = (i / 256) ∷ (i % 256) ∷ [] }

abbrev pub kind_of : Item → ℕ
kind_of (block r) = 0
kind_of (segment i) = 2
kind_of (linear i) = 4

abbrev pub block_of : Item → Block
block_of (block r) = r
block_of (segment i) = word_block i
block_of (linear i) = word_block i

-- The lines of a file, each with the text `newline` behind it, and the end record.
abbrev pub print_item : List ℕ → Item → List ℕ
print_item newline item =
    line_with (kind_of item) (block_of item) (checksum (kind_of item) (block_of item)) newline

abbrev pub end_line : List ℕ → List ℕ
end_line newline = line_with 1 (record { addr = 0; bytes = [] }) 255 newline

abbrev pub print_items : List ℕ → List Item → List (List ℕ) → List (List ℕ)
print_items newline [] rest = end_line newline ∷ rest
print_items newline (item ∷ items) rest = print_item newline item ∷ print_items newline items rest
