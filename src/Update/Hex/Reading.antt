-- ===== src/Update/Hex/Reading.antt =====
-- Bootloader/HostLoaderApp/hid_bootloader_cli.c: what `read_intel_hex` makes of a file that lists
-- items.
use sphere_ware.Base.{
  ℕ, suc, ◌+◌, ◌-◌, ◌^◌, ◌<◌, ◌≡◌, true, false, ◌&&◌, ltb, leb, if◌then◌else◌, List, [], ◌∷◌,
  length, some, arith, refl, ◌∙◌, get_or, ◌<<<◌, dec_lt, ℕ_discrete,
}
use sphere_ware.Update.Hex.Line.{
  Scan, Hex, returned, store_byte, u32, parse_hex_line, parse_record, extend,
}
use sphere_ware.Update.Hex.Print.{IsBlock, checksum, two, four, ReadsDigits}
use sphere_ware.Update.Hex.Records.{store_all, parse_hex_line_header}
use sphere_ware.Update.Hex.Blocks.{stored, parse_hex_line_block}
use sphere_ware.Update.Hex.File.{counted, read_lines}
use sphere_ware.Update.Hex.Items.{
  Item, block, segment, linear, base_after, Fits, AllFit, word_block, print_item, end_line,
  print_items,
}

abbrev pub apply : Item → Hex → Hex
apply (block r) s = stored r s
apply (segment i) s = record s { extended_addr = u32 (i <<< 4) }
apply (linear i) s = record s { extended_addr = u32 (i <<< 16) }

abbrev pub apply_all : List Item → Hex → Hex
apply_all [] s = s
apply_all (item ∷ items) s = apply_all items (apply item s)

word-IsBlock : (i : ℕ) → i < 65536 → IsBlock (word_block i)
word-IsBlock i h = record {
  addr_small = omega arith;
  short = omega arith;
  small = (omega arith, (omega arith, tt));
}

-- The variables after the bytes of a record have been stored.
pub store_all_lem :
    (bytes : List ℕ) (base k : ℕ) (s : Hex)
    → let s' = store_all base bytes s in
      let inside = leb base k && ltb k (base + length bytes) in
      (s'.image.firmware_mask k ≡ (if inside then true else s.image.firmware_mask k))
      × (s'.image.firmware_image k
          ≡ (if inside then get_or bytes (k - base) 0 else s.image.firmware_image k))
      × (s'.extended_addr ≡ s.extended_addr)
      × (s'.byte_count ≡ s.byte_count)
      × (s'.end_record_seen ≡ s.end_record_seen)
unfolding store_all
store_all_lem [] base k s = ground arith
store_all_lem (b ∷ bytes) base k s = elim (ℕ_discrete base k) [
  | yes here ↦
      let first : k - base ≡ 0 = omega arith in
      rw first (ground (arith, store_all_lem bytes (base + 1) k (store_byte base b s)))
  | no other ↦ elim (dec_lt base k) [
    | yes later ↦
        let index : k - base ≡ suc (k - (base + 1)) = omega arith in
        rw index (ground (arith, store_all_lem bytes (base + 1) k (store_byte base b s)))
    | no before ↦ ground (arith, store_all_lem bytes (base + 1) k (store_byte base b s))
  ]
]

pub apply_lem :
    (item : Item) (s : Hex)
    → Fits item s.extended_addr
    → ((apply item s).extended_addr ≡ base_after item s.extended_addr)
      × ((apply item s).end_record_seen ≡ s.end_record_seen)
apply_lem (block r) s fits =
    let all =
      store_all_lem r.bytes (r.addr + s.extended_addr) 0
        (record s { byte_count = u32 (s.byte_count + length r.bytes) }) in
    (all.2, all.4)
apply_lem (segment i) s fits = (omega arith, refl)
apply_lem (linear i) s fits = (omega arith, refl)

module _ (scan : Scan) (reads : ReadsDigits scan) (newline : List ℕ)
    (short : length newline < 2 ^ 20) where
  parse_end :
      (s : Hex)
      → s.extended_addr < 65536
      → parse_hex_line scan (end_line newline) s
        ≡ returned true (record s { end_record_seen = true })
  unfolding parse_record
  parse_end s h =
      parse_hex_line_header scan reads 255 newline (omega arith) 1 (record { addr = 0; bytes = [] })
        s (record { addr_small = omega arith; short = omega arith; small = tt }) (omega arith) short
      ∙ ground arith

  extend_lem :
      (shift kind i : ℕ) (s : Hex)
      → i < 65536
      → extend scan shift (2 + kind) (some (four i (two (checksum kind (word_block i)) newline))) s
        ≡ returned true (record s { extended_addr = u32 (i <<< shift) })
  unfolding extend
  extend_lem shift kind i s h =
      rw
        (
          reads.reads_four i _ h,
          reads.reads_two (checksum kind (word_block i)) newline (omega arith),
        )
        (ground arith)

  parse_item :
      (item : Item) (s : Hex)
      → Fits item s.extended_addr
      → parse_hex_line scan (print_item newline item) s ≡ returned true (apply item s)
  unfolding parse_record
  parse_item (block r) s (v, fits) =
      parse_hex_line_block scan reads r (checksum 0 r) newline s v (omega arith) short (omega arith)
      ∙ ground arith
  parse_item (segment i) s (small, fits) =
      parse_hex_line_header scan reads (checksum 2 (word_block i)) newline (omega arith) 2
        (word_block i) s (word-IsBlock i small) (omega arith) short
      ∙ ground (arith, extend_lem 4 2 i s small)
  parse_item (linear i) s (small, fits) =
      parse_hex_line_header scan reads (checksum 4 (word_block i)) newline (omega arith) 4
        (word_block i) s (word-IsBlock i small) (omega arith) short
      ∙ ground (arith, extend_lem 16 4 i s small)

  pub read_lines_lem :
      (items : List Item) (rest : List (List ℕ)) (s : Hex)
      → AllFit items s.extended_addr
      → s.end_record_seen ≡ false
      → let s' = record (apply_all items s) { end_record_seen = true } in
        read_lines scan false (print_items newline items rest) s ≡ counted s'.byte_count s'
  unfolding read_lines
  read_lines_lem [] rest s fits open_ = rw (parse_end s fits) refl
  read_lines_lem (item ∷ items) rest s fits open_ =
      let more : (apply item s).end_record_seen ≡ false = (apply_lem item s fits.0).1 ∙ open_ in
      let ih =
        read_lines_lem items rest (apply item s) (rw (← (apply_lem item s fits.0).0) at fits.1)
          more in
      rw (parse_item item s fits.0) (ground (arith, more, ih))
