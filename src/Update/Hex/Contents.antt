-- ===== src/Update/Hex/Contents.antt =====
-- Bootloader/HostLoaderApp/hid_bootloader_cli.c: the image that a file of items leaves.
use sphere_ware.Base.{
  ℕ, zero, suc, ◌+◌, ◌-◌, ◌*◌, ◌^◌, ◌<◌, ◌≡◌, Bool, true, false, List, [], ◌∷◌, length, Option,
  some, none, arith, refl, ◌∙◌, ap, get_or, Option-cases, inl, inr,
}
use sphere_ware.Update.Hex.Line.{Scan, Hex, u32}
use sphere_ware.Update.Hex.Print.{AllBytes, ReadsDigits}
use sphere_ware.Update.Hex.File.{counted, blank, read_intel_hex}
use sphere_ware.Update.Hex.Items.{
  Item, block, segment, linear, base_after, Fits, AllFit, content, size, print_items,
}
use sphere_ware.Update.Hex.Reading.{apply, apply_all, store_all_lem, apply_lem, read_lines_lem}

abbrev pub is_some : Option ℕ → Bool → Bool
is_some none old = old
is_some (some v) old = true

abbrev pub byte_or : Option ℕ → ℕ → ℕ
byte_or none old = old
byte_or (some v) old = v

-- What one item and those behind it say, from what those behind it say.
apply-content :
    (item : Item) (items : List Item) (s : Hex) (k : ℕ)
    → Fits item s.extended_addr
    → let later = content items (base_after item s.extended_addr) k in
      let all = content (item ∷ items) s.extended_addr k in
      (is_some later ((apply item s).image.firmware_mask k) ≡ is_some all (s.image.firmware_mask k))
      × (byte_or later ((apply item s).image.firmware_image k)
          ≡ byte_or all (s.image.firmware_image k))
apply-content (segment i) items s k fits = (refl, refl)
apply-content (linear i) items s k fits = (refl, refl)
apply-content (block r) items s k fits =
    let s1 = record s { byte_count = u32 (s.byte_count + length r.bytes) } in
    let here = store_all_lem r.bytes (r.addr + s.extended_addr) k s1 in
    elim (Option-cases (content items s.extended_addr k)) [
      | inl none_later ↦ rw none_later (ground (arith, here))
      | inr (v, later) ↦ rw later (refl, refl)
    ]

apply_all-content :
    (items : List Item) (s : Hex) (k : ℕ)
    → AllFit items s.extended_addr
    → let all = content items s.extended_addr k in
      ((apply_all items s).image.firmware_mask k ≡ is_some all (s.image.firmware_mask k))
      × ((apply_all items s).image.firmware_image k ≡ byte_or all (s.image.firmware_image k))
apply_all-content [] s k fits = (refl, refl)
apply_all-content (item ∷ items) s k fits =
    let base = (apply_lem item s fits.0).0 in
    let ih = apply_all-content items (apply item s) k (rw base fits.1) in
    let step = apply-content item items s k fits.0 in
    let ih' = rw base at ih in (ih'.0 ∙ step.0, ih'.1 ∙ step.1)

apply_all-size :
    (items : List Item) (s : Hex)
    → AllFit items s.extended_addr
    → s.byte_count + size items < 2 ^ 32
    → (apply_all items s).byte_count ≡ s.byte_count + size items
apply_all-size [] s fits small = omega arith
apply_all-size (block r ∷ items) s fits small =
    let s1 = record s { byte_count = u32 (s.byte_count + length r.bytes) } in
    let count = (store_all_lem r.bytes (r.addr + s.extended_addr) 0 s1).3 in
    let same = (apply_lem (block r) s fits.0).0 in
    let ih =
      apply_all-size items (apply (block r) s) (rw same fits.1) (omega (arith, count, small)) in
    omega (arith, ih, count, small)
apply_all-size (segment i ∷ items) s fits small =
    apply_all-size items (apply (segment i) s) (rw (apply_lem (segment i) s fits.0).0 fits.1) small
apply_all-size (linear i ∷ items) s fits small =
    apply_all-size items (apply (linear i) s) (rw (apply_lem (linear i) s fits.0).0 fits.1) small

get_or-IsByte : (bytes : List ℕ) (i : ℕ) → AllBytes bytes → get_or bytes i 0 < 256
get_or-IsByte [] i small = omega arith
get_or-IsByte (b ∷ bytes) zero small = small.0
get_or-IsByte (b ∷ bytes) (suc i) small = get_or-IsByte bytes i small.1

-- What the items give to an address is a byte.
pub content-IsByte :
    (items : List Item) (base k : ℕ) → AllFit items base → byte_or (content items base k) 0xff < 256
content-IsByte [] base k fits = omega arith
content-IsByte (segment i ∷ items) base k fits = content-IsByte items (i * 16) k fits.1
content-IsByte (linear i ∷ items) base k fits = content-IsByte items (i * 65536) k fits.1
content-IsByte (block r ∷ items) base k (v, fits) = elim (Option-cases (content items base k)) [
  | inl none_later ↦
      rw none_later (ground (arith, get_or-IsByte r.bytes (k - (r.addr + base)) v.0.small))
  | inr (b, later) ↦ let ih = content-IsByte items base k fits in rw later (rw later at ih)
]

-- The variables after a file of items.
abbrev pub hex_of : List Item → Hex
hex_of items = record (apply_all items blank) { end_record_seen = true }

pub hex_of_lem :
    (items : List Item) (k : ℕ)
    → AllFit items 0
    → ((hex_of items).image.firmware_mask k ≡ is_some (content items 0 k) false)
      × ((hex_of items).image.firmware_image k ≡ byte_or (content items 0 k) 0xff)
hex_of_lem items k fits = apply_all-content items blank k fits

-- Reading a file that lists items, with any end of the lines and anything behind the end record,
-- gives back what the items say: the number of their bytes, and the image with the byte that they
-- give to each address, or 0xff and no mark where they give none. The items are to fit into 64 kB,
-- `sscanf` is to read digits as it is documented to, and the standard input is not at its end.
pub read_intel_hex_items :
    (scan : Scan) (reads : ReadsDigits scan) (newline : List ℕ) (items : List Item)
    (rest : List (List ℕ))
    → length newline < 2 ^ 20
    → AllFit items 0
    → size items < 2 ^ 32
    → (read_intel_hex scan false (some (print_items newline items rest))
        ≡ counted (size items) (hex_of items))
      × ((k : ℕ)
          → ((hex_of items).image.firmware_mask k ≡ is_some (content items 0 k) false)
            × ((hex_of items).image.firmware_image k ≡ byte_or (content items 0 k) 0xff))
unfolding read_intel_hex
read_intel_hex_items scan reads newline items rest short fits small =
    let read = read_lines_lem scan reads newline short items rest blank fits refl in
    let count : (apply_all items blank).byte_count ≡ size items =
      omega (arith, apply_all-size items blank fits (omega arith)) in
    (read ∙ ap (λ n. counted n (hex_of items)) count, λ k. hex_of_lem items k fits)
