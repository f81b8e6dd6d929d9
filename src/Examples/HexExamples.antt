-- ===== src/Examples/HexExamples.antt =====
-- Witnesses for the reading of hex files. `sscanf` of the witnesses reads digits only, without the
-- spaces, signs and prefixes that C lets stand before them.
use sphere_ware.Base.{
  ℕ, zero, suc, ◌+◌, ◌-◌, ◌*◌, ◌/◌, ◌%◌, ◌<◌, ◌≤◌, ◌≡◌, ◌≢◌, true, false, leb, ltb, ◌&&◌,
  if◌then◌else◌, List, [], ◌∷◌, Option, none, some, refl, arith, ap, ◌∙◌,
}
use sphere_ware.Base.{◌≢◌, length}
use sphere_ware.Update.Hex.Line.{Scan, converted, failed, ended, returned, parse_hex_line}
use sphere_ware.Update.Hex.Print.{Block, IsBlock, line_with, digit, two, four, ReadsDigits}
use sphere_ware.Update.Hex.Blocks.{stored, parse_hex_line_block}
use sphere_ware.Update.Hex.File.{blank, counted, read_intel_hex}
use sphere_ware.Update.Hex.Items.{Item, block, segment, AllFit, content, size, print_items}
use sphere_ware.Update.Hex.Contents.{is_some, byte_or, hex_of, read_intel_hex_items}
use sphere_ware.Update.Loader.{Packet}
use sphere_ware.Update.Delivery.{receive_all}
use sphere_ware.Update.Options.{
  Text, codes, Options, defaults, parse_options, parse_argument, parse_flag, parse_mcu,
  parse_device,
}
use sphere_ware.Update.Program.{Run, World, finished, program, loader_main}
use sphere_ware.Update.Sizes.{IsSized, parse_options-IsSized, program_ends}
use sphere_ware.Update.Ends.{loader_main-ne-running}
use sphere_ware.Update.FromFile.{from_items, loader_main_delivers}
use sphere_ware.Examples.UpdateExamples.{spm, boot}

unfoldable digit_value : ℕ → Option ℕ
digit_value c =
    if leb 48 c && ltb c 58
    then some (c - 48)
    else if leb 65 c && ltb c 71
    then some (c - 55)
    else none

abbrev scan_more : ℕ → ℕ → List ℕ → ℕ
scan_more zero v text = v
scan_more (suc w) v [] = v
scan_more (suc w) v (c ∷ text) = elim (digit_value c) [
  | none ↦ v
  | some d ↦ scan_more w (v * 16 + d) text
]

abbrev scan_digits : Scan
scan_digits zero text = failed
scan_digits (suc w) [] = ended
scan_digits (suc w) (c ∷ text) = elim (digit_value c) [
  | none ↦ failed
  | some d ↦ converted (scan_more w d text)
]

digit_value-digit : (d : ℕ) → d < 16 → digit_value (digit d) ≡ some d
unfolding digit_value
digit_value-digit d h = ground arith

scan_step :
    (w d : ℕ) (text : List ℕ)
    → d < 16
    → scan_digits (suc w) (digit d ∷ text) ≡ converted (scan_more w d text)
scan_step w d text h = rw (scan_digits, digit_value-digit d h) refl

scan_more_step :
    (w v d : ℕ) (text : List ℕ)
    → d < 16
    → scan_more (suc w) v (digit d ∷ text) ≡ scan_more w (v * 16 + d) text
scan_more_step w v d text h = rw (scan_more, digit_value-digit d h) refl

scan_two : (b : ℕ) (rest : List ℕ) → b < 256 → scan_digits 2 (two b rest) ≡ converted b
scan_two b rest h =
    scan_step 1 (b / 16) (digit (b % 16) ∷ rest) (omega arith)
    ∙ ap converted (scan_more_step 0 (b / 16) (b % 16) rest (omega arith) ∙ omega arith)

scan_four : (a : ℕ) (rest : List ℕ) → a < 65536 → scan_digits 4 (four a rest) ≡ converted a
scan_four a rest h =
    let d1 = a / 256 / 16 in
    let d2 = a / 256 % 16 in
    let d3 = a % 256 / 16 in
    let d4 = a % 256 % 16 in
    scan_step 3 d1 (digit (a / 256 % 16) ∷ two (a % 256) rest) (omega arith)
    ∙ ap converted (
        scan_more_step 2 d1 d2 (two (a % 256) rest) (omega arith)
        ∙ scan_more_step 1 (d1 * 16 + d2) d3 (digit (a % 256 % 16) ∷ rest) (omega arith)
        ∙ scan_more_step 0 ((d1 * 16 + d2) * 16 + d3) d4 rest (omega arith)
        ∙ omega arith)

abbrev reads_digits : ReadsDigits scan_digits
reads_digits = record { reads_two = scan_two; reads_four = scan_four }

-- `\n`
abbrev newline : List ℕ
newline = 10 ∷ []

abbrev two_bytes : Block
two_bytes = record { addr = 0; bytes = 12 ∷ 148 ∷ [] }

two_bytes-IsBlock : IsBlock two_bytes
two_bytes-IsBlock = record {
  addr_small = omega arith;
  short = omega arith;
  small = (omega arith, (omega arith, tt));
}

one_byte-IsBlock : IsBlock (record { addr = 16; bytes = 7 ∷ [] })
one_byte-IsBlock = record {
  addr_small = omega arith;
  short = omega arith;
  small = (omega arith, tt);
}

-- Two records of data, the second at the address 0x1010.
abbrev items : List Item
items = block two_bytes ∷ segment 256 ∷ block (record { addr = 16; bytes = 7 ∷ [] }) ∷ []

items-AllFit : AllFit items 0
items-AllFit = (
  (two_bytes-IsBlock, omega arith),
  ((omega arith, omega arith), ((one_byte-IsBlock, omega arith), omega arith)),
)

parse_hex_line_block_example :
    parse_hex_line scan_digits (line_with 0 two_bytes 94 newline) blank
    ≡ returned true (stored two_bytes blank)
parse_hex_line_block_example =
    parse_hex_line_block scan_digits reads_digits two_bytes 94 newline blank two_bytes-IsBlock
      (omega arith) (omega arith) (omega arith)

read_intel_hex_items_example :
    (read_intel_hex scan_digits false (some (print_items newline items []))
      ≡ counted (size items) (hex_of items))
    × ((k : ℕ)
        → ((hex_of items).image.firmware_mask k ≡ is_some (content items 0 k) false)
          × ((hex_of items).image.firmware_image k ≡ byte_or (content items 0 k) 0xff))
read_intel_hex_items_example =
    read_intel_hex_items scan_digits reads_digits newline items [] (omega arith) items-AllFit
      (omega arith)

-- The device answers at the third attempt, and the file has lost its second record by then.
abbrev world : World
world = record {
  opens = false ∷ false ∷ true ∷ [];
  hard_reboot_works = true;
  stdin_ended = false;
  first_file = λ _. some (print_items newline items []);
  second_file = λ _. some (print_items newline (block two_bytes ∷ []) []);
  writes = λ _. true;
  buf = λ _. 0;
}

abbrev args : List Text
args = codes "-mmcu=atmega32u4" ∷ codes "-w" ∷ codes "fw.hex" ∷ []

loader_main_delivers_example :
    (packets : List Packet) × (loader_main scan_digits world args ≡ finished packets)
    × (spm.byte (receive_all spm packets boot).flash 1
        ≡ from_items (block two_bytes ∷ []) 1 (spm.byte boot.flash 1))
    × ((receive_all spm packets boot).run_bootloader ≡ false)
loader_main_delivers_example =
    loader_main_delivers spm scan_digits reads_digits newline b'f' (codes "w.hex") 2 [] true items
      (block two_bytes ∷ []) [] [] (λ _. 0) boot 1 refl (omega arith) items-AllFit
      ((two_bytes-IsBlock, omega arith), omega arith) (omega arith) (omega arith)

loader_main-ne-running_example : loader_main scan_digits world args ≢ Run.running
loader_main-ne-running_example = loader_main-ne-running scan_digits world args 2 [] refl

abbrev options : Options
options = record defaults {
  wait_for_device_to_appear = true;
  code_size = 32768;
  block_size = 128;
  filename = some (codes "fw.hex");
}

args-options : parse_options args defaults ≡ some options
unfolding parse_options parse_argument parse_flag parse_mcu parse_device
args-options = refl

parse_options-IsSized_example : IsSized 32768 128
parse_options-IsSized_example = parse_options-IsSized args options args-options

program_ends_example :
    (packets : List Packet) × (program world options blank ≡ finished packets)
    × (length packets ≤ 257)
program_ends_example = program_ends args options world blank args-options (λ _. refl)
