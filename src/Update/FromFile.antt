-- ===== src/Update/FromFile.antt =====
-- The update from a file: Bootloader/HostLoaderApp/hid_bootloader_cli.c from its arguments to the
-- packets, and Bootloader/BootloaderHID.c, which handles them.
use sphere_ware.Base.{
  ℕ, zero, suc, ◌*◌, ◌/◌, ◌^◌, ◌<◌, ◌≡◌, Bool, true, false, ◌&&◌, ◌||◌, ltb, ◌==◌, if◌then◌else◌,
  List, [], ◌∷◌, ◌++◌, length, some, replicate, arith, refl, ◌∙◌, Bool-cases, Option-cases, inl,
  inr,
}
use sphere_ware.Update.Flash.{Spm}
use sphere_ware.Update.Handler.{Boot}
use sphere_ware.Update.Image.{wanted}
use sphere_ware.Update.Loader.{Packet, send_blocks, reboot_packet}
use sphere_ware.Update.Delivery.{any_byte, receive, receive_all, delivered, delivery}
use sphere_ware.Update.Hex.Line.{Scan, Hex}
use sphere_ware.Update.Hex.Print.{ReadsDigits}
use sphere_ware.Update.Hex.File.{counted, read_intel_hex}
use sphere_ware.Update.Hex.Items.{Item, AllFit, content, size, print_items}
use sphere_ware.Update.Hex.Contents.{
  is_some, byte_or, content-IsByte, hex_of, hex_of_lem, read_intel_hex_items,
}
use sphere_ware.Update.Options.{
  Text, Options, codes, defaults, parse_options, parse_argument, parse_flag, parse_mcu,
  parse_device,
}
use sphere_ware.Update.Program.{
  World, finished, opened, open_device, program, load_device, loader_main,
}

-- Whether the items give a byte to one of the addresses from `i` on, with those that are left.
abbrev pub any_content : List Item → ℕ → ℕ → Bool
any_content items zero i = false
any_content items (suc left) i =
    let rest = any_content items left (suc i) in is_some (content items 0 i) false || rest

-- What a file of items makes of the byte at `k` of the flash memory: the first block, and each block
-- with a byte of the items, hold the bytes of the items, and 0xff where they give none.
abbrev pub from_items : List Item → ℕ → ℕ → ℕ
from_items items k before =
    let block = k / 128 * 128 in
    if ltb k 32768 && (block == 0 || any_content items 128 block)
    then byte_or (content items 0 k) 0xff
    else before

any_byte-content :
    (items : List Item) (left i : ℕ)
    → AllFit items 0
    → any_byte (hex_of items).image left i ≡ any_content items left i
any_byte-content items zero i fits = refl
any_byte-content items (suc left) i fits =
    rw ((hex_of_lem items i fits).0, any_byte-content items left (suc i) fits) refl

wanted-content :
    (items : List Item) (k : ℕ)
    → AllFit items 0
    → wanted (hex_of items).image k ≡ byte_or (content items 0 k) 0xff
wanted-content items k fits =
    let (mask, value) = hex_of_lem items k fits in
    elim (Option-cases (content items 0 k)) [
      | inl none_here ↦ rw (mask, none_here) refl
      | inr (v, here) ↦ rw (mask, value, here) refl
    ]

delivered-from_items :
    (items : List Item) (k before : ℕ)
    → AllFit items 0
    → delivered (hex_of items).image k before ≡ from_items items k before
delivered-from_items items k before fits =
    rw (wanted-content items k fits, any_byte-content items 128 (k / 128 * 128) fits) refl

receive_all_snoc :
    (spm : Spm) (packets : List Packet) (p : Packet) (b : Boot spm)
    → receive_all spm (packets ++ (p ∷ [])) b ≡ receive spm p (receive_all spm packets b)
unfolding receive_all
receive_all_snoc spm [] p b = refl
receive_all_snoc spm (q ∷ packets) p b = receive_all_snoc spm packets p (receive spm q b)

-- The device does not answer `n` times.
open_device_lem :
    (n : ℕ) (more : List Bool) (works waited : Bool)
    → open_device (replicate n false ++ (true ∷ more)) works false true waited
      ≡ opened (ltb 0 n || waited)
unfolding open_device
open_device_lem zero more works waited = refl
open_device_lem (suc n) more works waited = rw (open_device_lem n more works true) (ground arith)

module _ (spm : Spm) where
  open spm use {byte}

  program_lem :
      (w : World) (o : Options) (items : List Item) (b : Boot spm) (k : ℕ)
      → ((a : ℕ) → w.writes a ≡ true)
      → o.code_size ≡ 32768
      → o.block_size ≡ 128
      → o.reboot_after_programming ≡ true
      → AllFit items 0
      → (packets : List Packet) × (program w o (hex_of items) ≡ finished packets)
        × (byte (receive_all spm packets b).flash k ≡ from_items items k (byte b.flash k))
        × ((receive_all spm packets b).run_bootloader ≡ false)
  unfolding program
  program_lem w o items b k all code block reboot fits =
      let image = (hex_of items).image in
      let small : (j : ℕ) → image.firmware_image j < 256 =
        λ j. omega (arith, (hex_of_lem items j fits).1, content-IsByte items 0 j fits) in
      let sent = send_blocks image 32768 128 w.writes 257 0 w.buf in
      let d = delivery spm image small w.writes w.buf b k all in
      let last = receive_all_snoc spm sent.packets reboot_packet b ∙ d.3 in
      (
        sent.packets ++ (reboot_packet ∷ []),
        rw (code, block, reboot) (rw d.0 refl),
        rw last (d.1 ∙ delivered-from_items items k (byte b.flash k) fits),
        rw last refl,
      )

  load_device_lem :
      (scan : Scan) (w : World) (o : Options) (name : Text) (n first second : ℕ) (s1 s2 : Hex)
      (more : List Bool)
      → w.opens ≡ replicate n false ++ (true ∷ more)
      → o.hard_reboot_device ≡ false
      → o.wait_for_device_to_appear ≡ true
      → read_intel_hex scan w.stdin_ended (w.first_file name) ≡ counted first s1
      → read_intel_hex scan w.stdin_ended (w.second_file name) ≡ counted second s2
      → first < 2 ^ 31
      → second < 2 ^ 31
      → load_device scan w o name ≡ program w o (if ltb 0 n then s2 else s1)
  unfolding load_device
  load_device_lem scan w o name n first second s1 s2 more opens hard wait e1 e2 h1 h2 =
      rw (e1, e2, opens, hard, wait, open_device_lem n more w.hard_reboot_works false)
        (ground arith)

  -- The options that are given.
  abbrev waiting_options : Text → Options
  waiting_options name = record defaults {
    wait_for_device_to_appear = true;
    code_size = 32768;
    block_size = 128;
    filename = some name;
  }

  parse_options_lem :
      (c : ℕ) (name : Text)
      → (c == b'-') ≡ false
      → parse_options (codes "-mmcu=atmega32u4" ∷ codes "-w" ∷ (c ∷ name) ∷ []) defaults
        ≡ some (waiting_options (c ∷ name))
  unfolding parse_options parse_argument parse_flag parse_mcu parse_device
  parse_options_lem c name dash = rw dash refl

  -- The program with the arguments "-mmcu=atmega32u4", "-w" and a file name that does not start
  -- with `-`, when the device answers after `n` attempts, all packets are written, and the file
  -- lists items that fit into 64 kB, `before` at the start and `after` once the device answers: it
  -- gets to its end, and the device that handles the packets has left its bootloader and holds in
  -- its flash memory what the file listed, `before` if the device answered at once and `after` if
  -- the program waited. `sscanf` is to read digits as it is documented to.
  pub loader_main_delivers :
      (scan : Scan) (reads : ReadsDigits scan) (newline : List ℕ) (c : ℕ) (name : Text) (n : ℕ)
      (more : List Bool) (works : Bool) (before after : List Item) (rest1 rest2 : List (List ℕ))
      (buf : Packet) (b : Boot spm) (k : ℕ)
      → (c == b'-') ≡ false
      → length newline < 2 ^ 20
      → AllFit before 0
      → AllFit after 0
      → size before < 2 ^ 31
      → size after < 2 ^ 31
      → let w : World = record {
        opens = replicate n false ++ (true ∷ more);
        hard_reboot_works = works;
        stdin_ended = false;
        first_file = λ _. some (print_items newline before rest1);
        second_file = λ _. some (print_items newline after rest2);
        writes = λ _. true;
        buf = buf;
      } in
        let items = if ltb 0 n then after else before in
        (packets : List Packet) × (loader_main scan w
            (codes "-mmcu=atmega32u4" ∷ codes "-w" ∷ (c ∷ name) ∷ [])
          ≡ finished packets)
        × (byte (receive_all spm packets b).flash k ≡ from_items items k (byte b.flash k))
        × ((receive_all spm packets b).run_bootloader ≡ false)
  unfolding loader_main
  loader_main_delivers scan reads newline c name n more works before after rest1 rest2 buf b k dash
        short fits1 fits2 small1 small2 =
      let w : World = record {
        opens = replicate n false ++ (true ∷ more);
        hard_reboot_works = works;
        stdin_ended = false;
        first_file = λ _. some (print_items newline before rest1);
        second_file = λ _. some (print_items newline after rest2);
        writes = λ _. true;
        buf = buf;
      } in
      let o = waiting_options (c ∷ name) in
      let read1 = read_intel_hex_items scan reads newline before rest1 short fits1 (omega arith) in
      let read2 = read_intel_hex_items scan reads newline after rest2 short fits2 (omega arith) in
      let load =
        load_device_lem scan w o (c ∷ name) n (size before) (size after) (hex_of before)
          (hex_of after) more refl refl refl read1.0 read2.0 small1 small2 in
      let run : loader_main scan w (codes "-mmcu=atmega32u4" ∷ codes "-w" ∷ (c ∷ name) ∷ [])
          ≡ program w o (if ltb 0 n then hex_of after else hex_of before) =
        rw (parse_options_lem c name dash) load in
      elim (Bool-cases (ltb 0 n)) [
        | inl later ↦
            let (packets, e, flash, out) =
              program_lem w o after b k (λ _. refl) refl refl refl fits2 in
            (packets, run ∙ rw later e, rw later flash, out)
        | inr now ↦
            let (packets, e, flash, out) =
              program_lem w o before b k (λ _. refl) refl refl refl fits1 in
            (packets, run ∙ rw now e, rw now flash, out)
      ]
