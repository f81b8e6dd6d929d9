-- ===== src/Update/Ends.antt =====
-- Bootloader/HostLoaderApp/hid_bootloader_cli.c: `main` ends once the device answers.
use sphere_ware.Base.{
  ℕ, zero, suc, ◌/◌, ◌≡◌, ◌≢◌, Bool, true, false, ◌||◌, ltb, ◌^◌, ◌==◌, if◌then◌else◌, List, [],
  ◌∷◌, ◌++◌, replicate, Option, some, none, arith, refl,
}
use sphere_ware.Update.Hex.Line.{Scan, Hex, Parsed, returned, parse_hex_line}
use sphere_ware.Update.Hex.Rounds.{parse_hex_line-ne-running}
use sphere_ware.Update.Hex.File.{
  Read, counted, no_file, bad_line, after_line, blank, read_lines, read_intel_hex,
}
use sphere_ware.Update.Sizes.{IsSized, parse_options-IsSized, send_blocks_stops}
use sphere_ware.Update.Options.{Text, Options, defaults, parse_options}
use sphere_ware.Update.Program.{
  Run, World, Opened, opened, gave_up, waiting, open_device, read_or_die, after_open, program,
  load_device, with_name, with_options, loader_main,
}

abbrev Stops : Read → Type 0
Stops r = r ≢ Read.running

abbrev Ends : Run → Type 0
Ends r = r ≢ Run.running

if-Stops : (b : Bool) {p q : Read} → Stops p → Stops q → Stops (if b then p else q)
if-Stops true f n = f
if-Stops false f n = n

if-Ends : (b : Bool) {p q : Run} → Ends p → Ends q → Ends (if b then p else q)
if-Ends true f n = f
if-Ends false f n = n

after_line-Stops :
    (p : Parsed) {next : Hex → Read}
    → p ≢ Parsed.running
    → ((s : Hex) → Stops (next s))
    → Stops (after_line p next)
after_line-Stops (returned true s) h n = n s
after_line-Stops (returned false s) h n = cc
after_line-Stops Parsed.undefined h n = cc
after_line-Stops Parsed.running h n = λ e. h refl

read_or_die-Ends :
    (r : Read) {next : Hex → Run}
    → Stops r
    → ((s : Hex) → Ends (next s))
    → Ends (read_or_die r next)
read_or_die-Ends (counted n s) h e = if-Ends (ltb n (2 ^ 31)) (e s) (λ e. cc)
read_or_die-Ends (no_file s) h e = cc
read_or_die-Ends (bad_line s) h e = cc
read_or_die-Ends Read.undefined h e = cc
read_or_die-Ends Read.running h e = λ e. h refl

module _ (scan : Scan) where
  read_lines-Stops :
      (ended : Bool) (lines : List (List ℕ)) (s : Hex) → Stops (read_lines scan ended lines s)
  unfolding read_lines
  read_lines-Stops ended [] s = λ e. cc
  read_lines-Stops ended ([] ∷ lines) s =
      if-Stops (s.end_record_seen || ended) (λ e. cc) (read_lines-Stops ended lines s)
  read_lines-Stops ended ((c ∷ line) ∷ lines) s =
      after_line-Stops (parse_hex_line scan (c ∷ line) s)
        (parse_hex_line-ne-running scan (c ∷ line) s)
        λ s1. if-Stops (s1.end_record_seen || ended) (λ e. cc) (read_lines-Stops ended lines s1)

  read_intel_hex-Stops :
      (ended : Bool) (file : Option (List (List ℕ))) → Stops (read_intel_hex scan ended file)
  unfolding read_intel_hex
  read_intel_hex-Stops ended none = λ e. cc
  read_intel_hex-Stops ended (some lines) = read_lines-Stops ended lines blank

-- The device answers after `n` attempts.
open_device-ne-waiting :
    (n : ℕ) (more : List Bool) (works hard wait waited : Bool)
    → open_device (replicate n false ++ (true ∷ more)) works hard wait waited ≢ waiting
unfolding open_device
open_device-ne-waiting zero more works hard wait waited = λ e. cc
open_device-ne-waiting (suc n) more works hard wait waited =
    let ih = open_device-ne-waiting n more works false (hard || wait) true in ground (arith, ih)

after_open-Ends :
    (r : Opened) {next : Bool → Run}
    → r ≢ waiting
    → ((waited : Bool) → Ends (next waited))
    → Ends (after_open r next)
after_open-Ends (opened waited) h e = e waited
after_open-Ends gave_up h e = λ e. cc
after_open-Ends waiting h e = λ e. h refl

program-Ends :
    (w : World) (o : Options) (s : Hex) → IsSized o.code_size o.block_size → Ends (program w o s)
unfolding program
program-Ends w o s v =
    let blocks : ℕ = o.code_size / o.block_size in
    let stops =
      send_blocks_stops s.image o.code_size o.block_size w.writes blocks (suc blocks) 0 w.buf
        (omega (arith, v.whole)) (omega arith) in
    ground (arith, stops)

module _ (scan : Scan) (w : World) (n : ℕ) (more : List Bool)
    (opens : w.opens ≡ replicate n false ++ (true ∷ more)) where
  load_device-Ends :
      (o : Options) (name : Text)
      → IsSized o.code_size o.block_size
      → Ends (load_device scan w o name)
  unfolding load_device
  load_device-Ends o name v =
      read_or_die-Ends (read_intel_hex scan w.stdin_ended (w.first_file name))
        (read_intel_hex-Stops scan w.stdin_ended (w.first_file name))
        λ first.
          after_open-Ends
            (open_device w.opens w.hard_reboot_works o.hard_reboot_device
              o.wait_for_device_to_appear false)
            (rw opens (
              open_device-ne-waiting n more w.hard_reboot_works o.hard_reboot_device
                o.wait_for_device_to_appear false))
            λ waited.
              if-Ends waited
                (read_or_die-Ends (read_intel_hex scan w.stdin_ended (w.second_file name))
                  (read_intel_hex-Stops scan w.stdin_ended (w.second_file name))
                  λ second. program-Ends w o second v)
                (program-Ends w o first v)

  with_name-Ends :
      (o : Options) (name : Option Text)
      → IsSized o.code_size o.block_size
      → Ends (with_name scan w o name)
  with_name-Ends o none v = λ e. cc
  with_name-Ends o (some name) v = if-Ends (o.code_size == 0) (λ e. cc) (load_device-Ends o name v)

  with_options-Ends :
      (r : Option Options)
      → ((o : Options) → r ≡ some o → IsSized o.code_size o.block_size)
      → Ends (with_options scan w r)
  with_options-Ends none v = λ e. cc
  with_options-Ends (some o) v = with_name-Ends o o.filename (v o refl)

-- Whatever the arguments, the two files and the conversions of `sscanf`, the program ends when the
-- device answers after some number of attempts, whether the packets are written or not: no loop of
-- it goes on for ever.
pub loader_main-ne-running :
    (scan : Scan) (w : World) (args : List Text) (n : ℕ) (more : List Bool)
    → w.opens ≡ replicate n false ++ (true ∷ more)
    → loader_main scan w args ≢ Run.running
unfolding loader_main
loader_main-ne-running scan w args n more opens =
    with_options-Ends scan w n more opens (parse_options args defaults) (parse_options-IsSized args)
