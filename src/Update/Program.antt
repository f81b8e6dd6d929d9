-- ===== src/Update/Program.antt =====
-- Bootloader/HostLoaderApp/hid_bootloader_cli.c: `main`. What the program prints is left out. The
-- answers of `teensy_open` are the list of the attempts, and the file is given for each of the two
-- times that it may be read.
use sphere_ware.Base.{
  ℕ, suc, ◌/◌, Bool, true, false, not, ◌&&◌, ◌||◌, ◌==◌, ltb, ◌^◌, if◌then◌else◌, List, [], ◌∷◌,
  ◌++◌, Option, none, some,
}
use sphere_ware.Update.Loader.{Packet, send_blocks, reboot_packet}
use sphere_ware.Update.Options.{Text, Options, defaults, parse_options}
use sphere_ware.Update.Hex.Line.{Scan, Hex}
use sphere_ware.Update.Hex.File.{Read, counted, no_file, bad_line, read_intel_hex}

-- How the run ends: by `usage` or `die`, or at the end of `main` with the packets that were
-- written.
pub data Run : Type 0 where
  usage_shown : Run
  died : List Packet → Run
  finished : List Packet → Run
  undefined : Run
  -- It still waits for the device after these attempts, or is out of fuel.
  running : Run

-- What the rest of the world answers.
pub record World : Type 0 where
  pub opens : List Bool
  pub hard_reboot_works : Bool
  pub stdin_ended : Bool
  pub first_file : Text → Option (List (List ℕ))
  pub second_file : Text → Option (List (List ℕ))
  pub writes : ℕ → Bool
  -- The first contents of `buf`.
  pub buf : Packet

-- How the loop around `teensy_open` ends: with `waited`.
pub data Opened : Type 0 where
  opened : Bool → Opened
  gave_up : Opened
  waiting : Opened

unfoldable pub open_device : List Bool → Bool → Bool → Bool → Bool → Opened
open_device [] hard_reboot_works hard wait waited = waiting
open_device (answer ∷ answers) hard_reboot_works hard wait waited =
    let next = open_device answers hard_reboot_works false (hard || wait) true in
    if answer
    then opened waited
    else if hard && not hard_reboot_works
    then gave_up
    else if hard || wait
    then next
    else gave_up

-- `num = read_intel_hex(filename); if (num < 0) die(...);`: a count from 2 ^ 31 on is a negative
-- `int`.
abbrev pub read_or_die : Read → (Hex → Run) → Run
read_or_die (counted n s) next = if ltb n (2 ^ 31) then next s else died []
read_or_die (no_file s) next = died []
read_or_die (bad_line s) next = died []
read_or_die Read.undefined next = undefined
read_or_die Read.running next = running

-- The part of `main` from the first block on.
unfoldable pub program : World → Options → Hex → Run
program w o s =
    let sent =
      send_blocks s.image o.code_size o.block_size w.writes (suc (o.code_size / o.block_size)) 0
        w.buf in
    if sent.completed
    then finished
        (if o.reboot_after_programming then sent.packets ++ (reboot_packet ∷ []) else sent.packets)
    else if sent.refused
    then died sent.packets
    else running

abbrev pub after_open : Opened → (Bool → Run) → Run
after_open (opened waited) next = next waited
after_open gave_up next = died []
after_open waiting next = running

-- The part from the first reading of the file on.
unfoldable pub load_device : Scan → World → Options → Text → Run
load_device scan w o name =
    read_or_die (read_intel_hex scan w.stdin_ended (w.first_file name)) λ first.
      after_open
        (open_device w.opens w.hard_reboot_works o.hard_reboot_device o.wait_for_device_to_appear
          false)
        λ waited.
          if waited
          then (read_or_die (read_intel_hex scan w.stdin_ended (w.second_file name))
              λ second. program w o second)
          else program w o first

abbrev pub with_name : Scan → World → Options → Option Text → Run
with_name scan w o none = usage_shown
with_name scan w o (some name) = if o.code_size == 0 then usage_shown else load_device scan w o name

abbrev pub with_options : Scan → World → Option Options → Run
with_options scan w none = died []
with_options scan w (some o) = with_name scan w o o.filename

-- main
unfoldable pub loader_main : Scan → World → List Text → Run
loader_main scan w args = with_options scan w (parse_options args defaults)
