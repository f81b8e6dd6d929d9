-- ===== src/Update/Hex/File.antt =====
-- Bootloader/HostLoaderApp/hid_bootloader_cli.c: `read_intel_hex`. A file is the list of what
-- `fgets` delivers, without the zero byte at the end, or `none` if it cannot be opened.
use sphere_ware.Base.{ℕ, Bool, true, false, ◌||◌, if◌then◌else◌, List, [], ◌∷◌, Option, none, some}
use sphere_ware.Update.Hex.Line.{Scan, Hex, Parsed, returned, parse_hex_line}

-- The value that is returned, -1 and -2 being `no_file` and `bad_line`.
pub data Read : Type 0 where
  counted : ℕ → Hex → Read
  no_file : Hex → Read
  bad_line : Hex → Read
  undefined : Read
  running : Read

-- What the loop does after a line.
abbrev pub after_line : Parsed → (Hex → Read) → Read
after_line (returned true s) next = next s
after_line (returned false s) next = bad_line s
after_line Parsed.undefined next = Read.undefined
after_line Parsed.running next = Read.running

-- The values that are set before the file is opened.
abbrev pub blank : Hex
blank = record {
  image = record { firmware_image = λ i. 0xff; firmware_mask = λ i. false };
  end_record_seen = false;
  byte_count = 0;
  extended_addr = 0;
}

-- `stdin_ended` is what `feof(stdin)` says.
module _ (scan : Scan) (stdin_ended : Bool) where
  unfoldable pub read_lines : List (List ℕ) → Hex → Read
  read_lines [] s = counted s.byte_count s
  read_lines ([] ∷ lines) s =
      let next = read_lines lines s in
      if s.end_record_seen || stdin_ended then counted s.byte_count s else next
  read_lines ((c ∷ line) ∷ lines) s = after_line (parse_hex_line scan (c ∷ line) s) λ s1.
      let next = read_lines lines s1 in
      if s1.end_record_seen || stdin_ended then counted s1.byte_count s1 else next

  -- read_intel_hex
  unfoldable pub read_intel_hex : Option (List (List ℕ)) → Read
  read_intel_hex none = no_file blank
  read_intel_hex (some lines) = read_lines lines blank
