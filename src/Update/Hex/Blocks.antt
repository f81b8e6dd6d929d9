-- ===== src/Update/Hex/Blocks.antt =====
-- Bootloader/HostLoaderApp/hid_bootloader_cli.c: what `parse_hex_line` makes of a line of data, and
-- how many rounds of its loop are enough.
use sphere_ware.Base.{
  ℕ, ◌+◌, ◌^◌, ◌<◌, ◌≤◌, ◌≡◌, false, ltb, ◌==◌, if◌then◌else◌, List, length, some, arith, ◌∙◌, ap,
}
use sphere_ware.Update.Hex.Line.{Scan, Hex, returned, undefined, u32, parse_hex_line, parse_record}
use sphere_ware.Update.Hex.Print.{
  Block, IsBlock, sum_of, checksum, line_with, digits_of, two, ReadsDigits,
}
use sphere_ware.Update.Hex.Records.{
  store_all, outcome, parse_record_lem, parse_record_overflow, parse_record_rejected,
  parse_hex_line_header,
}

-- The variables after the bytes of a record have been stored.
abbrev pub stored : Block → Hex → Hex
stored r s =
    store_all (r.addr + s.extended_addr) r.bytes
      (record s { byte_count = u32 (s.byte_count + length r.bytes) })

outcome-checksum :
    (r : Block) (cksum : ℕ) (s : Hex)
    → cksum < 256
    → outcome (sum_of 0 r) cksum s ≡ returned (cksum == checksum 0 r) s
outcome-checksum r cksum s small = ap (λ b. returned b s) (ground arith)

-- A line of data, with any byte as its checksum, is handled in one of three ways. If the record
-- ends below 65536 its bytes are stored and counted, and the line is accepted exactly if the
-- checksum is right. If it ends below 2 ^ 32 the line is rejected and nothing changes. If the sum
-- of the addresses and the length reaches 2 ^ 32 it wraps around, the test of the range is passed
-- and the first byte is written outside of the array.
pub parse_hex_line_block :
    (scan : Scan) (reads : ReadsDigits scan) (r : Block) (cksum : ℕ) (rest : List ℕ) (s : Hex)
    → IsBlock r
    → cksum < 256
    → length rest < 2 ^ 20
    → s.extended_addr ≤ 0xffff0000
    → let end = r.addr + s.extended_addr + length r.bytes in
      parse_hex_line scan (line_with 0 r cksum rest) s ≡ (
        if ltb end 65536
        then returned (cksum == checksum 0 r) (stored r s)
        else if ltb end (2 ^ 32)
        then returned false s
        else undefined)
parse_hex_line_block scan reads r cksum rest s v small short high =
    parse_hex_line_header scan reads cksum rest small 0 r s v (omega arith) short
    ∙ ground (
      arith,
      parse_record_lem scan reads cksum rest small r s v,
      outcome-checksum r cksum (stored r s) small,
      parse_record_rejected scan reads cksum rest small r s v,
      overflow,
    )
  where
    overflow :
        2 ^ 32 ≤ r.addr + s.extended_addr + length r.bytes
        → parse_record scan
            (record { len = length r.bytes; addr = r.addr; code = 0 })
            (some (digits_of r.bytes (two cksum rest)))
            s
          ≡ undefined
    overflow over =
        parse_record_overflow scan reads cksum rest small r s v
          (λ e. absurd (omega (arith, ap length e, v.addr_small))) (omega (arith, v.addr_small))
          over
