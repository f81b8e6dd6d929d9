-- ===== src/Update/Hex/Records.antt =====
-- Bootloader/HostLoaderApp/hid_bootloader_cli.c: `parse_hex_line` on records of data.
use sphere_ware.Base.{
  ℕ, zero, suc, ◌+◌, ◌*◌, ◌/◌, ◌%◌, ◌^◌, ◌<◌, ◌≤◌, ◌≡◌, ◌≢◌, false, not, List, [], ◌∷◌, length,
  some, arith, refl,
}
use sphere_ware.Update.Hex.Line.{
  Scan, Hex, Header, Parsed, returned, undefined, is_wrong, store_byte, u32, check_sum, load,
  parse_record, parse_header, parse_hex_line,
}
use sphere_ware.Update.Hex.Print.{
  two, digits_of, total, Block, IsBlock, AllBytes, sum_of, line_with, ReadsDigits,
}

-- The bytes of a record are stored from `base` on.
unfoldable pub store_all : ℕ → List ℕ → Hex → Hex
store_all base [] s = s
store_all base (b ∷ bytes) s = store_all (base + 1) bytes (store_byte base b s)

length-digits_of :
    (bytes rest : List ℕ) → length (digits_of bytes rest) ≡ 2 * length bytes + length rest
length-digits_of [] rest = omega arith
length-digits_of (b ∷ bytes) rest = omega (arith, length-digits_of bytes rest)

-- The result of a line, by its checksum.
abbrev pub outcome : ℕ → ℕ → Hex → Parsed
outcome sum cksum s = returned (not (is_wrong sum cksum)) s

module _ (scan : Scan) (reads : ReadsDigits scan) (cksum : ℕ) (rest : List ℕ)
    (small : cksum < 256) where
  check_sum_lem :
      (sum : ℕ) (s : Hex) → check_sum scan sum (some (two cksum rest)) s ≡ outcome sum cksum s
  unfolding check_sum
  check_sum_lem sum s = rw (reads.reads_two cksum rest small) (ground arith)

  load_lem :
      (bytes : List ℕ) (left num sum : ℕ) (h : Header) (s : Hex)
      → AllBytes bytes
      → num + length bytes ≡ h.len
      → h.len < 256
      → num + left ≡ 256
      → h.addr + s.extended_addr + h.len < 65536
      → load scan left h num sum (some (digits_of bytes (two cksum rest))) s
        ≡ outcome (sum + total bytes) cksum (store_all (h.addr + s.extended_addr + num) bytes s)
  unfolding load store_all
  load_lem bytes zero num sum h s all n few e fits = absurd (omega arith)
  load_lem [] (suc left) num sum h s all n few e fits = ground (arith, check_sum_lem sum s)
  load_lem (b ∷ bytes) (suc left) num sum h s all n few e fits =
      rw (reads.reads_two b (digits_of bytes (two cksum rest)) all.0) (
        let base : ℕ = h.addr + s.extended_addr + num in
        let in_memory : u32 base ≡ base = omega arith in
        let byte : b % 256 ≡ b = omega arith in
        let next : h.addr + s.extended_addr + (num + 1) ≡ base + 1 = omega arith in
        let added : sum + b + total bytes ≡ sum + (b + total bytes) = omega arith in
        let ih =
          load_lem bytes left (num + 1) (sum + b) h (store_byte base b s) all.1 (omega arith) few
            (omega arith) fits in
        rw (in_memory, byte, ← next, ← added) (ground (arith, ih)))

  load_overflow :
      (bytes : List ℕ) (left sum : ℕ) (h : Header) (s : Hex)
      → AllBytes bytes
      → bytes ≢ []
      → h.len ≡ length bytes
      → h.addr + s.extended_addr < 2 ^ 32
      → 65536 ≤ h.addr + s.extended_addr
      → load scan (suc left) h 0 sum (some (digits_of bytes (two cksum rest))) s ≡ undefined
  unfolding load
  load_overflow [] left sum h s all ne e low high = absurd (ne refl)
  load_overflow (b ∷ bytes) left sum h s all ne e low high =
      rw (reads.reads_two b (digits_of bytes (two cksum rest)) all.0) (ground arith)

  pub parse_record_lem :
      (r : Block) (s : Hex)
      → IsBlock r
      → r.addr + s.extended_addr + length r.bytes < 65536
      → parse_record scan
          (record { len = length r.bytes; addr = r.addr; code = 0 })
          (some (digits_of r.bytes (two cksum rest)))
          s
        ≡ outcome (sum_of 0 r) cksum (
            store_all
              (r.addr + s.extended_addr)
              r.bytes
              (record s { byte_count = u32 (s.byte_count + length r.bytes) }))
  unfolding parse_record
  parse_record_lem r s v fits =
      let len : ℕ = length r.bytes in
      let s1 = record s { byte_count = u32 (s.byte_count + len) } in
      let h : Header = record { len = len; addr = r.addr; code = 0 } in
      let in_memory : u32 (r.addr + s.extended_addr + len) ≡ r.addr + s.extended_addr + len =
        omega arith in
      let sum : len % 256 + r.addr / 256 % 256 + r.addr % 256 + 0
          ≡ len + r.addr / 256 + r.addr % 256 + 0 =
        omega (arith, v.short, v.addr_small) in
      let base : r.addr + s.extended_addr + 0 ≡ r.addr + s.extended_addr = omega arith in
      let loaded =
        load_lem r.bytes 256 0 (len + r.addr / 256 + r.addr % 256 + 0) h s1 v.small (omega arith)
          v.short refl fits in
      rw (in_memory, sum, ← base) (ground (arith, loaded))

  pub parse_record_overflow :
      (r : Block) (s : Hex)
      → IsBlock r
      → r.bytes ≢ []
      → r.addr + s.extended_addr < 2 ^ 32
      → 2 ^ 32 ≤ r.addr + s.extended_addr + length r.bytes
      → parse_record scan
          (record { len = length r.bytes; addr = r.addr; code = 0 })
          (some (digits_of r.bytes (two cksum rest)))
          s
        ≡ undefined
  unfolding parse_record
  parse_record_overflow r s v ne low high =
      let len : ℕ = length r.bytes in
      let h : Header = record { len = len; addr = r.addr; code = 0 } in
      let lost =
        load_overflow r.bytes 255 (len % 256 + r.addr / 256 % 256 + r.addr % 256 + 0) h
          (record s { byte_count = u32 (s.byte_count + len) }) v.small ne refl low (omega arith) in
      ground (arith, lost)

  pub parse_record_rejected :
      (r : Block) (s : Hex)
      → IsBlock r
      → 65536 ≤ r.addr + s.extended_addr + length r.bytes
      → r.addr + s.extended_addr + length r.bytes < 2 ^ 32
      → parse_record scan
          (record { len = length r.bytes; addr = r.addr; code = 0 })
          (some (digits_of r.bytes (two cksum rest)))
          s
        ≡ returned false s
  unfolding parse_record
  parse_record_rejected r s v low high = ground arith

  pub parse_hex_line_header :
      (kind : ℕ) (r : Block) (s : Hex)
      → IsBlock r
      → kind < 256
      → length rest < 2 ^ 20
      → parse_hex_line scan (line_with kind r cksum rest) s
        ≡ parse_record scan
            (record { len = length r.bytes; addr = r.addr; code = kind })
            (some (digits_of r.bytes (two cksum rest)))
            s
  unfolding parse_hex_line parse_header
  parse_hex_line_header kind r s v k short =
      rw
        (
          reads.reads_two (length r.bytes) _ v.short,
          reads.reads_four r.addr _ v.addr_small,
          reads.reads_two kind _ k,
        )
        (ground (arith, length-digits_of r.bytes (two cksum rest)))
