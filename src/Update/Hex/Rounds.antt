-- ===== src/Update/Hex/Rounds.antt =====
-- Bootloader/HostLoaderApp/hid_bootloader_cli.c: the loop of `parse_hex_line` ends.
use sphere_ware.Base.{
  ℕ, zero, suc, ◌+◌, ◌*◌, ◌/◌, ◌%◌, ◌≡◌, ◌≢◌, Bool, true, false, not, ltb, leb, ◌==◌, if◌then◌else◌,
  ◌&&◌, List, [], ◌∷◌, length, Option, some, none, arith, refl,
}
use sphere_ware.Update.Hex.Line.{
  Scan, Hex, Header, Parsed, running, is_wrong, slt32, store_byte, u32, parse_hex_line,
  parse_header, parse_record, extend, check_sum, load, Pointer, scan_at, advance, require,
  require_one, converted, failed, ended, Scanned,
}

abbrev Ends : Parsed → Type 0
Ends p = p ≢ running

require-Ends :
    (o : Option Scanned) {fail : Parsed} {next : ℕ → Parsed}
    → Ends fail
    → ((v : ℕ) → Ends (next v))
    → Ends (require o fail next)
require-Ends none f n = cc
require-Ends (some (converted v)) f n = n v
require-Ends (some failed) f n = f
require-Ends (some ended) f n = cc

require_one-Ends :
    (o : Option Scanned) {fail : Parsed} {next : ℕ → Parsed}
    → Ends fail
    → ((v : ℕ) → Ends (next v))
    → Ends (require_one o fail next)
require_one-Ends none f n = cc
require_one-Ends (some (converted v)) f n = n v
require_one-Ends (some failed) f n = f
require_one-Ends (some ended) f n = f

if-Ends : (b : Bool) {p q : Parsed} → Ends p → Ends q → Ends (if b then p else q)
if-Ends true f n = f
if-Ends false f n = n

module _ (scan : Scan) where
  check_sum-Ends : (sum : ℕ) (ptr : Pointer) (s : Hex) → Ends (check_sum scan sum ptr s)
  unfolding check_sum
  check_sum-Ends sum ptr s =
      require-Ends (scan_at scan 2 ptr) (λ e. cc) λ v. if-Ends (is_wrong sum v) (λ e. cc) (λ e. cc)

  load-Ends :
      (left num sum : ℕ) (h : Header) (ptr : Pointer) (s : Hex)
      → num + suc left ≡ 256
      → Ends (load scan (suc left) h num sum ptr s)
  unfolding load
  load-Ends zero num sum h ptr s full = if-Ends (num == h.len) (check_sum-Ends sum ptr s) (
      require_one-Ends (scan_at scan 2 ptr) (λ e. cc)
        λ v.
          let index = u32 (h.addr + s.extended_addr + num) in
          if-Ends (leb 65536 index) (λ e. cc) (ground arith))
  load-Ends (suc left) num sum h ptr s full = if-Ends (num == h.len) (check_sum-Ends sum ptr s) (
      require_one-Ends (scan_at scan 2 ptr) (λ e. cc)
        λ v.
          let index = u32 (h.addr + s.extended_addr + num) in
          if-Ends (leb 65536 index) (λ e. cc)
            (if-Ends (leb 256 (num + 1)) (λ e. cc)
              (load-Ends left (num + 1) (sum + v % 256) h (advance 2 ptr)
                (store_byte index (v % 256) s) (omega arith))))

  extend-Ends : (shift sum : ℕ) (ptr : Pointer) (s : Hex) → Ends (extend scan shift sum ptr s)
  unfolding extend
  extend-Ends shift sum ptr s =
      require-Ends (scan_at scan 4 ptr) (λ e. cc)
        λ i.
          require-Ends (scan_at scan 2 (advance 4 ptr)) (λ e. cc)
            λ c. if-Ends (is_wrong (sum + i / 256 % 256 + i % 256) c) (λ e. cc) (λ e. cc)

  parse_record-Ends : (h : Header) (ptr : Pointer) (s : Hex) → Ends (parse_record scan h ptr s)
  unfolding parse_record
  parse_record-Ends h ptr s =
      let sum : ℕ = h.len % 256 + h.addr / 256 % 256 + h.addr % 256 + h.code % 256 in
      if-Ends (leb 65536 (u32 (h.addr + s.extended_addr + h.len))) (λ e. cc)
        (if-Ends (h.code == 0) (load-Ends 255 0 sum h ptr _ refl) (
          if-Ends (h.code == 1) (λ e. cc)
            (if-Ends ((h.code == 2) && (h.len == 2)) (extend-Ends 4 sum ptr s)
              (if-Ends ((h.code == 4) && (h.len == 2)) (extend-Ends 16 sum ptr s) (λ e. cc)))))

  parse_header-Ends :
      (line : List ℕ) (ptr : Pointer) (s : Hex) → Ends (parse_header scan line ptr s)
  unfolding parse_header
  parse_header-Ends line ptr s =
      require-Ends (scan_at scan 2 ptr) (λ e. cc)
        λ len.
          if-Ends (slt32 (length line) (u32 (11 + len * 2))) (λ e. cc)
            (require-Ends (scan_at scan 4 (advance 2 ptr)) (λ e. cc)
              λ addr.
                require-Ends (scan_at scan 2 (advance 6 ptr)) (λ e. cc)
                  λ code.
                    parse_record-Ends (record { len = len; addr = addr; code = code })
                      (advance 8 ptr) s)

  -- `parse_hex_line` ends for every line, whatever `sscanf` reads in it, a negative length
  -- included: the 256 rounds that the model gives the loop are enough.
  pub parse_hex_line-ne-running : (line : List ℕ) (s : Hex) → parse_hex_line scan line s ≢ running
  unfolding parse_hex_line
  parse_hex_line-ne-running [] s = λ e. cc
  parse_hex_line-ne-running (c ∷ text) s =
      if-Ends (not (c == b':')) (λ e. cc)
        (if-Ends (ltb (length (c ∷ text)) 11) (λ e. cc)
          (parse_header-Ends (c ∷ text) (some text) s))
