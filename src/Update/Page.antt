-- ===== src/Update/Page.antt =====
-- Bootloader/BootloaderHID.c: what the flash memory holds after a page has been programmed.
use sphere_ware.Base.{
  ℕ, zero, suc, ◌+◌, ◌*◌, ◌/◌, ◌%◌, ◌^◌, ◌<◌, ◌≤◌, ◌≡◌, ◌&&◌, leb, ltb, ◌==◌, if◌then◌else◌, u16,
  arith, refl,
}
use sphere_ware.Base.Bits.{bit_and-low}
use sphere_ware.Update.Flash.{Spm, byte_of}
use sphere_ware.Update.Handler.{fill_page, program_page}

module _ (spm : Spm) where
  open spm use {Flash, byte, buffer, page_erase, page_fill, page_write}

  fill_page-byte :
      (left page_word a : ℕ) (word : ℕ → ℕ) (f : Flash) (k : ℕ)
      → byte (fill_page spm left page_word a word f) k ≡ byte f k
  unfolding fill_page
  fill_page-byte zero page_word a word f k = refl
  fill_page-byte (suc left) page_word a word f k = ground (
    arith,
    fill_page-byte left (page_word + 1) a word
        (page_fill (u16 (a + page_word * 2 ^ 1)) (word (page_word + 1)) f) k,
    spm.fill_byte (u16 (a + page_word * 2 ^ 1)) (word (page_word + 1)) k f,
  )

  fill_page-buffer :
      (left page_word a : ℕ) (word : ℕ → ℕ) (f : Flash) (i : ℕ)
      → a % 128 ≡ 0
      → a < 65536
      → page_word + left ≤ 64
      → buffer (fill_page spm left page_word a word f) i
        ≡ (if leb page_word i && ltb i (page_word + left) then word (i + 1) else buffer f i)
  unfolding fill_page
  fill_page-buffer zero page_word a word f i aligned small fits = ground arith
  fill_page-buffer (suc left) page_word a word f i aligned small fits = ground (
    arith,
    fill_page-buffer left (page_word + 1) a word
        (page_fill (u16 (a + page_word * 2 ^ 1)) (word (page_word + 1)) f) i,
    spm.fill_buffer (u16 (a + page_word * 2 ^ 1)) (word (page_word + 1)) i f,
  )

  -- Programming a page at an aligned address of 16 bits leaves in it the 64 words in order, the low
  -- byte of each first, and every other byte of the flash memory as it was.
  pub program_page_lem :
      (a : ℕ) (word : ℕ → ℕ) (f : Flash) (k : ℕ)
      → a % 128 ≡ 0
      → a < 65536
      → byte (program_page spm a word f) k
        ≡ (if k / 128 == (a / 128) then byte_of (word (k % 128 / 2 + 1)) k else byte f k)
  unfolding program_page
  program_page_lem a word f k aligned small =
      let erased = page_erase a f in
      let filled = fill_page spm 64 0 a word erased in
      ground (
        arith,
        spm.write_byte a k filled,
        fill_page-byte 64 0 a word erased k,
        fill_page-buffer 64 0 a word erased (k % 128 / 2) aligned small (omega arith),
        spm.erase_byte a k f,
        bit_and-low 8 (byte_of (word (k % 128 / 2 + 1)) k),
      )
