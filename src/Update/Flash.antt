-- ===== src/Update/Flash.antt =====
-- The self-programming of the microcontroller (avr/boot.h), which the bootloader calls. It is a
-- parameter: its state has the bytes of the flash memory and the words of the temporary page
-- buffer, and the laws are those of the data sheet for a page of 128 bytes. Bytes of words
-- written to a page that is not erased are combined by `&` with what is there.
use sphere_ware.Base.{ℕ, ◌/◌, ◌%◌, ◌≡◌, ◌==◌, if◌then◌else◌, bit_and}

-- SPM_PAGESIZE of the ATmega32U4.
abbrev pub page_size : ℕ
page_size = 128

-- The low or the high byte of a word, for an even or odd address.
abbrev pub byte_of : ℕ → ℕ → ℕ
byte_of word k = if k % 2 == 0 then word % 256 else word / 256 % 256

pub record Spm : Type 1 where
  pub Flash : Type 0
  pub byte : Flash → ℕ → ℕ
  pub buffer : Flash → ℕ → ℕ
  pub page_erase : ℕ → Flash → Flash
  pub page_fill : ℕ → ℕ → Flash → Flash
  pub page_write : ℕ → Flash → Flash
  pub erase_byte :
      (a k : ℕ) (f : Flash)
      → byte (page_erase a f) k ≡ (if k / 128 == (a / 128) then 255 else byte f k)
  pub fill_byte : (a w k : ℕ) (f : Flash) → byte (page_fill a w f) k ≡ byte f k
  pub fill_buffer :
      (a w i : ℕ) (f : Flash)
      → buffer (page_fill a w f) i ≡ (if i == (a % 128 / 2) then w else buffer f i)
  pub write_byte :
      (a k : ℕ) (f : Flash)
      → byte (page_write a f) k ≡ (
          if k / 128 == (a / 128)
          then bit_and (byte_of (buffer f (k % 128 / 2)) k) (byte f k)
          else byte f k)
