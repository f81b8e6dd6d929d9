-- ===== src/Examples/UpdateExamples.antt =====
-- Witnesses for the bootloader and its host program. The flash memory of the witnesses is a pair of
-- functions.
use sphere_ware.Base.{ℕ, ◌/◌, ◌%◌, ◌≡◌, true, false, ltb, ◌==◌, if◌then◌else◌, refl, arith, bit_and}
use sphere_ware.Update.Flash.{Spm, byte_of}
use sphere_ware.Update.Handler.{Boot, application_jump_check}
use sphere_ware.Update.Image.{Image}
use sphere_ware.Update.Loader.{send_blocks, reboot_packet}
use sphere_ware.Base.{[], ◌∷◌, some}
use sphere_ware.Update.Restart.{Request, Period, End, reboot_request, boot_main, boot_main_restart}
use sphere_ware.Examples.{driver}
use sphere_ware.Update.Delivery.{receive, receive_all, delivered, delivery}

pub record Memory : Type 0 where
  bytes : ℕ → ℕ
  page : ℕ → ℕ

abbrev pub spm : Spm
spm = record {
  Flash = Memory;
  byte = λ f. f.bytes;
  buffer = λ f. f.page;
  page_erase = λ a f. record f { bytes = λ k. if k / 128 == (a / 128) then 255 else f.bytes k };
  page_fill = λ a w f. record f { page = λ i. if i == (a % 128 / 2) then w else f.page i };
  page_write = λ a f. record f {
    bytes = λ k.
        if k / 128 == (a / 128)
        then bit_and (byte_of (f.page (k % 128 / 2)) k) (f.bytes k)
        else f.bytes k;
  };
  erase_byte = λ a k f. refl;
  fill_byte = λ a w k f. refl;
  fill_buffer = λ a w i f. refl;
  write_byte = λ a k f. refl;
}

abbrev pub memory : Memory
memory = record { bytes = λ k. 7; page = λ i. 0 }

abbrev pub boot : Boot spm
boot = record { run_bootloader = true; flash = memory }

-- An image of 130 bytes.
abbrev image : Image
image = record { firmware_image = λ k. k % 256; firmware_mask = λ k. ltb k 130 }

delivery_example :
    let sent = send_blocks image 32768 128 (λ _. true) 257 0 (λ _. 0) in
    let b' = receive_all spm sent.packets boot in
    (sent.completed ≡ true)
    × (spm.byte b'.flash 129 ≡ delivered image 129 7)
    × (b'.run_bootloader ≡ true)
    × (receive spm reboot_packet b' ≡ record b' { run_bootloader = false })
delivery_example = delivery spm image (λ k. omega arith) (λ _. true) (λ _. 0) boot 129 (λ a. refl)

-- A page is written in one period, and the reboot packet comes in the next.
abbrev page_request : Request
page_request = record { request_type = 0x21; request = 0x09; word = λ i. 128 }

boot_main_restart_example :
    let reboot : Period = record { lit = []; dark = reboot_request ∷ [] } in
    (last : End spm) × (boot_main spm true
        (record { lit = []; dark = page_request ∷ [] } ∷ reboot ∷ [])
        boot
        driver
      ≡ some last)
    × (application_jump_check true last.key ≡ (true, 0))
boot_main_restart_example =
    boot_main_restart spm true false (record { lit = []; dark = page_request ∷ [] } ∷ []) [] [] []
      [] boot driver
