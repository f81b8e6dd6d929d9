-- ===== src/Update/Handler.antt =====
-- Bootloader/BootloaderHID.c: the control request that programs a page or starts the application,
-- for a device with at most 64 kB of flash (FLASHEND up to 0xFFFF).
use sphere_ware.Base.{
  ℕ, zero, suc, ◌+◌, Bool, true, false, not, ◌&&◌, ◌==◌, if◌then◌else◌, u16, bit_and, bit_or, ◌<<<◌,
}
use sphere_ware.Update.Flash.{Spm}

-- COMMAND_STARTAPPLICATION and MAGIC_BOOT_KEY
abbrev pub command_start_application : ℕ
command_start_application = 0xffff

abbrev pub magic_boot_key : ℕ
magic_boot_key = 0xdc42

-- Application_Jump_Check: whether the application is started, and `MagicBootKey` after it. `wdrf`
-- is the watchdog reset flag of MCUSR.
unfoldable pub application_jump_check : Bool → ℕ → Bool × ℕ
application_jump_check wdrf key =
    if wdrf && (key == magic_boot_key) then (true, 0) else (false, key)

module _ (spm : Spm) where
  open spm use {Flash, page_erase, page_fill, page_write}

  -- `RunBootloader` and the flash memory.
  pub record Boot : Type 0 where
    pub run_bootloader : Bool
    pub flash : Flash

  -- The loop over `PageWord`, with the words that are left. `word i` is the value of the call
  -- number `i` of `Endpoint_Read_16_LE` in this request, counted from 0.
  unfoldable pub fill_page : ℕ → ℕ → ℕ → (ℕ → ℕ) → Flash → Flash
  fill_page zero page_word page_address word f = f
  fill_page (suc left) page_word page_address word f =
      fill_page left (page_word + 1) page_address word
        (page_fill (u16 (page_address + (page_word <<< 1))) (word (page_word + 1)) f)

  -- The branch that programs a page.
  unfoldable pub program_page : ℕ → (ℕ → ℕ) → Flash → Flash
  program_page page_address word f =
      page_write page_address (fill_page 64 0 page_address word (page_erase page_address f))

  -- EVENT_USB_Device_ControlRequest: the masks are CONTROL_REQTYPE_TYPE and
  -- CONTROL_REQTYPE_RECIPIENT, the value REQTYPE_CLASS and REQREC_INTERFACE, and the request is
  -- HID_REQ_SetReport.
  unfoldable pub control_request : ℕ → ℕ → (ℕ → ℕ) → Boot → Boot
  control_request request_type request word b =
      if not (bit_and request_type (bit_or 0x60 0x1f) == bit_or 0x20 0x01)
      then b
      else if request == 0x09
      then (let page_address = word 0 in
          if page_address == command_start_application
          then record b { run_bootloader = false }
          else record b { flash = program_page page_address word b.flash })
      else b
