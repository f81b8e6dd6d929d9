-- ===== src/Update/Jump.antt =====
-- SphereWare/BootJump.c and Bootloader/BootloaderHID.c: the key by which the firmware asks for the
-- bootloader, and the one by which the bootloader starts the firmware. Each program has its own
-- variable, which the linker places; the memory outlives the reset by the watchdog, after which the
-- bootloader runs first.
use sphere_ware.Base.{ℕ, ◌+◌, ◌*◌, ◌/◌, ◌%◌, ◌<◌, ◌≡◌, ◌↔◌, ◌⊎◌, Bool, true, update, arith}
use sphere_ware.Update.Handler.{magic_boot_key, application_jump_check}

-- MAGIC_BOOT_KEY of BootJump.h
abbrev pub jump_key : ℕ
jump_key = 0xdc42

-- `Boot_Key`, a `uint32_t`, and `MagicBootKey`, a `uint16_t`, with the lowest byte first.
abbrev pub store32 : ℕ → ℕ → (ℕ → ℕ) → ℕ → ℕ
store32 at v ram =
    update
      (update (update (update ram at (v % 256)) (at + 1) (v / 256 % 256)) (at + 2)
        (v / 65536 % 256))
      (at + 3) (v / 16777216 % 256)

abbrev pub load16 : ℕ → (ℕ → ℕ) → ℕ
load16 at ram = ram at + 256 * ram (at + 1)

-- BootJump_Jump_To_Bootloader, up to the reset: the memory.
unfoldable pub jump_to_bootloader : ℕ → (ℕ → ℕ) → ℕ → ℕ
jump_to_bootloader boot_key ram = store32 boot_key jump_key ram

-- Whether Application_Jump_Check starts the application after the reset by the watchdog.
abbrev pub starts_application : ℕ → (ℕ → ℕ) → Bool
starts_application magic_key ram = (application_jump_check true (load16 magic_key ram)).0

-- After BootJump_Jump_To_Bootloader the application is started again, and not the bootloader's
-- `main`, exactly if the two variables begin at the same address, or if the memory held the key of
-- the bootloader before and the firmware's variable does not touch it.
jump_to_bootloader-application :
    (boot_key magic_key : ℕ) (ram : ℕ → ℕ)
    → ram magic_key < 256
    → ram (magic_key + 1) < 256
    → (starts_application magic_key (jump_to_bootloader boot_key ram) ≡ true) ↔ (
        (magic_key ≡ boot_key)
        ⊎ (((magic_key + 1 < boot_key) ⊎ (boot_key + 3 < magic_key))
            × (load16 magic_key ram ≡ magic_boot_key)))
unfolding application_jump_check jump_to_bootloader
jump_to_bootloader-application boot_key magic_key ram a b = ground arith
