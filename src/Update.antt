-- ===== src/Update.antt =====
-- Bootloader/BootloaderHID.c and Bootloader/HostLoaderApp/hid_bootloader_cli.c: the firmware update,
-- from the image on the host to the flash memory of the device.
pub mod Flash
pub mod Handler
pub mod Page
pub mod Hex
pub mod Image
pub mod Loader
pub mod Options
pub mod Program
pub mod Sizes
pub mod Ends
pub mod Packets
pub mod Delivery
pub mod FromFile
pub mod Restart
pub mod Jump
