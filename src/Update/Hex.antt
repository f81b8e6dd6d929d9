-- ===== src/Update/Hex.antt =====
-- Bootloader/HostLoaderApp/hid_bootloader_cli.c: the Intel hex file.
pub mod Line
pub mod Print
pub mod Records
pub mod Blocks
pub mod Rounds
pub mod File
pub mod Items
pub mod Reading
pub mod Contents
