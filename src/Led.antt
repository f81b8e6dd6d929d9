-- ===== src/Led.antt =====
-- SphereWare/LED.c: the driver of the RGB LED, the colours and the settings.
pub mod Driver
pub mod Wires
pub mod Floats
pub mod Settings
pub mod Modes
pub mod Colour
pub mod Pressure
pub mod Late
pub mod Torn
