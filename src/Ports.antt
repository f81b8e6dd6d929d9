-- ===== src/Ports.antt =====
-- SphereWare/MUX.c, R2R.c, ADC.c and ButtonsAndDials.c: the peripherals, at the level of their
-- port registers.
pub mod Pins
pub mod Mux
pub mod Ladder
pub mod Converter
pub mod Fields
pub mod Selected
pub mod Buttons
pub mod Presses
pub mod Encoder
pub mod Range
pub mod Live
pub mod Setup
pub mod Outputs
