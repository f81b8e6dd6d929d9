-- ===== src/Device.antt =====
-- SphereWare/MIDI.c and SphereWare/GenericHID.c: the messages that the device receives over USB
-- and what they make it do and send.
pub mod State
pub mod Midi
pub mod Report
pub mod Clock
pub mod Overrun
