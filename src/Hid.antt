-- ===== src/Hid.antt =====
-- SphereWare/GenericHID.c: the buffer of the HID IN report and its transfer to the host.
pub mod Buffer
pub mod Pads
pub mod MidiQueue
pub mod Transfer
pub mod Halves
pub mod InReports
