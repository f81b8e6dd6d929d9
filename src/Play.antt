-- ===== src/Play.antt =====
-- SphereWare/SphereWare.c: the pads, from the readings of the converter to the report.
pub mod State
pub mod Press
pub mod Peak
pub mod Levels
pub mod Standby
pub mod Balance
pub mod Calibrate
pub mod Visits
pub mod Machine
pub mod Position
