-- ===== src/Firmware.antt =====
-- SphereWare/SphereWare.c: the main loop and the timer interrupt together, as steps that follow
-- each other in any order.
pub mod Board
pub mod Start
pub mod Report
pub mod Playing
pub mod Calibrated
pub mod Controls
pub mod Serving
pub mod Rounds
pub mod Sound
pub mod Progress
pub mod Passes
pub mod Race
pub mod Single
