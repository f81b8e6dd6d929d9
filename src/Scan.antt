-- ===== src/Scan.antt =====
-- SphereWare/SphereWare.c: `BubbleSort`, which orders the pads by the value that the R-2R ladder
-- has to take for them, so that the main loop moves the ladder in small steps.
pub mod Sort
