-- ===== src/Brfpatch.antt =====
-- brfpatch/brfpatch.c: a script of HCI commands becomes firmware for TI chips.
pub mod Memory
pub mod Line
pub mod Main
pub mod Safety
pub mod Bounds
pub mod Numbers
pub mod Packets
pub mod Script
pub mod Reads
pub mod Widths
pub mod Arguments
pub mod Commands
pub mod Lines
pub mod Compiles
pub mod Output
mod Tests
