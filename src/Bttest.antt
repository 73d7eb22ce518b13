-- ===== src/Bttest.antt =====
-- tools/bttest.c: the command line in front of bluedroid/bluetooth.c.
pub mod Main
pub mod Outcome
mod Tests
