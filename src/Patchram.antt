-- ===== src/Patchram.antt =====
-- brcm_patchram_plus/brcm_patchram_plus.c: the program that configures a Broadcom chip over a UART
-- and downloads its firmware. `ANDROID` is defined and `__CYGWIN__` is not.
pub mod Globals
pub mod Options
pub mod Device
pub mod Event
pub mod Procedures
pub mod Readable
pub mod Ready
pub mod Retries
pub mod Faults
pub mod TwoBytes
pub mod WellFormed
pub mod Packets
pub mod Always
pub mod Addresses
pub mod Parameters
pub mod Download
pub mod Main
pub mod Script
pub mod Configure
pub mod Failures
pub mod Flags
pub mod Outcome
pub mod Settings
mod Tests
