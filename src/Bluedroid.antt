-- ===== src/Bluedroid.antt =====
-- bluedroid/bluetooth.c: the library that powers the Bluetooth chip, starts and stops the daemons,
-- and converts device addresses.
pub mod Kernel
pub mod Rfkill
pub mod Enable
pub mod Query
pub mod Runs
pub mod Descriptors
pub mod Balance
pub mod Faults
pub mod Search
pub mod Switch
pub mod Power
pub mod Sessions
pub mod NoSocket
pub mod Address
pub mod Status
mod Tests
