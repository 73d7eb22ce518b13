-- ===== src/Socktest.antt =====
-- tools/socktest.c: scenarios of threads that use one socket, and its command line.
pub mod Calls
pub mod Address
pub mod Scenarios
pub mod Main
pub mod Joins
pub mod Completes
pub mod Faults
mod Tests
