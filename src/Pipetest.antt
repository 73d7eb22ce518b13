-- ===== src/Pipetest.antt =====
-- tools/pipetest.c: scenarios of threads that wait on a pipe or a socket pair that is closed.
pub mod Calls
pub mod Scenarios
pub mod Main
pub mod Joins
pub mod Interleaves
mod Tests
