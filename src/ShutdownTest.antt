-- ===== src/ShutdownTest.antt =====
-- tools/sock_shutdown_test.c: a thread that waits in accept while its socket is shut down.
pub mod Sockets
pub mod Main
pub mod Outcome
mod Tests
