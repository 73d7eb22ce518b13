-- ===== src/ShutdownBugs.antt =====
-- tools/sock_shutdown_bug_l2cap.c, tools/sock_shutdown_bug_rfcomm.c and
-- tools/sock_shutdown_bug_tcp.c: programs that take a socket to the states in which the kernel once
-- went wrong.
pub mod Calls
pub mod Programs
pub mod LeftOpen
mod Tests
