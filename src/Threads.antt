-- ===== src/Threads.antt =====
-- Programs of POSIX threads: a main thread that starts other threads and waits for them, and the
-- interleavings of their calls.
pub mod Program
pub mod System
pub mod Joins
pub mod Completes
