-- ===== src/ShutdownBugs/Tests.antt =====
-- The flags that the programs tools/sock_shutdown_bug_….c set.
use platform_system_bluetoot.Prelude.{◌≡◌, refl, pos, negsuc}
use platform_system_bluetoot.ShutdownBugs.Calls.{or_nonblock}

or_nonblock-blocking : or_nonblock (pos 2) ≡ pos 2050
unfolding or_nonblock
or_nonblock-blocking = refl

or_nonblock-nonblocking : or_nonblock (pos 2050) ≡ pos 2050
unfolding or_nonblock
or_nonblock-nonblocking = refl

or_nonblock-failed : or_nonblock (negsuc 0) ≡ negsuc 0
unfolding or_nonblock
or_nonblock-failed = refl
