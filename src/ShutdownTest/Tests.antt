-- ===== src/ShutdownTest/Tests.antt =====
-- A system at which the theorem about tools/sock_shutdown_test.c is applied, and where binding fails.
use platform_system_bluetoot.Prelude.{◌≡◌, refl, [], ◌∷◌, pos, minus_one, codes}
use platform_system_bluetoot.Libc.Chars.{equal}
use platform_system_bluetoot.ShutdownTest.Sockets.{
  tcp, socket, bind_to, Kernel, open_socket, bind_socket, listen_socket, socket_call,
}
use platform_system_bluetoot.ShutdownTest.Main.{
  shut_down_accept, do_accept_shutdown, type_table, find_type, main,
}
use platform_system_bluetoot.ShutdownTest.Outcome.{Outcome, main-Outcome}

abbrev no_bind : Kernel
no_bind h (socket _ _ _) = pos 3
no_bind h (bind_to _ _) = minus_one
no_bind h _ = pos 0

-- The socket 3 is left open.
no_bind-left_open :
    main no_bind 3 (codes "tcp") (codes "accept_shutdown") []
    ≡ (minus_one, (bind_to (pos 3) tcp, minus_one) ∷ (socket 2 1 0, pos 3) ∷ [])
unfolding main find_type type_table equal do_accept_shutdown open_socket bind_socket listen_socket
    socket_call shut_down_accept
no_bind-left_open = refl

main-Outcome_example : Outcome (main no_bind 3 (codes "tcp") (codes "accept_shutdown") [])
main-Outcome_example = main-Outcome no_bind 3 (codes "tcp") (codes "accept_shutdown")
