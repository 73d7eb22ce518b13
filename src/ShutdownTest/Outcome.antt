-- ===== src/ShutdownTest/Outcome.antt =====
-- What tools/sock_shutdown_test.c leaves open.
use platform_system_bluetoot.Prelude.{
  ℕ, ◌+◌, ◌≡◌, ◌⊎◌, inr, refl, Bool, true, false, List, [], ◌∷◌, Option, none, some, ◌==◌,
  if◌then◌else◌, not, ℤ, pos, minus_one, is_neg, Bytes, codes, arith, length, ◌≤◌,
}
use platform_system_bluetoot.Libc.Chars.{equal}
use platform_system_bluetoot.ShutdownTest.Sockets.{
  SockType, unix, rfcomm, sco, l2cap, tcp, socket, creates_accept, shuts_down, joins, closes,
  History, Kernel, socket_call, open_socket, bind_socket, listen_socket,
}
use platform_system_bluetoot.ShutdownTest.Main.{
  shut_down_accept, do_accept_shutdown, type_table, find_type, main,
}

-- The descriptors of the sockets opened, of those shut down and closed, and of those on which a
-- thread was started, the latest first, and the number of threads waited for.
abbrev pub opened : History → List ℤ
opened [] = []
opened ((socket _ _ _, fd) ∷ h) = if is_neg fd then opened h else fd ∷ opened h
opened (_ ∷ h) = opened h

abbrev pub shut_down : History → List ℤ
shut_down [] = []
shut_down ((shuts_down fd, _) ∷ h) = fd ∷ shut_down h
shut_down (_ ∷ h) = shut_down h

abbrev pub closed : History → List ℤ
closed [] = []
closed ((closes fd, _) ∷ h) = fd ∷ closed h
closed (_ ∷ h) = closed h

abbrev pub started : History → List ℤ
started [] = []
started ((creates_accept fd _, _) ∷ h) = fd ∷ started h
started (_ ∷ h) = started h

abbrev pub awaited : History → ℕ
awaited [] = 0
awaited ((joins, _) ∷ h) = 1 + awaited h
awaited (_ ∷ h) = awaited h

-- Nothing was called, or the last call failed.
abbrev pub LastFailed : History → Type 0
LastFailed [] = Unit
LastFailed ((_, ret) ∷ h) = is_neg ret ≡ true

-- One socket was opened; one thread was started on it and waited for, and this socket, and no other,
-- was shut down and closed.
abbrev pub Complete : History → Type 0
Complete h =
    (length (opened h) ≡ 1)
    × (started h ≡ opened h)
    × (shut_down h ≡ opened h)
    × (awaited h ≡ 1)
    × (closed h ≡ opened h)

-- Nothing was started, shut down, waited for or closed.
abbrev pub Untouched : History → Type 0
Untouched h = (started h ≡ []) × (shut_down h ≡ []) × (awaited h ≡ 0) × (closed h ≡ [])

-- With 0, the run was complete. With -1, nothing was called or the last call failed, there was no
-- thread, nothing was closed, and one socket at most was opened and is left open.
abbrev pub Outcome : ℤ × History → Type 0
Outcome (ret, h) =
    ((ret ≡ pos 0) × Complete h)
    ⊎ ((ret ≡ minus_one) × Untouched h × LastFailed h × (length (opened h) ≤ 1))

do_accept_shutdown-Outcome :
    (kernel : Kernel) (type : SockType) → Outcome (do_accept_shutdown kernel type [])
unfolding do_accept_shutdown open_socket bind_socket listen_socket shut_down_accept socket_call
do_accept_shutdown-Outcome kernel unix = ground arith
do_accept_shutdown-Outcome kernel rfcomm = ground arith
do_accept_shutdown-Outcome kernel sco = ground arith
do_accept_shutdown-Outcome kernel l2cap = ground arith
do_accept_shutdown-Outcome kernel tcp = ground arith

nothing-Outcome : Outcome (minus_one, [])
nothing-Outcome = inr (refl, (refl, refl, refl, refl), tt, omega arith)

-- For every system whose calls return and every command line, `main` returns 0 or -1. With 0, it has
-- opened one socket, started one thread on it, shut down this socket, waited for the thread and
-- closed this socket. With -1, nothing was called or the last call failed, no thread was started,
-- and a socket that was opened is left open.
pub main-Outcome :
    (kernel : Kernel) (argc : ℕ) (type_name action : Bytes)
    → Outcome (main kernel argc type_name action [])
unfolding main
main-Outcome kernel argc type_name action =
    go (argc == 3) (find_type type_table type_name) (equal action (codes "accept_shutdown"))
  where
    go :
        (three : Bool) (found : Option SockType) (known : Bool)
        → Outcome (
            if not three then (minus_one, []) else elim found [
              | none ↦ (minus_one, [])
              | some type ↦ if known then do_accept_shutdown kernel type [] else (minus_one, [])
            ])
    go false found known = nothing-Outcome
    go true none known = nothing-Outcome
    go true (some type) false = nothing-Outcome
    go true (some type) true = do_accept_shutdown-Outcome kernel type
