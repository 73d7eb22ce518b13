-- ===== src/ShutdownTest/Main.antt =====
-- `do_accept_shutdown` and `main` of tools/sock_shutdown_test.c.
use platform_system_bluetoot.Prelude.{
  ℕ, true, false, List, [], ◌∷◌, Option, none, some, ◌==◌, if◌then◌else◌, not, ℤ, pos, minus_one,
  is_neg, Bytes, codes,
}
use platform_system_bluetoot.Libc.Chars.{equal}
use platform_system_bluetoot.ShutdownTest.Sockets.{
  SockType, unix, rfcomm, sco, l2cap, tcp, creates_accept, sleeps, shuts_down, joins, closes,
  Kernel, M, ◌>>=◌, ◌>>◌, call, open_socket, bind_socket, listen_socket,
}

abbrev pub error : M ℤ
error h = (minus_one, h)

-- `if (ret < 0) goto error;`, and what follows.
abbrev pub unless_failed : ℤ → M ℤ → M ℤ
unless_failed ret m h = elim (is_neg ret) [ true ↦ error h | false ↦ m h ]

-- `do_accept_shutdown` from the thread on.
unfoldable pub shut_down_accept : Kernel → ℤ → SockType → M ℤ
shut_down_accept kernel fd type = do
  call kernel (creates_accept fd type)
  call kernel (sleeps 2)
  call kernel (shuts_down fd)
  call kernel joins
  call kernel (closes fd)
  (λ h. (pos 0, h))

unfoldable pub do_accept_shutdown : Kernel → SockType → M ℤ
do_accept_shutdown kernel type = do
  fd ← open_socket kernel type
  unless_failed fd (
      bind_socket kernel fd type >>= λ bound. unless_failed bound (
        listen_socket kernel fd >>= λ listens.
        unless_failed listens (shut_down_accept kernel fd type)))

-- `type_table`
unfoldable pub type_table : List (Bytes × SockType)
type_table =
    (codes "unix", unix)
    ∷ (codes "rfcomm", rfcomm)
    ∷ (codes "sco", sco)
    ∷ (codes "l2cap", l2cap)
    ∷ (codes "tcp", tcp)
    ∷ []

unfoldable pub find_type : List (Bytes × SockType) → Bytes → Option SockType
find_type [] name = none
find_type ((entry, type) ∷ table) name =
    if equal name entry then some type else find_type table name

-- `main`; `action_table` has one entry.
unfoldable pub main : Kernel → ℕ → Bytes → Bytes → M ℤ
main kernel argc type_name action h =
    if not (argc == 3) then error h else elim (find_type type_table type_name) [
      | none ↦ error h
      | some type ↦
          if equal action (codes "accept_shutdown")
          then do_accept_shutdown kernel type h
          else error h
    ]
