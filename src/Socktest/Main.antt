-- ===== src/Socktest/Main.antt =====
-- `main` of tools/socktest.c and its tables.
use platform_system_bluetoot.Prelude.{
  ℕ, ◌==◌, List, [], ◌∷◌, Option, none, some, if◌then◌else◌, not, ℤ, Bytes, codes, minus_one,
}
use platform_system_bluetoot.Libc.Chars.{equal}
use platform_system_bluetoot.Threads.Program.{returns}
use platform_system_bluetoot.Socktest.Calls.{SockType, unix, rfcomm, sco, l2cap, tcp, Thread}
use platform_system_bluetoot.Socktest.Scenarios.{
  do_accept_accept_accept, do_accept_and_close, do_accept_shutdown, do_connect_shutdown,
  do_connectnb_shutdown, do_connectnb_close, do_accept_close_write, do_accept_connect_connect,
  do_poll_poll_poll_shutdown, do_poll_poll_poll_close, do_read_read_read_shutdown,
  do_read_read_read_close, do_connected_read1_shutdown1,
}

abbrev pub Action : Type 0
Action = SockType → Thread

-- `action_table`. The two scenarios with loops that may not end are given a number of rounds, and
-- `address` is that of a local variable.
unfoldable pub action_table : ℕ → ℤ → List (Bytes × Action)
action_table rounds address =
    (codes "accept_accept_accept", do_accept_accept_accept rounds)
    ∷ (codes "accept_and_close", do_accept_and_close)
    ∷ (codes "accept_shutdown", do_accept_shutdown)
    ∷ (codes "connect_shutdown", do_connect_shutdown)
    ∷ (codes "connectnb_shutdown", do_connectnb_shutdown)
    ∷ (codes "connectnb_close", do_connectnb_close)
    ∷ (codes "accept_close_write", do_accept_close_write)
    ∷ (codes "accept_connect_connect", do_accept_connect_connect)
    ∷ (codes "poll_poll_poll_shutdown", do_poll_poll_poll_shutdown)
    ∷ (codes "poll_poll_poll_close", do_poll_poll_poll_close)
    ∷ (codes "read_read_read_shutdown", do_read_read_read_shutdown)
    ∷ (codes "read_read_read_close", do_read_read_read_close)
    ∷ (codes "connected_read1_shutdown1", do_connected_read1_shutdown1 rounds address)
    ∷ []

-- `type_table`
unfoldable pub type_table : List (Bytes × SockType)
type_table =
    (codes "unix", unix)
    ∷ (codes "rfcomm", rfcomm)
    ∷ (codes "sco", sco)
    ∷ (codes "l2cap", l2cap)
    ∷ (codes "tcp", tcp)
    ∷ []

-- The loops of `main` over its tables.
unfoldable pub find_entry : {A : Type 0} → List (Bytes × A) → Bytes → Option A
find_entry [] name = none
find_entry ((entry, a) ∷ table) name = if equal name entry then some a else find_entry table name

unfoldable pub main : ℕ → ℤ → ℕ → Bytes → Bytes → Thread
main rounds address argc type_name action_name =
    if not (argc == 3) then returns minus_one else elim (find_entry type_table type_name) [
      | none ↦ returns minus_one
      | some type ↦ elim (find_entry (action_table rounds address) action_name) [
        | none ↦ returns minus_one
        | some action ↦ action type
      ]
    ]
