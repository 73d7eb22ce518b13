-- ===== src/Socktest/Completes.antt =====
-- What tools/socktest.c leaves behind when its main thread has returned, under every schedule.
use platform_system_bluetoot.Prelude.{
  ℕ, ◌≡◌, refl, ◌⊎◌, inl, inr, Bool, true, false, List, [], ◌∷◌, Option, none, some, ◌==◌,
  if◌then◌else◌, not, ℤ, minus_one, Bytes, codes,
}
use platform_system_bluetoot.Libc.Chars.{equal}
use platform_system_bluetoot.Threads.Program.{returns}
use platform_system_bluetoot.Threads.System.{System, start, Reach}
use platform_system_bluetoot.Threads.Joins.{Reach-Inv}
use platform_system_bluetoot.Threads.Completes.{AllReturned, Inv-AllReturned}
use platform_system_bluetoot.Socktest.Calls.{SockType, Call}
use platform_system_bluetoot.Socktest.Main.{Action, action_table, type_table, find_entry, main}
use platform_system_bluetoot.Socktest.Joins.{
  Joins, do_accept_and_close-Joins, do_accept_shutdown-Joins, do_connect_shutdown-Joins,
  do_connectnb_shutdown-Joins, do_connectnb_close-Joins, do_accept_close_write-Joins,
  do_accept_connect_connect-Joins, do_poll_poll_poll_shutdown-Joins, do_poll_poll_poll_close-Joins,
  do_read_read_read_shutdown-Joins, do_read_read_read_close-Joins,
}

-- An entry whose scenario waits for its threads, or one with another name than `name`.
abbrev Fine : Bytes → List (Bytes × Action) → Type 0
Fine name [] = Unit
Fine name ((entry, action) ∷ table) =
    (((type : SockType) → Joins (action type)) ⊎ (equal name entry ≡ false)) × Fine name table

find_entry-Joins :
    (name : Bytes) (table : List (Bytes × Action)) (type : SockType)
    → Fine name table
    → Joins (elim (find_entry table name) [ none ↦ returns minus_one | some action ↦ action type ])
unfolding find_entry
find_entry-Joins name [] type fine = refl
find_entry-Joins name ((entry, action) ∷ table) type (this, fine) =
    go (equal name entry) refl (find_entry-Joins name table type fine)
  where
    go :
        (b : Bool)
        → equal name entry ≡ b
        → Joins
            (elim (find_entry table name) [ none ↦ returns minus_one | some other ↦ other type ])
        → Joins (elim (if b then some action else find_entry table name) [
          | none ↦ returns minus_one
          | some found ↦ found type
        ])
    go true e later = elim this [ inl h ↦ h type | inr other ↦ cc ]
    go false e later = later

action_table-Fine :
    (rounds : ℕ) (address : ℤ) (name : Bytes)
    → equal name (codes "accept_accept_accept") ≡ false
    → equal name (codes "connected_read1_shutdown1") ≡ false
    → Fine name (action_table rounds address)
unfolding action_table
action_table-Fine rounds address name not_first not_last = (
  inr not_first,
  (
    inl do_accept_and_close-Joins,
    (
      inl do_accept_shutdown-Joins,
      (
        inl do_connect_shutdown-Joins,
        (
          inl do_connectnb_shutdown-Joins,
          (
            inl do_connectnb_close-Joins,
            (
              inl do_accept_close_write-Joins,
              (
                inl do_accept_connect_connect-Joins,
                (
                  inl do_poll_poll_poll_shutdown-Joins,
                  (
                    inl do_poll_poll_poll_close-Joins,
                    (
                      inl do_read_read_read_shutdown-Joins,
                      (inl do_read_read_read_close-Joins, (inr not_last, tt)),
                    ),
                  ),
                ),
              ),
            ),
          ),
        ),
      ),
    ),
  ),
)

module _ (rounds : ℕ) (address : ℤ) (argc : ℕ) (type_name action_name : Bytes)
    (not_first : equal action_name (codes "accept_accept_accept") ≡ false)
    (not_last : equal action_name (codes "connected_read1_shutdown1") ≡ false) where
  main-Joins : Joins (main rounds address argc type_name action_name)
  unfolding main
  main-Joins = go (argc == 3) (find_entry type_table type_name)
    where
      go :
          (three : Bool) (found : Option SockType)
          → Joins (
              if not three then returns minus_one else elim found [
                | none ↦ returns minus_one
                | some type ↦ elim (find_entry (action_table rounds address) action_name) [
                  | none ↦ returns minus_one
                  | some action ↦ action type
                ]
              ])
      go false found = refl
      go true none = refl
      go true (some type) =
          find_entry-Joins action_name (action_table rounds address) type
            (action_table-Fine rounds address action_name not_first not_last)

-- For every command line that names no scenario or one other than `accept_accept_accept` and
-- `connected_read1_shutdown1`, under every schedule and whatever the system calls return: whenever
-- the main thread has returned, every thread that it started has returned too, and none is left with
-- a pointer to the arguments on its stack.
pub main-AllReturned :
    (rounds : ℕ) (address : ℤ) (argc : ℕ) (type_name action_name : Bytes) (s : System Call)
    (ret : ℤ)
    → equal action_name (codes "accept_accept_accept") ≡ false
    → equal action_name (codes "connected_read1_shutdown1") ≡ false
    → Reach (start (main rounds address argc type_name action_name)) s
    → s.main ≡ returns ret
    → AllReturned s.threads
main-AllReturned rounds address argc type_name action_name s ret not_first not_last r e =
    let joined = main-Joins rounds address argc type_name action_name not_first not_last in
    Inv-AllReturned s (Reach-Inv joined r) ret e
