-- ===== src/Socktest/Tests.antt =====
-- A schedule of tools/socktest.c at which its theorems are applied.
use platform_system_bluetoot.Prelude.{
  ℕ, ◌≡◌, refl, false, Option, none, List, [], ◌∷◌, ℤ, pos, minus_one, codes, arith,
}
use platform_system_bluetoot.Libc.Chars.{equal}
use platform_system_bluetoot.Threads.Program.{returns}
use platform_system_bluetoot.Threads.System.{
  System, start, main_calls, main_creates, main_joins, thread_calls, Reach, here, next,
}
use platform_system_bluetoot.Threads.Completes.{AllReturned}
use platform_system_bluetoot.Socktest.Calls.{Call, connects, peer, Thread, tcp, thread_accept_write}
use platform_system_bluetoot.Socktest.Scenarios.{do_accept_and_close, do_connected_read1_shutdown1}
use platform_system_bluetoot.Socktest.Main.{action_table, type_table, find_entry, main}
use platform_system_bluetoot.Socktest.Completes.{main-AllReturned}
use platform_system_bluetoot.Bluedroid.Address.{ba2str}
use platform_system_bluetoot.Socktest.Address.{get_bdaddr}
use platform_system_bluetoot.Socktest.Address.Print.{get_bdaddr-ba2str}
use platform_system_bluetoot.Socktest.Faults.{do_connected_read1_shutdown1-LeavesThread}

abbrev program : Thread
program = main 5 (pos 1000) 3 (codes "tcp") (codes "accept_and_close")

not_endless : equal (codes "accept_and_close") (codes "accept_accept_accept") ≡ false
unfolding equal
not_endless = refl

not_connected : equal (codes "accept_and_close") (codes "connected_read1_shutdown1") ≡ false
unfolding equal
not_connected = refl

program-scenario : program ≡ do_accept_and_close tcp
unfolding main find_entry type_table action_table equal
program-scenario = refl

-- The socket is 3, the thread closes it before the main thread accepts, which then fails.
record Run : Type 0 where
  last : System Call
  reach : Reach (start program) last
  done : last.main ≡ returns (pos 0)

closed_first : Run
unfolding main find_entry type_table action_table equal do_accept_and_close
closed_first = record {
  last = _;
  reach =
      next
        (next
          (next
            (next
              (next
                (next
                  (next (next here (main_calls _ _ (pos 3) refl refl))
                    (main_calls _ _ (pos 0) refl refl))
                  (main_calls _ _ (pos 0) refl refl))
                (main_creates _ _ refl refl))
              (thread_calls 0 _ _ (pos 0) refl refl))
            (thread_calls 0 _ _ (pos 0) refl refl))
          (main_calls _ _ minus_one refl refl))
        (main_joins 0 _ (pos 0) refl refl refl);
  done = refl;
}

main-AllReturned_example : AllReturned closed_first.last.threads
main-AllReturned_example =
    main-AllReturned 5 (pos 1000) 3 (codes "tcp") (codes "accept_and_close") closed_first.last
      (pos 0) not_endless not_connected closed_first.reach closed_first.done

do_connected_read1_shutdown1-LeavesThread_example :
    (s : System Call) × Reach (start (do_connected_read1_shutdown1 9 (pos 1000) tcp)) s
    × (s.main ≡ returns minus_one)
    × (s.threads ≡ thread_accept_write (pos 3) tcp 0 ∷ [])
    × ((log : List (Option ℕ × Call × ℤ)) × (s.log
          ≡ (none, connects (pos 4) tcp (peer tcp), minus_one) ∷ log))
do_connected_read1_shutdown1-LeavesThread_example =
    do_connected_read1_shutdown1-LeavesThread 9 (pos 1000) tcp

get_bdaddr-ba2str_example :
    get_bdaddr (ba2str (0x55 ∷ 0x44 ∷ 0x33 ∷ 0x22 ∷ 0x11 ∷ 0 ∷ []))
    ≡ (pos 0, 0x55 ∷ 0x44 ∷ 0x33 ∷ 0x22 ∷ 0x11 ∷ 0 ∷ [])
get_bdaddr-ba2str_example =
    get_bdaddr-ba2str 0x55 0x44 0x33 0x22 0x11 0 (omega arith) (omega arith) (omega arith)
      (omega arith) (omega arith) (omega arith)
