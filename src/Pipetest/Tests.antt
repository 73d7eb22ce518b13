-- ===== src/Pipetest/Tests.antt =====
-- A system at which the theorem about tools/pipetest.c is applied.
use platform_system_bluetoot.Prelude.{
  ℕ, zero, suc, ◌≡◌, refl, none, some, List, [], ◌∷◌, pos, arith, codes, false,
}
use platform_system_bluetoot.Threads.Program.{returns}
use platform_system_bluetoot.Threads.System.{
  System, start, main_calls, main_creates, main_joins, thread_calls, Reach, here, next,
}
use platform_system_bluetoot.Threads.Completes.{AllReturned}
use platform_system_bluetoot.Libc.Chars.{equal}
use platform_system_bluetoot.Pipetest.Calls.{
  Kernel, Call, opens_pipe, creates, sleeps, closes, joins, thread_poll, thread_calls as body_calls,
  with_pipe,
}
use platform_system_bluetoot.Pipetest.Scenarios.{do_poll_poll_close}
use platform_system_bluetoot.Pipetest.Interleaves.{program, thread, main-ThreadsReturned}
use platform_system_bluetoot.Pipetest.Main.{main, look_up, function_table}
use platform_system_bluetoot.Pipetest.Joins.{JoinsAll, main-JoinsAll}

-- One call succeeds.
abbrev one_pipe : Kernel
one_pipe zero = some (3, 4)
one_pipe (suc _) = none

another_name : equal (codes "poll_poll_close") (codes "close_close_close") ≡ false
unfolding equal
another_name = refl

main-JoinsAll_example : JoinsAll (main 2 one_pipe 2 (codes "poll_poll_close"))
main-JoinsAll_example =
    main-JoinsAll 2 1 one_pipe 2 (codes "poll_poll_close") refl (omega arith) another_name

abbrev calls_made : List Call
calls_made =
    opens_pipe 3 4
    ∷ creates 0 thread_poll 0
    ∷ creates 1 thread_poll 0
    ∷ sleeps 1
    ∷ closes 4
    ∷ joins 0
    ∷ joins 1
    ∷ []

abbrev no_delay : ℕ → ℕ
no_delay t = 7

one_pipe-calls_made : main 2 one_pipe 2 (codes "poll_poll_close") ≡ some (pos 0, calls_made)
unfolding main look_up function_table do_poll_poll_close with_pipe equal
one_pipe-calls_made = refl

-- The descriptor 0 becomes ready for the first thread at once, and for the second one when the main
-- thread waits for it.
record Ended : Type 0 where
  last : System Call
  reach : Reach (start (program no_delay (pos 0) calls_made)) last
  done : last.main ≡ returns (pos 0)

ended : Ended
unfolding program thread body_calls
ended = record {
  last = _;
  reach =
      next
        (next
          (next
            (next
              (next
                (next
                  (next
                    (next (next here (main_calls _ _ (pos 0) refl refl))
                      (main_creates _ _ refl refl))
                    (thread_calls 0 _ _ (pos 1) refl refl))
                  (main_creates _ _ refl refl))
                (main_calls _ _ (pos 0) refl refl))
              (main_calls _ _ (pos 0) refl refl))
            (main_joins 0 _ (pos 0) refl refl refl))
          (thread_calls 1 _ _ (pos 1) refl refl))
        (main_joins 1 _ (pos 0) refl refl refl);
  done = refl;
}

main-ThreadsReturned_example : AllReturned ended.last.threads
main-ThreadsReturned_example =
    main-ThreadsReturned 2 1 one_pipe 2 (codes "poll_poll_close") no_delay (pos 0) (pos 0)
      calls_made ended.last refl (omega arith) another_name one_pipe-calls_made ended.reach
      ended.done
