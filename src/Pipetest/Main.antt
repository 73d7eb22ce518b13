-- ===== src/Pipetest/Main.antt =====
-- `main` of tools/pipetest.c and its table.
use platform_system_bluetoot.Prelude.{
  ℕ, ◌==◌, List, [], ◌∷◌, Option, some, if◌then◌else◌, not, Bytes, codes, minus_one,
}
use platform_system_bluetoot.Libc.Chars.{equal}
use platform_system_bluetoot.Pipetest.Calls.{Kernel, Run}
use platform_system_bluetoot.Pipetest.Scenarios.{
  do_poll_poll_close, do_socketpair_poll1_shutdown2, do_socketpair_poll1_shutdown1,
  do_socketpair_poll1_close1, do_socketpair_read1_shutdown1, pipes_from, do_pollin_pollin_write,
  do_pollin_pollin_pollin_write_pollin_pollin_pollin, do_poll_poll_shutdown,
  do_close_poll_poll_poll, do_close_close_close, pipe_close_w_close_r_repeat,
}

abbrev pub Scenario : Type 0
Scenario = Kernel → Option Run

-- `function_table`. The endless scenario is given a number of rounds.
unfoldable pub function_table : ℕ → List (Bytes × Scenario)
function_table rounds =
    (codes "socketpair_poll1_shutdown2", λ k. some (do_socketpair_poll1_shutdown2 k))
    ∷ (codes "socketpair_poll1_shutdown1", λ k. some (do_socketpair_poll1_shutdown1 k))
    ∷ (codes "socketpair_poll1_close1", λ k. some (do_socketpair_poll1_close1 k))
    ∷ (codes "socketpair_read1_shutdown1", λ k. some (do_socketpair_read1_shutdown1 k))
    ∷ (codes "pipe_pipe_pipe", λ k. pipes_from k rounds 0)
    ∷ (codes "poll_poll_close", λ k. some (do_poll_poll_close k))
    ∷ (codes "pollin_pollin_write", λ k. some (do_pollin_pollin_write k))
    ∷ (
      codes "pollin_pollin_pollin_write_pollin_pollin_pollin",
      λ k. some (do_pollin_pollin_pollin_write_pollin_pollin_pollin k),
    )
    ∷ (codes "poll_poll_shutdown", λ k. some (do_poll_poll_shutdown k))
    ∷ (codes "close_poll_poll_poll", λ k. some (do_close_poll_poll_poll k))
    ∷ (codes "close_close_close", λ k. some (do_close_close_close k))
    ∷ (codes "pipe_close_w_close_w_repeat", λ k. some (pipe_close_w_close_r_repeat k))
    ∷ []

-- The loop of `main` over the table.
unfoldable pub look_up : List (Bytes × Scenario) → Bytes → Scenario
look_up [] name kernel = some (minus_one, [])
look_up ((entry, scenario) ∷ table) name kernel =
    if equal name entry then scenario kernel else look_up table name kernel

-- `main`, for `argc` and `argv[1]`.
unfoldable pub main : ℕ → Kernel → ℕ → Bytes → Option Run
main rounds kernel argc name =
    if not (argc == 2) then some (minus_one, []) else look_up (function_table rounds) name kernel
