-- ===== src/Pipetest/Scenarios.antt =====
-- The scenarios of tools/pipetest.c.
use platform_system_bluetoot.Prelude.{
  ℕ, zero, suc, ◌+◌, ◌%◌, List, [], ◌∷◌, ◌++◌, Option, none, some, ◌==◌, if◌then◌else◌, pos,
  minus_one,
}
use platform_system_bluetoot.Pipetest.Calls.{
  thread_poll, thread_pollin, thread_pollin_rand_delay, thread_read, thread_close, Call, opens_pipe,
  closes, writes, shuts_down, sleeps, creates, joins, Kernel, Run, with_pipe, with_socketpair,
}

-- `THREADS`, `MAX_T`
abbrev pub threads : ℕ
threads = 100

abbrev pub max_t : ℕ
max_t = 10

-- `for (i = from; …; i++) f(i);` for `n` rounds.
unfoldable pub for_each : ℕ → ℕ → (ℕ → Call) → List Call
for_each from zero f = []
for_each from (suc n) f = f from ∷ for_each (from + 1) n f

-- The threads get NULL for their descriptor.
unfoldable pub do_poll_poll_close : Kernel → Run
do_poll_poll_close kernel = with_pipe kernel λ a b.
    creates 0 thread_poll 0 ∷ creates 1 thread_poll 0 ∷ sleeps 1 ∷ closes b ∷ joins 0 ∷ joins 1 ∷ []

unfoldable pub do_socketpair_poll1_shutdown2 : Kernel → Run
do_socketpair_poll1_shutdown2 kernel =
    with_socketpair kernel
      λ a b. creates 0 thread_poll b ∷ sleeps 1 ∷ shuts_down a ∷ sleeps 1 ∷ closes a ∷ joins 0 ∷ []

unfoldable pub do_socketpair_poll1_shutdown1 : Kernel → Run
do_socketpair_poll1_shutdown1 kernel =
    with_socketpair kernel
      λ a b. creates 0 thread_poll a ∷ sleeps 1 ∷ shuts_down a ∷ sleeps 1 ∷ closes a ∷ joins 0 ∷ []

unfoldable pub do_socketpair_poll1_close1 : Kernel → Run
do_socketpair_poll1_close1 kernel =
    with_socketpair kernel λ a b. creates 0 thread_poll a ∷ sleeps 1 ∷ closes a ∷ joins 0 ∷ []

unfoldable pub do_socketpair_read1_shutdown1 : Kernel → Run
do_socketpair_read1_shutdown1 kernel =
    with_socketpair kernel
      λ a b. creates 0 thread_read a ∷ sleeps 1 ∷ shuts_down a ∷ sleeps 1 ∷ closes a ∷ joins 0 ∷ []

-- The loop of `do_pipe_pipe_pipe` ends when `pipe` fails: `round` counts its calls, and a run that
-- goes on behind `left` of them has no result.
unfoldable pub pipes_from : Kernel → ℕ → ℕ → Option Run
pipes_from kernel zero round = none
pipes_from kernel (suc left) round =
    let rest = pipes_from kernel left (round + 1) in
    elim (kernel round) [
      | none ↦ some (minus_one, [])
      | some (a, b) ↦ elim rest [
        | none ↦ none
        | some (ret, calls) ↦ some (ret, opens_pipe a b ∷ closes a ∷ closes b ∷ calls)
      ]
    ]

unfoldable pub do_pollin_pollin_write : Kernel → Run
do_pollin_pollin_write kernel = with_pipe kernel λ a b.
    creates 0 thread_pollin a
    ∷ creates 1 thread_pollin a
    ∷ sleeps 1
    ∷ (for_each 0 100 (λ _. writes b b'a') ++ joins 0 ∷ joins 1 ∷ [])

unfoldable pub do_pollin_pollin_pollin_write_pollin_pollin_pollin : Kernel → Run
do_pollin_pollin_pollin_write_pollin_pollin_pollin kernel = with_pipe kernel λ a b.
    for_each 0 max_t (λ i. creates i thread_pollin_rand_delay a)
    ++ (sleeps 5 ∷ writes b b'a' ∷ (for_each 0 max_t joins ++ closes a ∷ closes b ∷ []))

-- Its body is compiled out.
unfoldable pub do_poll_poll_shutdown : Kernel → Run
do_poll_poll_shutdown kernel = (minus_one, [])

unfoldable pub do_close_poll_poll_poll : Kernel → Run
do_close_poll_poll_poll kernel = with_pipe kernel λ a b.
    closes b ∷ (for_each 0 threads (λ i. creates i thread_poll a) ++ for_each 0 threads joins)

unfoldable pub do_close_close_close : Kernel → Run
do_close_close_close kernel =
    with_pipe kernel
      λ a b. for_each 0 threads (λ i. creates i thread_close (if i % 2 == 0 then a else b))

unfoldable pub repeat_from : Kernel → ℕ → ℕ → Run
repeat_from kernel zero round = (pos 0, [])
repeat_from kernel (suc left) round =
    let rest = repeat_from kernel left (round + 1) in
    elim (kernel round) [
      | none ↦ (minus_one, [])
      | some (a, b) ↦ (
        rest.0,
        opens_pipe a b ∷ creates round thread_poll a ∷ closes b ∷ closes a ∷ joins round ∷ rest.1,
      )
    ]

unfoldable pub pipe_close_w_close_r_repeat : Kernel → Run
pipe_close_w_close_r_repeat kernel = repeat_from kernel threads 0
