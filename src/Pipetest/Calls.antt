-- ===== src/Pipetest/Calls.antt =====
-- What the scenarios of tools/pipetest.c call, and the threads that they start. The functions with an
-- underscore in front of a call's name only print what they call and what it returns.
use platform_system_bluetoot.Prelude.{ℕ, List, [], ◌∷◌, Option, none, some, ℤ, pos, minus_one}

-- The functions that a thread can run.
pub data Body : Type 0 where
  thread_poll thread_pollin thread_pollin_rand_delay thread_read thread_close : Body

-- `creates` and `joins` name a thread by its number in the scenario. `polls` has the events that are
-- waited for, and no time-out.
pub data Call : Type 0 where
  opens_pipe opens_socketpair : ℕ → ℕ → Call
  closes reads : ℕ → Call
  writes : ℕ → ℕ → Call
  shuts_down : ℕ → Call
  polls : ℕ → ℕ → Call
  sleeps usleeps : ℕ → Call
  creates : ℕ → Body → ℕ → Call
  joins : ℕ → Call

abbrev pub pollin : ℕ
pollin = 1

-- What a thread with the argument `fd` calls; `delay` is the number that it draws.
unfoldable pub thread_calls : ℕ → Body → ℕ → List Call
thread_calls delay thread_poll fd = polls fd 0 ∷ []
thread_calls delay thread_pollin fd = polls fd pollin ∷ []
thread_calls delay thread_pollin_rand_delay fd = usleeps delay ∷ polls fd pollin ∷ []
thread_calls delay thread_read fd = reads fd ∷ []
thread_calls delay thread_close fd = closes fd ∷ []

-- The two descriptors that the n-th call of `pipe` or `socketpair` gives, if it succeeds.
abbrev pub Kernel : Type 0
Kernel = ℕ → Option (ℕ × ℕ)

-- What a scenario returns, and what its main thread called.
abbrev pub Run : Type 0
Run = ℤ × List Call

-- `if (pipe(fd)) return -1;`, what follows, and `return 0`.
unfoldable pub with_pipe : Kernel → (ℕ → ℕ → List Call) → Run
with_pipe kernel calls = elim (kernel 0) [
  | none ↦ (minus_one, [])
  | some (a, b) ↦ (pos 0, opens_pipe a b ∷ calls a b)
]

unfoldable pub with_socketpair : Kernel → (ℕ → ℕ → List Call) → Run
with_socketpair kernel calls = elim (kernel 0) [
  | none ↦ (minus_one, [])
  | some (a, b) ↦ (pos 0, opens_socketpair a b ∷ calls a b)
]
