-- ===== src/Pipetest/Interleaves.antt =====
-- How the threads of tools/pipetest.c interleave with its main thread.
use platform_system_bluetoot.Prelude.{
  ℕ, ◌+◌, ◌≡◌, inl, inr, ◌<◌, refl, Bool, true, false, List, [], ◌∷◌, ◌++◌, ◌&&◌, none, some, ◌==◌,
  ℤ, pos, Bytes, codes, Option-cases, subst,
}
use platform_system_bluetoot.Libc.Chars.{equal}
use platform_system_bluetoot.Threads.Program.{Program, returns, calls, IsThread}
use platform_system_bluetoot.Threads.System.{System, start, Reach}
use platform_system_bluetoot.Threads.Joins.{remove, WellJoined, Reach-Inv}
use platform_system_bluetoot.Threads.Completes.{AllReturned, Inv-AllReturned}
use platform_system_bluetoot.Pipetest.Calls.{
  Body, thread_poll, thread_pollin, thread_pollin_rand_delay, thread_read, thread_close, Call,
  opens_pipe, opens_socketpair, closes, reads, writes, shuts_down, polls, sleeps, usleeps, creates,
  joins, thread_calls, Kernel,
}
use platform_system_bluetoot.Pipetest.Main.{main}
use platform_system_bluetoot.Pipetest.Joins.{joined, JoinsAll, main-JoinsAll}

-- A row of calls, and what follows.
abbrev calls_then : List Call → Program Call → Program Call
calls_then [] next = next
calls_then (c ∷ cs) next = calls c λ _. calls_then cs next

-- A thread with the delay that it draws.
unfoldable pub thread : ℕ → Body → ℕ → Program Call
unfolding thread_calls
thread delay body fd = calls_then (thread_calls delay body fd) (returns (pos 0))

-- The main thread, for the calls that it makes and what it returns. `delay` has the delay of each
-- thread.
unfoldable pub program : (ℕ → ℕ) → ℤ → List Call → Program Call
unfolding thread
program delay ret [] = returns ret
program delay ret (creates t body fd ∷ cs) =
    Program.creates (thread (delay t) body fd) (program delay ret cs)
program delay ret (joins t ∷ cs) = Program.joins t (program delay ret cs)
program delay ret (c ∷ cs) = calls c λ _. program delay ret cs

thread-IsThread : (delay : ℕ) (body : Body) (fd : ℕ) → IsThread (thread delay body fd)
unfolding thread
thread-IsThread delay thread_poll fd = λ _. tt
thread-IsThread delay thread_pollin fd = λ _. tt
thread-IsThread delay thread_pollin_rand_delay fd = λ _ _. tt
thread-IsThread delay thread_read fd = λ _. tt
thread-IsThread delay thread_close fd = λ _. tt

and_right : (a b : Bool) → (a && b) ≡ true → b ≡ true
and_right true b e = e
and_right false b e = cc

module _ (t : ℕ) (running : List ℕ) (n : ℕ) (cs : List Call) where
  waited :
      {others : List ℕ}
      → remove t running ≡ some others
      → joined n running (joins t ∷ cs) ≡ true
      → joined n others cs ≡ true
  waited has j =
      subst (λ o. elim o [ none ↦ false | some others ↦ joined n others cs ] ≡ true) has j

  no_thread : remove t running ≡ none → joined n running (joins t ∷ cs) ≡ true → ⊥
  no_thread lacks j =
      let e : false ≡ true =
        subst (λ o. elim o [ none ↦ false | some others ↦ joined n others cs ] ≡ true) lacks j in
      cc

module _ (delay : ℕ → ℕ) (ret : ℤ) where
  program-WellJoined :
      (n : ℕ) (running : List ℕ) (cs : List Call)
      → joined n running cs ≡ true
      → WellJoined n running (program delay ret cs)
  unfolding program
  program-WellJoined n [] [] j = refl
  program-WellJoined n (t ∷ running) [] j = cc
  program-WellJoined n running (creates t body fd ∷ cs) j = (
    thread-IsThread (delay t) body fd,
    program-WellJoined (n + 1) (running ++ n ∷ []) cs
        (and_right (t == n) (joined (n + 1) (running ++ n ∷ []) cs) j),
  )
  program-WellJoined n running (joins t ∷ cs) j = elim (Option-cases (remove t running)) [
    | inl lacks ↦ absurd (no_thread t running n cs lacks j)
    | inr (others, has) ↦
        (others, has, program-WellJoined n others cs (waited t running n cs has j))
  ]
  program-WellJoined n running (opens_pipe a b ∷ cs) j = λ _. program-WellJoined n running cs j
  program-WellJoined n running (opens_socketpair a b ∷ cs) j =
      λ _. program-WellJoined n running cs j
  program-WellJoined n running (closes fd ∷ cs) j = λ _. program-WellJoined n running cs j
  program-WellJoined n running (reads fd ∷ cs) j = λ _. program-WellJoined n running cs j
  program-WellJoined n running (writes fd b ∷ cs) j = λ _. program-WellJoined n running cs j
  program-WellJoined n running (shuts_down fd ∷ cs) j = λ _. program-WellJoined n running cs j
  program-WellJoined n running (polls fd events ∷ cs) j = λ _. program-WellJoined n running cs j
  program-WellJoined n running (sleeps k ∷ cs) j = λ _. program-WellJoined n running cs j
  program-WellJoined n running (usleeps k ∷ cs) j = λ _. program-WellJoined n running cs j

-- If `pipe` fails at last, within the rounds that the endless scenario is given, then for every
-- argument other than `close_close_close`, whatever delays the threads draw, under every schedule and
-- whatever the calls of the run return: whenever the main thread has returned, every thread that it
-- started has returned too.
pub main-ThreadsReturned :
    (rounds last : ℕ) (kernel : Kernel) (argc : ℕ) (name : Bytes) (delay : ℕ → ℕ) (ret r : ℤ)
    (cs : List Call) (s : System Call)
    → kernel last ≡ none
    → last < rounds
    → equal name (codes "close_close_close") ≡ false
    → main rounds kernel argc name ≡ some (ret, cs)
    → Reach (start (program delay ret cs)) s
    → s.main ≡ returns r
    → AllReturned s.threads
main-ThreadsReturned rounds last kernel argc name delay ret r cs s fails enough other runs reach e =
    let all = subst JoinsAll runs (main-JoinsAll rounds last kernel argc name fails enough other) in
    Inv-AllReturned s (Reach-Inv (program-WellJoined delay ret 0 [] cs all.0) reach) r e
