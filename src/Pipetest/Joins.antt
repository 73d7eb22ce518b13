-- ===== src/Pipetest/Joins.antt =====
-- The scenarios of tools/pipetest.c wait for the threads that they start.
use native.Mathlib.Decide.{dec_lt}
use platform_system_bluetoot.Prelude.{
  ℕ, zero, suc, ◌+◌, ◌≡◌, ◌<◌, ◌≤◌, ◌⊎◌, inl, inr, refl, ◌∙◌, Bool, true, false, List, [], ◌∷◌,
  ◌++◌, ◌&&◌, Option, none, some, ◌==◌, pos, minus_one, Bytes, codes, arith, Bool-cases,
}
use platform_system_bluetoot.Libc.Chars.{equal}
use platform_system_bluetoot.Threads.Joins.{remove, remove_first}
use platform_system_bluetoot.Pipetest.Calls.{
  Call, thread_poll, opens_pipe, opens_socketpair, closes, creates, joins, Kernel, Run, with_pipe,
  with_socketpair,
}
use platform_system_bluetoot.Pipetest.Scenarios.{
  for_each, do_poll_poll_close, do_socketpair_poll1_shutdown2, do_socketpair_poll1_shutdown1,
  do_socketpair_poll1_close1, do_socketpair_read1_shutdown1, pipes_from, do_pollin_pollin_write,
  do_pollin_pollin_pollin_write_pollin_pollin_pollin, do_poll_poll_shutdown,
  do_close_poll_poll_poll, repeat_from, pipe_close_w_close_r_repeat,
}
use platform_system_bluetoot.Pipetest.Main.{Scenario, function_table, look_up, main}

-- Threads are numbered in the order in which they are started, and each is waited for once, behind
-- its start. `n` threads were started before, and those of `running` were not waited for.
abbrev pub joined : ℕ → List ℕ → List Call → Bool
joined n [] [] = true
joined n (t ∷ running) [] = false
joined n running (creates t _ _ ∷ calls) = t == n && joined (n + 1) (running ++ n ∷ []) calls
joined n running (joins t ∷ calls) = elim (remove t running) [
  | none ↦ false
  | some others ↦ joined n others calls
]
joined n running (_ ∷ calls) = joined n running calls

-- The value returned is 0 or -1, and the calls wait for each of their threads; `n` were started
-- before.
abbrev JoinsFrom : ℕ → Run → Type 0
JoinsFrom n (ret, calls) = (joined n [] calls ≡ true) × ((ret ≡ pos 0) ⊎ (ret ≡ minus_one))

-- The calls of the scenario wait for each of their threads, and it returns 0 or -1.
abbrev pub JoinsAll : Option Run → Type 0
JoinsAll none = ⊥
JoinsAll (some run) = JoinsFrom 0 run

with_pipe-JoinsAll :
    (kernel : Kernel) (calls : ℕ → ℕ → List Call)
    → ((a b : ℕ) → joined 0 [] (calls a b) ≡ true)
    → JoinsAll (some (with_pipe kernel calls))
unfolding with_pipe
with_pipe-JoinsAll kernel calls all = go (kernel 0)
  where
    go :
        (o : Option (ℕ × ℕ))
        → JoinsAll (
            some (elim o [
              | none ↦ (minus_one, [])
              | some (a, b) ↦ (pos 0, opens_pipe a b ∷ calls a b)
            ]))
    go none = (refl, inr refl)
    go (some (a, b)) = (all a b, inl refl)

with_socketpair-JoinsAll :
    (kernel : Kernel) (calls : ℕ → ℕ → List Call)
    → ((a b : ℕ) → joined 0 [] (calls a b) ≡ true)
    → JoinsAll (some (with_socketpair kernel calls))
unfolding with_socketpair
with_socketpair-JoinsAll kernel calls all = go (kernel 0)
  where
    go :
        (o : Option (ℕ × ℕ))
        → JoinsAll (
            some (elim o [
              | none ↦ (minus_one, [])
              | some (a, b) ↦ (pos 0, opens_socketpair a b ∷ calls a b)
            ]))
    go none = (refl, inr refl)
    go (some (a, b)) = (all a b, inl refl)

pipes_from-JoinsAll :
    (kernel : Kernel) (last left round : ℕ)
    → kernel last ≡ none
    → round ≤ last
    → last < left + round
    → JoinsAll (pipes_from kernel left round)
unfolding pipes_from
pipes_from-JoinsAll kernel last zero round fails near enough = absurd (omega arith)
pipes_from-JoinsAll kernel last (suc left) round fails near enough =
    go (kernel round) (pipes_from kernel left (round + 1)) refl
      (λ more. pipes_from-JoinsAll kernel last left (round + 1) fails (omega arith) (omega arith))
  where
    more_rounds : (ab : ℕ × ℕ) → kernel round ≡ some ab → round < last
    more_rounds ab e = elim (dec_lt round last) [
      | yes more ↦ more
      | no done ↦ let same : round ≡ last = omega arith in cc
    ]

    go :
        (o : Option (ℕ × ℕ)) (rest : Option Run)
        → kernel round ≡ o
        → (round < last → JoinsAll rest)
        → JoinsAll (elim o [
          | none ↦ some (minus_one, [])
          | some (a, b) ↦ elim rest [
            | none ↦ none
            | some (ret, calls) ↦ some (ret, opens_pipe a b ∷ closes a ∷ closes b ∷ calls)
          ]
        ])
    go none rest e j = (refl, inr refl)
    go (some ab) none e j = j (more_rounds ab e)
    go (some ab) (some (ret, calls)) e j = j (more_rounds ab e)

-- The only thread that is running is waited for.
joined-round :
    (n : ℕ) (calls : List Call)
    → (n == n
        && (elim (remove n (n ∷ [])) [ none ↦ false | some others ↦ joined (n + 1) others calls ]))
      ≡ joined (n + 1) [] calls
joined-round n calls = rw (remove_first n []) (ground arith)

repeat_from-JoinsFrom :
    (kernel : Kernel) (left round : ℕ) → JoinsFrom round (repeat_from kernel left round)
unfolding repeat_from
repeat_from-JoinsFrom kernel zero round = (refl, inl refl)
repeat_from-JoinsFrom kernel (suc left) round =
    go (kernel round) (repeat_from-JoinsFrom kernel left (round + 1))
  where
    go :
        (o : Option (ℕ × ℕ))
        → JoinsFrom (round + 1) (repeat_from kernel left (round + 1))
        → JoinsFrom round (elim o [
          | none ↦ (minus_one, [])
          | some (a, b) ↦ (
            (repeat_from kernel left (round + 1)).0,
            opens_pipe a b
                ∷ creates round thread_poll a
                ∷ closes b
                ∷ closes a
                ∷ joins round
                ∷ (repeat_from kernel left (round + 1)).1,
          )
        ])
    go none j = (refl, inr refl)
    go (some (a, b)) j = (joined-round round (repeat_from kernel left (round + 1)).1 ∙ j.0, j.1)

-- Each scenario but one waits for its threads.
abbrev Fine : Kernel → List (Bytes × Scenario) → Type 0
Fine kernel [] = Unit
Fine kernel ((entry, scenario) ∷ table) =
    (JoinsAll (scenario kernel) ⊎ (entry ≡ codes "close_close_close")) × Fine kernel table

look_up-JoinsAll :
    (kernel : Kernel) (table : List (Bytes × Scenario)) (name : Bytes)
    → Fine kernel table
    → equal name (codes "close_close_close") ≡ false
    → JoinsAll (look_up table name kernel)
unfolding look_up
look_up-JoinsAll kernel [] name fine other = (refl, inr refl)
look_up-JoinsAll kernel ((entry, scenario) ∷ table) name (this, fine) other =
    elim (Bool-cases (equal name entry)) [
      | inr no_match ↦ rw no_match (look_up-JoinsAll kernel table name fine other)
      | inl match_it ↦ rw match_it (elim this [ inl j ↦ j | inr e ↦ cc ])
    ]

function_table-Fine :
    (kernel : Kernel) (last rounds : ℕ)
    → kernel last ≡ none
    → last < rounds
    → Fine kernel (function_table rounds)
unfolding function_table do_poll_poll_close do_socketpair_poll1_shutdown2
    do_socketpair_poll1_shutdown1 do_socketpair_poll1_close1 do_socketpair_read1_shutdown1
    do_pollin_pollin_write do_pollin_pollin_pollin_write_pollin_pollin_pollin do_poll_poll_shutdown
    do_close_poll_poll_poll pipe_close_w_close_r_repeat for_each
function_table-Fine kernel last rounds fails enough = (
  inl (with_socketpair-JoinsAll kernel _ (λ a b. refl)),
  (
    inl (with_socketpair-JoinsAll kernel _ (λ a b. refl)),
    (
      inl (with_socketpair-JoinsAll kernel _ (λ a b. refl)),
      (
        inl (with_socketpair-JoinsAll kernel _ (λ a b. refl)),
        (
          inl (pipes_from-JoinsAll kernel last rounds 0 fails (omega arith) (omega arith)),
          (
            inl (with_pipe-JoinsAll kernel _ (λ a b. refl)),
            (
              inl (with_pipe-JoinsAll kernel _ (λ a b. refl)),
              (
                inl (with_pipe-JoinsAll kernel _ (λ a b. refl)),
                (
                  inl (refl, inr refl),
                  (
                    inl (with_pipe-JoinsAll kernel _ (λ a b. refl)),
                    (inr refl, (inl (repeat_from-JoinsFrom kernel 100 0), tt)),
                  ),
                ),
              ),
            ),
          ),
        ),
      ),
    ),
  ),
)

-- If `pipe` fails at last, within the rounds that the endless scenario is given, then for every
-- argument other than `close_close_close`, the calls that the main thread makes, if each of them
-- returns, wait for each thread that they start once, behind its start, and then `main` returns 0 or
-- -1. The threads are numbered in the order in which they are started.
pub main-JoinsAll :
    (rounds last : ℕ) (kernel : Kernel) (argc : ℕ) (name : Bytes)
    → kernel last ≡ none
    → last < rounds
    → equal name (codes "close_close_close") ≡ false
    → JoinsAll (main rounds kernel argc name)
unfolding main
main-JoinsAll rounds last kernel argc name fails enough other = elim (Bool-cases (argc == 2)) [
  | inr wrong ↦ rw wrong (refl, inr refl)
  | inl right ↦ rw right (
      look_up-JoinsAll kernel (function_table rounds) name
        (function_table-Fine kernel last rounds fails enough) other)
]
