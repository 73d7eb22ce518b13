-- ===== src/Threads/System.antt =====
-- The states of a process with several threads, and its steps: any thread that is not waiting for
-- another one goes on, and a call returns any number.
use platform_system_bluetoot.Prelude.{
  ℕ, ◌≡◌, Option, none, some, List, [], ◌∷◌, ◌++◌, ℤ, get_elem?, set,
}
use platform_system_bluetoot.Threads.Program.{Program, returns, calls, creates, joins}

-- `log` has the calls with what they returned, the latest first, each with the number of its thread,
-- which is `none` for the main thread.
pub record System (C : Type 0) : Type 0 where
  pub main : Program C
  pub threads : List (Program C)
  pub log : List (Option ℕ × C × ℤ)

abbrev pub start : {C : Type 0} → Program C → System C
start p = record { main = p; threads = []; log = [] }

pub data Step {C : Type 0} (s t : System C) : Type 0 where
  main_calls :
      (c : C) (k : ℤ → Program C) (r : ℤ)
      → s.main ≡ calls c k
      → t ≡ record s { main = k r; log = (none, c, r) ∷ s.log }
      → Step s t
  main_creates :
      (p k : Program C)
      → s.main ≡ creates p k
      → t ≡ record s { main = k; threads = s.threads ++ p ∷ [] }
      → Step s t
  main_joins :
      (i : ℕ) (k : Program C) (r : ℤ)
      → s.main ≡ joins i k
      → get_elem? s.threads i ≡ some (returns r)
      → t ≡ record s { main = k }
      → Step s t
  thread_calls :
      (i : ℕ) (c : C) (k : ℤ → Program C) (r : ℤ)
      → get_elem? s.threads i ≡ some (calls c k)
      → t ≡ record s { threads = set s.threads i (k r); log = (some i, c, r) ∷ s.log }
      → Step s t

pub data Reach {C : Type 0} (s : System C) : System C → Type 0 where
  here : Reach s s
  next : {t u : System C} → Reach s t → Step t u → Reach s u
