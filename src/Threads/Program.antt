-- ===== src/Threads/Program.antt =====
-- A thread, as what it calls next and how it goes on with what the call returns.
use platform_system_bluetoot.Prelude.{ℕ, ℤ}

-- `creates` is `pthread_create`, `joins` is `pthread_join`: threads are numbered in the order in
-- which they are started. A loop that has used up its rounds is `out_of_rounds`.
pub data Program (C : Type 0) : Type 0 where
  returns : ℤ → Program C
  calls : C → (ℤ → Program C) → Program C
  creates : Program C → Program C → Program C
  joins : ℕ → Program C → Program C
  out_of_rounds : Program C

abbrev pub call : {C : Type 0} → C → Program C
call c = calls c returns

infixl 5 ◌>>=◌ ◌>>◌
abbrev pub ◌>>=◌ : {C : Type 0} → Program C → (ℤ → Program C) → Program C
returns r >>= f = f r
calls c k >>= f = calls c (λ r. k r >>= f)
creates p k >>= f = creates p (k >>= f)
joins i k >>= f = joins i (k >>= f)
out_of_rounds >>= f = out_of_rounds

abbrev pub ◌>>◌ : {C : Type 0} → Program C → Program C → Program C
p >> q = p >>= λ _. q

-- A thread that starts no thread and waits for none.
abbrev pub IsThread : {C : Type 0} → Program C → Type 0
IsThread (returns r) = Unit
IsThread (calls c k) = (r : ℤ) → IsThread (k r)
IsThread (creates p k) = ⊥
IsThread (joins i k) = ⊥
IsThread out_of_rounds = ⊥
