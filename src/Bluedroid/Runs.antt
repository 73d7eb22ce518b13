-- ===== src/Bluedroid/Runs.antt =====
-- Total correctness of a run: it ends, and a postcondition holds.
use platform_system_bluetoot.Prelude.{
  ◌≡◌, refl, Bool, true, false, Option, none, some, ◌∷◌, ℤ, pos, negsuc, is_neg,
}
use platform_system_bluetoot.Bluedroid.Kernel.{Call, Kernel, State, M, unless_failed, branch}

-- The state after one call.
abbrev pub after : Kernel → Call → State → State
after kernel c s = record s { history = (c, kernel s.history c) ∷ s.history }

-- A run ends, and this holds of its result.
abbrev pub Ensures : {A : Type 0} → (A → State → Type 0) → Option (A × State) → Type 0
Ensures P none = ⊥
Ensures P (some (a, s)) = P a s

-- A run goes on from what another one ensures.
pub Ensures-bind :
    {A B : Type 0} (P : A → State → Type 0) (Q : B → State → Type 0) (r : Option (A × State))
    (f : A → M B)
    → Ensures P r
    → ((a : A) (s : State) → P a s → Ensures Q (f a s))
    → Ensures Q (elim r [ none ↦ none | some (a, s) ↦ f a s ])
Ensures-bind P Q none f h next = absurd h
Ensures-bind P Q (some (a, s)) f h next = next a s h

pub Ensures-imply :
    {A : Type 0} (P Q : A → State → Type 0) (r : Option (A × State))
    → ((a : A) (s : State) → P a s → Q a s)
    → Ensures P r
    → Ensures Q r
Ensures-imply P Q none f p = p
Ensures-imply P Q (some (a, s)) f p = f a s p

pub Ensures-and :
    {A : Type 0} (P Q : A → State → Type 0) (r : Option (A × State))
    → Ensures P r
    → Ensures Q r
    → Ensures (λ a s. P a s × Q a s) r
Ensures-and P Q none p q = p
Ensures-and P Q (some _) p q = (p, q)

pub unless_failed-Ensures :
    (Q : ℤ → State → Type 0) (a : ℤ) (m : M ℤ) (s : State)
    → is_neg a ≡ false
    → Ensures Q (m s)
    → Ensures Q (unless_failed a m s)
unless_failed-Ensures Q (pos _) m s ok q = q
unless_failed-Ensures Q (negsuc _) m s ok q = cc

pub branch-Ensures :
    {A : Type 0} (Q : A → State → Type 0) (b : Bool) (m n : M A) (s : State)
    → (b ≡ true → Ensures Q (m s))
    → (b ≡ false → Ensures Q (n s))
    → Ensures Q (branch b m n s)
branch-Ensures Q true m n s this that = this refl
branch-Ensures Q false m n s this that = that refl
