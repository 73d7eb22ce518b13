-- ===== src/Threads/Completes.antt =====
-- A main thread that waits for its threads: when it has returned, all have returned.
use platform_system_bluetoot.Prelude.{
  ℕ, suc, ◌≡◌, refl, subst, inl, inr, some, List, [], ◌∷◌, ℤ, get_elem?, length,
}
use platform_system_bluetoot.Threads.Program.{Program, returns}
use platform_system_bluetoot.Threads.System.{System}
use platform_system_bluetoot.Threads.Joins.{WellJoined, Returned, In, Inv}

abbrev pub AllReturned : {C : Type 0} → List (Program C) → Type 0
AllReturned [] = Unit
AllReturned (p ∷ ps) = Returned p × AllReturned ps

AllReturned-intro :
    {C : Type 0} (ps : List (Program C))
    → ((i : ℕ) (p : Program C) → get_elem? ps i ≡ some p → Returned p)
    → AllReturned ps
AllReturned-intro [] h = tt
AllReturned-intro (p ∷ ps) h = (h 0 p refl, AllReturned-intro ps (λ i. h (suc i)))

-- Where the main thread has returned, no thread is left that it did not wait for.
module _ {C : Type 0} (s : System C) (inv : Inv s) where
  pub Inv-AllReturned : (r : ℤ) → s.main ≡ returns r → AllReturned s.threads
  Inv-AllReturned r e = AllReturned-intro s.threads λ i p at. elim (inv.left i p at) [
    | inl done ↦ done
    | inr more ↦
        let none_left : inv.pending ≡ [] =
          subst (WellJoined (length s.threads) inv.pending) e inv.waits in
        absurd (subst (In i) none_left more)
  ]
