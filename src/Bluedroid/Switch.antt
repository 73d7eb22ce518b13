-- ===== src/Bluedroid/Switch.antt =====
-- What bluedroid/bluetooth.c writes to the rfkill switch.
use platform_system_bluetoot.Prelude.{
  ℕ, zero, suc, ◌+◌, ◌≤◌, ◌≡◌, refl, sym, subst, ◌⊎◌, inl, inr, Bool, true, false, some, [], ◌∷◌,
  arith, if◌then◌else◌, ℤ, pos, is_neg, minus_one, Bytes,
}
use platform_system_bluetoot.Bluedroid.Kernel.{
  type_path, state_path, open_rdonly, open_wronly, read_fd, write_fd, close_fd, History, Kernel,
  State, Build,
}
use platform_system_bluetoot.Bluedroid.Runs.{Ensures, Ensures-bind, Ensures-imply, after}
use platform_system_bluetoot.Bluedroid.Rfkill.{
  out, init_rfkill_from, init_rfkill, ensure_rfkill, write_power, set_bluetooth_power,
}
use platform_system_bluetoot.Bluedroid.Enable.{power}
use platform_system_bluetoot.Bluedroid.Descriptors.{FewSwitches}

-- The bytes that were written last. The code writes to the switch and to nothing else.
abbrev pub last_write : History → Bytes
last_write [] = []
last_write ((write_fd fd b, r) ∷ h) = b
last_write (_ ∷ h) = last_write h

-- The last byte written is the one that powers the chip, or the one that does not.
abbrev pub Powered : Bool → State → Type 0
Powered on s = last_write s.history ≡ (if on then b'1' else b'0') ∷ []

-- The switch has been found, and the path is that of its state.
abbrev pub Known : State → Type 0
Known s = (id : ℕ) × (s.rfkill_id ≡ pos id) × (s.rfkill_state_path ≡ state_path id)

-- What holds of the static variables between the calls of this file's functions.
abbrev pub WellFormed : State → Type 0
WellFormed s = (s.rfkill_id ≡ minus_one) ⊎ Known s

-- Each switch can be opened and written.
pub record SwitchWorks (kernel : Kernel) : Type 0 where
  pub opens : (h : History) (id : ℕ) → is_neg (kernel h (open_wronly (state_path id))).ret ≡ false
  pub writes : (h : History) (fd : ℤ) (b : Bytes) → is_neg (kernel h (write_fd fd b)).ret ≡ false

-- The search found the switch, or has changed no variable; it wrote nothing.
abbrev pub Searched : State → ℤ → State → Type 0
Searched s r s' =
    (last_write s'.history ≡ last_write s.history)
    × (((r ≡ minus_one) × WellFormed s') ⊎ ((r ≡ pos 0) × Known s'))

module _ (kernel : Kernel) {rounds : ℕ} (few : FewSwitches kernel rounds) where
  init_rfkill_from-Searched :
      (left id : ℕ) (s : State)
      → rounds ≤ suc left + id
      → s.rfkill_id ≡ minus_one
      → Ensures (Searched s) (init_rfkill_from kernel (suc left) id s)
  unfolding init_rfkill_from
  init_rfkill_from-Searched zero id s enough e = ground (arith, few.no_more s.history id)
  init_rfkill_from-Searched (suc left) id s enough e =
      let opening = after kernel (open_rdonly (type_path id)) s in
      let fd : ℤ = (kernel s.history (open_rdonly (type_path id))).ret in
      let closing = after kernel (close_fd fd) (after kernel (read_fd fd 16) opening) in
      ground (arith, init_rfkill_from-Searched left (id + 1) closing)

module _ (kernel : Kernel) where
  init_rfkill-Searched :
      (rounds : ℕ)
      → FewSwitches kernel rounds
      → (s : State) → s.rfkill_id ≡ minus_one
      → Ensures (Searched s) (init_rfkill kernel rounds s)
  unfolding init_rfkill
  init_rfkill-Searched zero few s e = absurd (omega (arith, few.some_round))
  init_rfkill-Searched (suc left) few s e =
      init_rfkill_from-Searched kernel few left 0 s (omega arith) e

module _ (kernel : Kernel) {rounds : ℕ} (few : FewSwitches kernel rounds) where
  pub ensure_rfkill-Searched :
      (s : State) → WellFormed s → Ensures (Searched s) (ensure_rfkill kernel rounds s)
  unfolding ensure_rfkill
  ensure_rfkill-Searched s (inl e) = simp e (init_rfkill-Searched kernel rounds few s e)
  ensure_rfkill-Searched s (inr (id, e, p)) = simp e (refl, inr (refl, (id, refl, p)))

-- The byte is written, or the switch cannot be opened and nothing is written.
write_power-Writes :
    (kernel : Kernel) (on : Bool) (s : State)
    → Known s
    → Ensures
        (λ r s'.
          Known s'
          × (((is_neg r ≡ true) × (last_write s'.history ≡ last_write s.history)) ⊎ Powered on s'))
        (write_power kernel on s)
unfolding write_power out
write_power-Writes kernel on s (id, e, p) = ground arith

write_power-Powered :
    (kernel : Kernel) (on : Bool) (s : State)
    → SwitchWorks kernel
    → Known s
    → Ensures (λ r s'. (r ≡ pos 0) × Known s' × Powered on s') (write_power kernel on s)
unfolding write_power out
write_power-Powered kernel on s works (id, e, p) =
    let path = open_wronly s.rfkill_state_path in
    let there : is_neg (kernel s.history path).ret ≡ false = rw p (works.opens s.history id) in
    let fd : ℤ = (kernel s.history path).ret in
    let written = works.writes (after kernel path s).history fd in
    ground (arith, there, written (b'1' ∷ []), written (b'0' ∷ []))

ensure_rfkill-Known :
    (kernel : Kernel) (rounds : ℕ) (s : State)
    → Known s
    → ensure_rfkill kernel rounds s ≡ some (pos 0, s)
unfolding ensure_rfkill
ensure_rfkill-Known kernel rounds s (id, e, p) = simp e refl

-- The switch was known already.
abbrev Found : ℤ → State → Type 0
Found r s = (r ≡ pos 0) × Known s

set_bluetooth_power-Powered :
    (kernel : Kernel) (rounds : ℕ) (on : Bool) (s : State)
    → SwitchWorks kernel
    → Known s
    → Ensures
        (λ r s'. (r ≡ pos 0) × Known s' × Powered on s')
        (set_bluetooth_power kernel rounds on s)
unfolding set_bluetooth_power
set_bluetooth_power-Powered kernel rounds on s works known =
    Ensures-bind Found (λ r s'. (r ≡ pos 0) × Known s' × Powered on s')
      (ensure_rfkill kernel rounds s) _
      (subst (Ensures Found) (sym (ensure_rfkill-Known kernel rounds s known)) (refl, known))
      (λ r s' (e, known'). rw e (write_power-Powered kernel on s' works known'))

-- The switch is not there and nothing is written, or the byte is written.
abbrev pub Turned : Bool → State → ℤ → State → Type 0
Turned on s r s' =
    ((r ≡ minus_one) × WellFormed s' × (last_write s'.history ≡ last_write s.history))
    ⊎ ((r ≡ pos 0) × Known s' × Powered on s')

module _ (build : Build) (kernel : Kernel) (used : build.uses_rfkill ≡ true)
    (works : SwitchWorks kernel) where
  -- From a state in which the switch is known, nothing is searched.
  pub power-Powered :
      (rounds : ℕ) (on : Bool) (s : State)
      → Known s
      → Ensures (λ r s'. (r ≡ pos 0) × Known s' × Powered on s') (power build kernel rounds on s)
  unfolding power
  power-Powered rounds on s known =
      rw used (set_bluetooth_power-Powered kernel rounds on s works known)

  pub power-Turned :
      {rounds : ℕ} (few : FewSwitches kernel rounds) (on : Bool) (s : State)
      → WellFormed s
      → Ensures (Turned on s) (power build kernel rounds on s)
  unfolding power set_bluetooth_power
  power-Turned {rounds} few on s well = rw used (
      Ensures-bind (Searched s) (Turned on s) (ensure_rfkill kernel rounds s) _
        (ensure_rfkill-Searched kernel few s well)
        λ r s' (same, found). elim found [
          | inl (e, well') ↦ rw e (inl (refl, well', same))
          | inr (e, known) ↦ rw e (
              Ensures-imply _ (Turned on s) (write_power kernel on s') (λ _ _ powered. inr powered)
                (write_power-Powered kernel on s' works known))
        ])
