-- ===== src/Bluedroid/Sessions.antt =====
-- Runs of several calls of bluedroid/bluetooth.c, one after another.
use platform_system_bluetoot.Prelude.{
  ℕ, ◌≡◌, refl, ◌∙◌, subst, ◌⊎◌, inl, inr, Bool, true, false, ◌||◌, some, List, [], ◌∷◌, arith, ℤ,
  pos, minus_one,
}
use platform_system_bluetoot.Bluedroid.Kernel.{
  state_path, open_rdonly, read_fd, History, Kernel, State, M, is_minus_one, is_zero, Build, pure,
  ◌>>=◌, unless_failed,
}
use platform_system_bluetoot.Bluedroid.Runs.{Ensures, Ensures-bind, Ensures-imply, branch-Ensures}
use platform_system_bluetoot.Bluedroid.Rfkill.{
  is_one, ensure_rfkill, read_power, check_bluetooth_power,
}
use platform_system_bluetoot.Bluedroid.Enable.{bt_enable, bt_disable}
use platform_system_bluetoot.Bluedroid.Query.{interface_is_up, bt_is_enabled}
use platform_system_bluetoot.Bluedroid.Descriptors.{FewSwitches}
use platform_system_bluetoot.Bluedroid.Switch.{
  last_write, Powered, Known, WellFormed, Searched, SwitchWorks, ensure_rfkill-Searched,
}
use platform_system_bluetoot.Bluedroid.Power.{
  LeavesPower, Disables, bt_enable-LeavesPower, bt_disable-Disables,
}

-- The functions that a client calls.
pub data Request : Type 0 where
  enables disables asks : Request

abbrev pub perform : Build → Kernel → ℕ → Request → M ℤ
perform build kernel rounds enables = bt_enable build kernel rounds
perform build kernel rounds disables = bt_disable build kernel rounds
perform build kernel rounds asks = bt_is_enabled build kernel rounds

-- The calls of a session from the state `s` with what they returned, the latest first, and the
-- state behind them.
pub data Session (build : Build) (kernel : Kernel) (rounds : ℕ) (s : State)
    : List (Request × ℤ) → State → Type 0 where
  starts : Session build kernel rounds s [] s
  goes_on :
      {done : List (Request × ℤ)} {s' s'' : State} {ret : ℤ} (q : Request)
      → Session build kernel rounds s done s'
      → perform build kernel rounds q s' ≡ some (ret, s'')
      → Session build kernel rounds s ((q, ret) ∷ done) s''

-- The last call that may have changed the power is a `bt_disable` that returned 0.
abbrev pub switched_off : List (Request × ℤ) → Bool
switched_off [] = false
switched_off ((enables, ret) ∷ done) = false
switched_off ((disables, ret) ∷ done) = is_zero ret || switched_off done
switched_off ((asks, ret) ∷ done) = switched_off done

-- What is read of a switch to which '0' was written last is '0'.
abbrev pub ReadsBack : Kernel → Type 0
ReadsBack kernel =
    (h : History) (id : ℕ)
    → last_write h ≡ b'0' ∷ []
    → let opening = kernel h (open_rdonly (state_path id)) in
      let reading = kernel ((open_rdonly (state_path id), opening) ∷ h) (read_fd opening.ret 1) in
      is_one reading.ret ≡ true → reading.got ≡ b'0' ∷ []

-- Nothing was written.
abbrev Quiet : State → ℤ → State → Type 0
Quiet s0 _ s = WellFormed s × (last_write s.history ≡ last_write s0.history)

module _ (kernel : Kernel) (s0 : State) where
  read_power-Quiet : (s : State) → Quiet s0 (pos 0) s → Ensures (Quiet s0) (read_power kernel s)
  unfolding read_power
  read_power-Quiet s (well, same) = ground arith

  interface_is_up-Quiet :
      (s : State) → Quiet s0 (pos 0) s → Ensures (Quiet s0) (interface_is_up kernel s)
  unfolding interface_is_up
  interface_is_up-Quiet s (well, same) = ground arith

  -- The switch is searched if it is not known, and what follows needs a known one.
  found-Ensures :
      {rounds : ℕ} (Q : ℤ → State → Type 0) (m : M ℤ) (s : State)
      → FewSwitches kernel rounds
      → Quiet s0 (pos 0) s
      → ((s' : State) → Quiet s0 minus_one s' → Q minus_one s')
      → ((s' : State) → Known s' → last_write s'.history ≡ last_write s0.history → Ensures Q (m s'))
      → Ensures Q ((ensure_rfkill kernel rounds >>= λ found. unless_failed found m) s)
  found-Ensures {rounds} Q m s few (well, same) missing there =
      Ensures-bind (Searched s) Q (ensure_rfkill kernel rounds s) _
        (ensure_rfkill-Searched kernel few s well)
        λ r s' (same', found). elim found [
          | inl (e, well') ↦ rw e (missing s' (well', same' ∙ same))
          | inr (e, known) ↦ rw e (there s' known (same' ∙ same))
        ]

  check_bluetooth_power-Quiet :
      {rounds : ℕ} (s : State)
      → FewSwitches kernel rounds
      → Quiet s0 (pos 0) s
      → Ensures (Quiet s0) (check_bluetooth_power kernel rounds s)
  unfolding check_bluetooth_power
  check_bluetooth_power-Quiet s few quiet =
      found-Ensures (Quiet s0) (read_power kernel) s few quiet (λ s' q. q)
        (λ s' known same. read_power-Quiet s' (inr known, same))

  bt_is_enabled-Quiet :
      (build : Build) {rounds : ℕ} (s : State)
      → FewSwitches kernel rounds
      → Quiet s0 (pos 0) s
      → Ensures (Quiet s0) (bt_is_enabled build kernel rounds s)
  unfolding bt_is_enabled
  bt_is_enabled-Quiet build {rounds} s few quiet =
      branch-Ensures (Quiet s0) build.uses_rfkill _ (interface_is_up kernel) s
        (λ used.
          Ensures-bind (Quiet s0) (Quiet s0) (check_bluetooth_power kernel rounds s) _
            (check_bluetooth_power-Quiet s few quiet)
            (λ ret s' quiet'.
              branch-Ensures (Quiet s0) (is_minus_one ret || is_zero ret) (pure ret) _ s'
                (λ no. quiet') (λ yes. interface_is_up-Quiet s' quiet')))
        (λ unused. interface_is_up-Quiet s quiet)

-- The chip is not said to be on.
abbrev pub NotOn : ℤ → State → Type 0
NotOn ret _ = (ret ≡ minus_one) ⊎ (ret ≡ pos 0)

module _ (kernel : Kernel) (reads : ReadsBack kernel) where
  read_power-NotOn : (s : State) → Known s → Powered false s → Ensures NotOn (read_power kernel s)
  unfolding read_power
  read_power-NotOn s (id, e, p) off = rw p (ground (arith, reads s.history id off))

  bt_is_enabled-NotOn :
      (build : Build) {rounds : ℕ} (s : State)
      → build.uses_rfkill ≡ true
      → FewSwitches kernel rounds
      → WellFormed s
      → Powered false s
      → Ensures NotOn (bt_is_enabled build kernel rounds s)
  unfolding bt_is_enabled check_bluetooth_power
  bt_is_enabled-NotOn build {rounds} s used few well off = rw used (
      Ensures-bind NotOn NotOn (check_bluetooth_power kernel rounds s) _
        (found-Ensures kernel s NotOn (read_power kernel) s few (well, refl) (λ s' q. inl refl)
          (λ s' known same. read_power-NotOn s' known (same ∙ off)))
        (λ ret s' no. elim no [ inl e ↦ rw e (inl refl) | inr e ↦ rw e (inr refl) ]))

-- What the state is between the calls of a session.
abbrev Between : List (Request × ℤ) → State → Type 0
Between done s = WellFormed s × (switched_off done ≡ true → Powered false s)

module _ (build : Build) (kernel : Kernel) {rounds : ℕ} (used : build.uses_rfkill ≡ true)
    (few : FewSwitches kernel rounds) (works : SwitchWorks kernel) where
  -- A call from a state between calls ends in such a state.
  perform-Between :
      (done : List (Request × ℤ)) (q : Request) (s : State)
      → Between done s
      → Ensures (λ ret s'. Between ((q, ret) ∷ done) s') (perform build kernel rounds q s)
  perform-Between done enables s (well, off) =
      Ensures-imply (LeavesPower s) (λ ret s'. Between ((enables, ret) ∷ done) s') _
        (λ ret s' (well', _). (well', λ e. cc))
        (bt_enable-LeavesPower build kernel s used few works well)
  perform-Between done disables s (well, off) =
      Ensures-imply (Disables s) (λ ret s'. Between ((disables, ret) ∷ done) s') _
        (λ ret s' (well', ends). (
          well',
          λ e. elim ends [
            | inl (r, same) ↦ same ∙ off (subst (λ x. is_zero x || switched_off done ≡ true) r e)
            | inr (_, without) ↦ without
          ],
        ))
        (bt_disable-Disables build kernel s used few works well)
  perform-Between done asks s (well, off) =
      Ensures-imply (Quiet s) (λ ret s'. Between ((asks, ret) ∷ done) s') _
        (λ ret s' (well', same). (well', λ e. same ∙ off e))
        (bt_is_enabled-Quiet kernel s build s few (well, refl))

  Session-Between :
      {s : State} {done : List (Request × ℤ)} {s' : State}
      → WellFormed s
      → Session build kernel rounds s done s'
      → Between done s'
  Session-Between well starts = (well, λ e. cc)
  Session-Between well (goes_on {done} {s' = s1} q before e) =
      subst (Ensures _) e (perform-Between done q s1 (Session-Between well before))

-- Where rfkill is used, on a system with fewer switches than rounds whose switches can be opened and
-- written and give back what was written, from the state that the library starts in or any state
-- between its calls: in a session of calls of `bt_enable`, `bt_disable` and `bt_is_enabled` in any
-- order, if a `bt_disable` returned 0 and there was no `bt_enable` since, then the last byte written
-- to the switch is '0', and `bt_is_enabled` ends and says 0 or -1.
pub Session-SwitchedOff :
    (build : Build) (kernel : Kernel) {rounds : ℕ} {done : List (Request × ℤ)} {s s' : State}
    → build.uses_rfkill ≡ true
    → FewSwitches kernel rounds
    → SwitchWorks kernel
    → ReadsBack kernel
    → WellFormed s
    → Session build kernel rounds s done s'
    → switched_off done ≡ true
    → Powered false s' × Ensures NotOn (bt_is_enabled build kernel rounds s')
Session-SwitchedOff build kernel used few works reads well session off =
    let (well', off') = Session-Between build kernel used few works well session in
    (off' off, bt_is_enabled-NotOn kernel reads build _ used few well' (off' off))
