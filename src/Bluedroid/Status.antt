-- ===== src/Bluedroid/Status.antt =====
-- What `bt_is_enabled` answers, and on what grounds.
use platform_system_bluetoot.Prelude.{
  ℕ, ◌≡◌, refl, true, false, ◌⊎◌, inl, inr, ◌||◌, ◌∷◌, arith, ℤ, pos, negsuc, is_neg, minus_one,
  Bytes,
}
use platform_system_bluetoot.Bluedroid.Kernel.{
  read_fd, close_fd, hci_socket, dev_info, History, Kernel, State, is_minus_one, is_zero, Build,
  pure, unless_failed, branch,
}
use platform_system_bluetoot.Bluedroid.Runs.{Ensures, Ensures-bind, branch-Ensures}
use platform_system_bluetoot.Bluedroid.Rfkill.{
  is_one, ensure_rfkill, read_power, check_bluetooth_power,
}
use platform_system_bluetoot.Bluedroid.Query.{is_up, interface_is_up, bt_is_enabled}
use platform_system_bluetoot.Bluedroid.Descriptors.{FewSwitches, Keeps, ensure_rfkill-Balances}

-- The last two calls read the byte '1' from the switch and closed it.
abbrev pub ReadOne : History → Type 0
ReadOne ((close_fd _, _) ∷ (read_fd _ _, r) ∷ _) =
    (is_one r.ret ≡ true) × (rest : Bytes) × (r.got ≡ b'1' ∷ rest)
ReadOne _ = ⊥

-- The last three calls opened a socket, learnt that the interface is up, and closed the socket.
-- Where rfkill is used, the byte '1' was read from the switch before.
abbrev pub AnsweredUp : Build → History → Type 0
AnsweredUp build ((close_fd _, _) ∷ (dev_info _, r) ∷ (hci_socket, _) ∷ h) =
    (is_neg r.ret ≡ false) × (is_up r.flags ≡ true) × ((build.uses_rfkill ≡ false) ⊎ ReadOne h)
AnsweredUp build _ = ⊥

abbrev pub Status : Build → ℤ → State → Type 0
Status build ret s =
    (ret ≡ minus_one) ⊎ (ret ≡ pos 0) ⊎ ((ret ≡ pos 1) × AnsweredUp build s.history)

read_power-ReadOne :
    (kernel : Kernel) (s : State)
    → Ensures
        (λ ret s'. (ret ≡ minus_one) ⊎ (ret ≡ pos 0) ⊎ ((ret ≡ pos 1) × ReadOne s'.history))
        (read_power kernel s)
unfolding read_power
read_power-ReadOne kernel s = ground arith

interface_is_up-Status :
    (build : Build) (kernel : Kernel) (s : State)
    → (build.uses_rfkill ≡ false) ⊎ ReadOne s.history
    → Ensures (Status build) (interface_is_up kernel s)
unfolding interface_is_up
interface_is_up-Status build kernel s on = ground arith

abbrev PowerRead : ℤ → State → Type 0
PowerRead ret s = (ret ≡ minus_one) ⊎ (ret ≡ pos 0) ⊎ ((ret ≡ pos 1) × ReadOne s.history)

unless_failed-PowerRead :
    (kernel : Kernel) (a : ℤ) (s : State)
    → Ensures PowerRead (unless_failed a (read_power kernel) s)
unless_failed-PowerRead kernel (pos n) s = read_power-ReadOne kernel s
unless_failed-PowerRead kernel (negsuc n) s = inl refl

check_bluetooth_power-PowerRead :
    (kernel : Kernel) {rounds : ℕ} (s : State)
    → FewSwitches kernel rounds
    → Ensures PowerRead (check_bluetooth_power kernel rounds s)
unfolding check_bluetooth_power
check_bluetooth_power-PowerRead kernel {rounds} s few =
    Ensures-bind (λ _ s'. Keeps 0 minus_one s.history s'.history) PowerRead
      (ensure_rfkill kernel rounds s) (λ a. unless_failed a (read_power kernel))
      (ensure_rfkill-Balances kernel 0 s.history few s (omega arith))
      (λ a s' e. unless_failed-PowerRead kernel a s')

-- On a system with fewer rfkill switches than rounds, `bt_is_enabled` ends with -1, 0 or 1. It says
-- 1 only if the interface was just reported to be up and, where rfkill is used, the byte '1' was
-- read from the switch before that.
pub bt_is_enabled-Status :
    (build : Build) (kernel : Kernel) {rounds : ℕ} (s : State)
    → FewSwitches kernel rounds
    → Ensures (Status build) (bt_is_enabled build kernel rounds s)
unfolding bt_is_enabled
bt_is_enabled-Status build kernel {rounds} s few =
    branch-Ensures (Status build) build.uses_rfkill _ (interface_is_up kernel) s
      (λ used.
        Ensures-bind PowerRead (Status build) (check_bluetooth_power kernel rounds s) _
          (check_bluetooth_power-PowerRead kernel s few) go)
      (λ unused. interface_is_up-Status build kernel s (inl unused))
  where
    go :
        (ret : ℤ) (s' : State)
        → PowerRead ret s'
        → Ensures
            (Status build)
            (branch (is_minus_one ret || is_zero ret) (pure ret) (interface_is_up kernel) s')
    go ret s' (inl e) = rw e (inl refl)
    go ret s' (inr (inl e)) = rw e (inr (inl refl))
    go ret s' (inr (inr (e, on))) = rw e (interface_is_up-Status build kernel s' (inr on))
