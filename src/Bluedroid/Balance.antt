-- ===== src/Bluedroid/Balance.antt =====
-- The entry points of bluedroid/bluetooth.c close the descriptors that they open, with one
-- exception: `bt_enable` when its attempts are used up.
use platform_system_bluetoot.Prelude.{
  ℕ, zero, suc, Bool, true, false, ◌||◌, Option, none, some, arith, codes, is_neg, if◌then◌else◌, ℤ,
  pos, minus_one,
}
use platform_system_bluetoot.Bluedroid.Kernel.{
  hci_socket, dev_up, dev_down, close_fd, usleep, History, Kernel, State, ◌>>=◌, ctl_start,
  ctl_stop, property_set, is_minus_one, is_zero, Build,
}
use platform_system_bluetoot.Bluedroid.Runs.{Ensures, after}
use platform_system_bluetoot.Bluedroid.Rfkill.{out, check_bluetooth_power}
use platform_system_bluetoot.Bluedroid.Enable.{
  Outcome, no_socket, came_up, timed_out, bring_up, power, power_down, start_bluetoothd, bt_enable,
  bt_disable, set_hciattach,
}
use platform_system_bluetoot.Bluedroid.Query.{interface_is_up, bt_is_enabled}
use platform_system_bluetoot.Bluedroid.Descriptors.{
  FewSwitches, Keeps, Balances, out-Keeps, Keeps-Balances, Balances-bind, branch-Balances,
  unless_failed-Balances, check_bluetooth_power-Balances, set_bluetooth_power-Balances,
}

-- The descriptor that the code still holds when it leaves the retry loop.
abbrev held : Outcome → ℤ
held (no_socket hci_sock ret) = hci_sock
held (came_up hci_sock ret) = hci_sock
held (timed_out hci_sock ret) = minus_one

abbrev NotTimedOut : Outcome → Type 0
NotTimedOut (timed_out _ _) = ⊥
NotTimedOut _ = Unit

module _ (build : Build) (kernel : Kernel) (k : ℕ) (h : History) {rounds : ℕ}
    (few : FewSwitches kernel rounds) where
  pub power-Balances :
      (on : Bool) (s : State)
      → Keeps k minus_one h s.history
      → Balances k h (power build kernel rounds on s)
  unfolding power
  power-Balances on s e = ground (arith, set_bluetooth_power-Balances kernel k h few on s)

module _ (build : Build) (kernel : Kernel) (k : ℕ) (h : History) {rounds : ℕ}
    (few : FewSwitches kernel rounds) where
  pub power-Keeps :
      (on : Bool) (fd : ℤ) (s : State)
      → Keeps k fd h s.history
      → Ensures (λ _ s'. Keeps k fd h s'.history) (power build kernel rounds on s)
  power-Keeps on fd s e =
      Keeps-Balances kernel k h fd s.history (power build kernel rounds on s) e
        (power-Balances build kernel k s.history few on s (omega arith))

  interface_is_up-Balances :
      (s : State) → Keeps k minus_one h s.history → Balances k h (interface_is_up kernel s)
  unfolding interface_is_up
  interface_is_up-Balances s e = ground arith

  bring_up-Keeps :
      (attempt : ℕ) (hci_sock ret : ℤ) (s : State)
      → Keeps k minus_one h s.history
      → Ensures (λ o s'. Keeps k (held o) h s'.history) (bring_up kernel attempt hci_sock ret s)
  unfolding bring_up
  bring_up-Keeps zero hci_sock ret s e = e
  bring_up-Keeps (suc attempt) hci_sock ret s e =
      let opening = after kernel hci_socket s in
      let sk : ℤ = (kernel s.history hci_socket).ret in
      let asking = after kernel (dev_up sk) opening in
      let r : ℤ = (kernel opening.history (dev_up sk)).ret in
      let waiting = after kernel (usleep 100000) (after kernel (close_fd sk) asking) in
      ground (arith, bring_up-Keeps attempt sk r waiting)

  pub set_hciattach-Keeps :
      (on : Bool) (fd : ℤ) (s : State)
      → Keeps k fd h s.history
      → Ensures (λ _ s'. Keeps k fd h s'.history) (set_hciattach build kernel on s)
  unfolding set_hciattach
  set_hciattach-Keeps on fd s e = ground arith

  -- The power goes off, and the descriptor that is held is closed.
  power_off_out-Balances :
      (fd : ℤ) (ret : ℤ → ℤ) (s : State)
      → Keeps k fd h s.history
      → Balances k h ((power build kernel rounds false >>= λ r. out kernel fd (ret r)) s)
  power_off_out-Balances fd ret s e =
      Balances-bind kernel k h fd (power build kernel rounds false s) (λ r. out kernel fd (ret r))
        (power-Keeps false fd s e) (λ r s' e'. out-Keeps kernel k h fd (ret r) s' e')

  power_down-Balances :
      (sk : ℤ) (s : State)
      → Keeps k sk h s.history
      → Balances k h (power_down build kernel rounds sk s)
  unfolding power_down
  power_down-Balances sk s e =
      let down = after kernel (dev_down sk) s in
      Balances-bind kernel k h sk (set_hciattach build kernel false down) _
        (set_hciattach-Keeps false sk down (ground arith))
        λ stopped s' e'.
          branch-Balances kernel k h (is_neg stopped) _ _ s'
            (out-Keeps kernel k h sk minus_one s' e')
            (power_off_out-Balances sk (λ r. if is_neg r then minus_one else pos 0) s' e')

  start_bluetoothd-Balances :
      (o : Outcome) (s : State)
      → Keeps k (held o) h s.history
      → NotTimedOut o
      → Balances k h (start_bluetoothd build kernel rounds o s)
  unfolding start_bluetoothd
  start_bluetoothd-Balances (no_socket sk ret) s e there = out-Keeps kernel k h sk ret s e
  start_bluetoothd-Balances (timed_out sk ret) s e there = absurd there
  start_bluetoothd-Balances (came_up sk ret) s e there =
      let c = property_set ctl_start (codes "bluetoothd") in
      let asked = after kernel c s in
      branch-Balances kernel k h (is_neg (kernel s.history c).ret) _ _ asked
        (power_off_out-Balances sk (λ _. ret) asked (ground arith))
        (out-Keeps kernel k h sk (pos 0) asked (ground arith))

  start_bluetoothd_after-Balances :
      (r : Option (Outcome × State))
      → Ensures (λ o s. Keeps k (held o) h s.history) r
      → Ensures (λ o _. NotTimedOut o) r
      → Balances k h
          (elim r [ none ↦ none | some (o, s) ↦ start_bluetoothd build kernel rounds o s ])
  start_bluetoothd_after-Balances none e there = absurd e
  start_bluetoothd_after-Balances (some (o, s)) e there = start_bluetoothd-Balances o s e there

-- The retry loop of `bt_enable` is left before its hundred attempts are used up.
abbrev pub ComesUp : Kernel → Type 0
ComesUp kernel =
    (s : State) → Ensures (λ o _. NotTimedOut o) (bring_up kernel 100 minus_one minus_one s)

-- On a system with fewer rfkill switches than rounds, whatever it answers, and from every state,
-- `bt_enable` ends and closes each descriptor as often as it was opened, if its retry loop is
-- always left before the attempts are used up.
pub bt_enable-Balances :
    (build : Build) (kernel : Kernel) {rounds : ℕ} (s : State) (k : ℕ)
    → FewSwitches kernel rounds
    → ComesUp kernel
    → Balances k s.history (bt_enable build kernel rounds s)
unfolding bt_enable
bt_enable-Balances build kernel {rounds} s k few up =
    let h = s.history in
    Balances-bind kernel k h minus_one (power build kernel rounds true s) _
      (power-Balances build kernel k h few true s (omega arith))
      λ powered s1 e1. unless_failed-Balances kernel k h powered _ s1 e1 (
        Balances-bind kernel k h minus_one (set_hciattach build kernel true s1) _
          (set_hciattach-Keeps build kernel k h few true minus_one s1 e1)
          λ started s2 e2.
            branch-Balances kernel k h (is_neg started) _ _ s2
              (Balances-bind kernel k h minus_one (power build kernel rounds false s2) _
                (power-Balances build kernel k h few false s2 e2) (λ _ s3 e3. e3))
              (start_bluetoothd_after-Balances build kernel k h few
                (bring_up kernel 100 minus_one minus_one s2)
                (bring_up-Keeps build kernel k h few 100 minus_one minus_one s2 e2) (up s2)))

-- On a system with fewer rfkill switches than rounds, whatever it answers, and from every state,
-- `bt_disable` ends and closes each descriptor as often
-- as it was opened.
pub bt_disable-Balances :
    (build : Build) (kernel : Kernel) {rounds : ℕ} (s : State) (k : ℕ)
    → FewSwitches kernel rounds
    → Balances k s.history (bt_disable build kernel rounds s)
unfolding bt_disable
bt_disable-Balances build kernel {rounds} s k few =
    let c = property_set ctl_stop (codes "bluetoothd") in
    let s1 = after kernel (usleep 500000) (after kernel c s) in
    let sk : ℤ = (kernel s1.history hci_socket).ret in
    ground (arith, power_down-Balances build kernel k s.history few sk (after kernel hci_socket s1))

-- On a system with fewer rfkill switches than rounds, whatever it answers, and from every state,
-- `bt_is_enabled` ends and closes each descriptor as often
-- as it was opened.
pub bt_is_enabled-Balances :
    (build : Build) (kernel : Kernel) {rounds : ℕ} (s : State) (k : ℕ)
    → FewSwitches kernel rounds
    → Balances k s.history (bt_is_enabled build kernel rounds s)
unfolding bt_is_enabled
bt_is_enabled-Balances build kernel {rounds} s k few =
    let h = s.history in
    branch-Balances kernel k h build.uses_rfkill _ _ s
      (Balances-bind kernel k h minus_one (check_bluetooth_power kernel rounds s) _
        (check_bluetooth_power-Balances kernel k h few s (omega arith))
        λ ret s1 e1.
          branch-Balances kernel k h (is_minus_one ret || is_zero ret) _ _ s1 e1
            (interface_is_up-Balances build kernel k h few s1 e1))
      (interface_is_up-Balances build kernel k h few s (omega arith))
