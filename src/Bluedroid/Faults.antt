-- ===== src/Bluedroid/Faults.antt =====
-- What `bt_enable` does when the HCI device does not come up, and when bluetoothd cannot be started.
use platform_system_bluetoot.Prelude.{
  ℕ, zero, suc, ◌+◌, ◌≡◌, true, false, arith, ◌==◌, codes, ℤ, pos, is_neg, minus_one, Bytes,
}
use platform_system_bluetoot.Bluedroid.Kernel.{
  Property, ctl_start, ctl_stop, bluetooth_hciattach, hci_socket, dev_up, close_fd, property_set,
  usleep, History, Kernel, State, is_zero, Build,
}
use platform_system_bluetoot.Bluedroid.Runs.{
  Ensures, after, Ensures-bind, Ensures-and, unless_failed-Ensures,
}
use platform_system_bluetoot.Bluedroid.Rfkill.{out}
use platform_system_bluetoot.Bluedroid.Enable.{
  Outcome, no_socket, came_up, timed_out, ealready, bring_up, power, set_hciattach,
  start_bluetoothd, bt_enable,
}
use platform_system_bluetoot.Bluedroid.Descriptors.{FewSwitches, Keeps, opened, closed}
use platform_system_bluetoot.Bluedroid.Balance.{power-Balances, power-Keeps}

-- Properties can be set and HCI sockets opened, with the number `n`, but the device never comes
-- up, and not because it is up already.
pub record Unresponsive (kernel : Kernel) (n : ℕ) : Type 0 where
  pub sets :
      (h : History) (p : Property) (v : Bytes) → is_neg (kernel h (property_set p v)).ret ≡ false
  pub socket : (h : History) → (kernel h hci_socket).ret ≡ pos n
  pub stays_down : (h : History) → is_zero (kernel h (dev_up (pos n))).ret ≡ false
  pub not_already : (h : History) → ((kernel h (dev_up (pos n))).errno == ealready) ≡ false

abbrev pub Powers : Build → Kernel → ℕ → Type 0
Powers build kernel rounds =
    (s : State) → Ensures (λ r _. is_neg r ≡ false) (power build kernel rounds true s)

-- From `h` to `h'` the descriptor `n` was closed once more than it was opened.
abbrev pub ClosesTwice : ℕ → History → History → Type 0
ClosesTwice n h h' = closed n h' + opened n h ≡ opened n h' + closed n h + 1

abbrev GaveUp : ℕ → History → Outcome → State → Type 0
GaveUp n h (timed_out sk ret) s =
    (sk ≡ pos n) × (is_zero ret ≡ false) × Keeps n minus_one h s.history
GaveUp n h _ s = ⊥

module _ (build : Build) (kernel : Kernel) (n : ℕ) (u : Unresponsive kernel n) (h : History) where
  bring_up-GaveUp :
      (attempt : ℕ) (sk ret : ℤ) (s : State)
      → Keeps n minus_one h s.history
      → Ensures (GaveUp n h) (bring_up kernel (suc attempt) sk ret s)
  unfolding bring_up
  bring_up-GaveUp zero sk ret s e =
      let opening = after kernel hci_socket s in
      ground
        (arith, u.socket s.history, u.stays_down opening.history, u.not_already opening.history)
  bring_up-GaveUp (suc attempt) sk ret s e =
      let opening = after kernel hci_socket s in
      let asking = after kernel (dev_up (pos n)) opening in
      let r : ℤ = (kernel opening.history (dev_up (pos n))).ret in
      let waiting = after kernel (usleep 100000) (after kernel (close_fd (pos n)) asking) in
      ground (
        arith,
        u.socket s.history,
        u.stays_down opening.history,
        u.not_already opening.history,
        bring_up-GaveUp attempt (pos n) r waiting,
      )

  -- What follows the loop: the socket is closed again, and the value returned is not 0.
  GaveUp-ClosesTwice :
      {rounds : ℕ} (few : FewSwitches kernel rounds) (o : Outcome) (s : State)
      → GaveUp n h o s
      → Ensures
          (λ ret s'. (is_zero ret ≡ false) × ClosesTwice n h s'.history)
          (start_bluetoothd build kernel rounds o s)
  unfolding start_bluetoothd
  GaveUp-ClosesTwice few (no_socket sk ret) s g = absurd g
  GaveUp-ClosesTwice few (came_up sk ret) s g = absurd g
  GaveUp-ClosesTwice {rounds} few (timed_out sk ret) s g =
      let stopped = after kernel (property_set ctl_stop (codes "hciattach")) s in
      Ensures-bind (λ _ s'. Keeps n minus_one h s'.history)
        (λ r s'. (is_zero r ≡ false) × ClosesTwice n h s'.history)
        (power build kernel rounds false stopped) (λ _. out kernel sk ret)
        (power-Keeps build kernel n h few false minus_one stopped (ground arith))
        (λ a s' e. unfold out in ground arith)

-- On a system with fewer rfkill switches than rounds, if the power can be switched on, every property
-- can be set, every HCI socket that is opened has the number `n`, and the device never comes up and is
-- not reported to be up already, then `bt_enable` ends with a value other than 0, and closes the
-- number `n` once more than it was opened.
pub bt_enable-ClosesTwice :
    (build : Build) (kernel : Kernel) (n : ℕ) {rounds : ℕ} (s : State)
    → FewSwitches kernel rounds
    → Powers build kernel rounds
    → Unresponsive kernel n
    → Ensures
        (λ ret s'. (is_zero ret ≡ false) × ClosesTwice n s.history s'.history)
        (bt_enable build kernel rounds s)
unfolding bt_enable
bt_enable-ClosesTwice build kernel n {rounds} s few powers u =
    let h = s.history in
    let Q : ℤ → State → Type 0 = λ ret s'. (is_zero ret ≡ false) × ClosesTwice n h s'.history in
    let Kept : ℤ → State → Type 0 = λ _ s'. Keeps n minus_one h s'.history in
    let Ok : ℤ → State → Type 0 = λ r s'. (is_neg r ≡ false) × Keeps n minus_one h s'.history in
    Ensures-bind Ok Q (power build kernel rounds true s) _
      (Ensures-and (λ r _. is_neg r ≡ false) Kept _ (powers s)
        (power-Balances build kernel n h few true s (omega arith)))
      λ powered s1 (on, e1). unless_failed-Ensures Q powered _ s1 on (
        Ensures-bind Ok Q (set_hciattach build kernel true s1) _
          (unfold set_hciattach in
            ground (
              arith,
              u.sets s1.history ctl_start (codes "hciattach"),
              u.sets s1.history bluetooth_hciattach (codes "true"),
            ))
          λ started s2 (ok, e2). rw ok (
            Ensures-bind (GaveUp n h) Q (bring_up kernel 100 minus_one minus_one s2) _
              (bring_up-GaveUp build kernel n u h 99 minus_one minus_one s2 e2)
              (GaveUp-ClosesTwice build kernel n u h few)))

-- hciattach and HCI sockets work, the `ioctl` that brings the device up returns 0, and the service
-- bluetoothd cannot be started.
pub record NoDaemon (kernel : Kernel) : Type 0 where
  pub sets :
      (h : History) (p : Property)
      → is_neg (kernel h (property_set p (codes "hciattach"))).ret ≡ false
  pub sets_true :
      (h : History)
      → is_neg (kernel h (property_set bluetooth_hciattach (codes "true"))).ret ≡ false
  pub socket : (h : History) → is_neg (kernel h hci_socket).ret ≡ false
  pub comes_up : (h : History) (sk : ℤ) → (kernel h (dev_up sk)).ret ≡ pos 0
  pub no_bluetoothd :
      (h : History) → is_neg (kernel h (property_set ctl_start (codes "bluetoothd"))).ret ≡ true

abbrev CameUp : Outcome → State → Type 0
CameUp (came_up sk ret) s = ret ≡ pos 0
CameUp _ s = ⊥

module _ (build : Build) (kernel : Kernel) (d : NoDaemon kernel) where
  bring_up-CameUp :
      (attempt : ℕ) (sk ret : ℤ) (s : State)
      → Ensures CameUp (bring_up kernel (suc attempt) sk ret s)
  unfolding bring_up
  bring_up-CameUp attempt sk ret s =
      let opening = after kernel hci_socket s in
      ground
        (arith, d.socket s.history, d.comes_up opening.history (kernel s.history hci_socket).ret)

  CameUp-ret :
      {rounds : ℕ} (few : FewSwitches kernel rounds) (o : Outcome) (s : State)
      → CameUp o s
      → Ensures (λ ret _. ret ≡ pos 0) (start_bluetoothd build kernel rounds o s)
  unfolding start_bluetoothd
  CameUp-ret few (no_socket sk ret) s up = absurd up
  CameUp-ret few (timed_out sk ret) s up = absurd up
  CameUp-ret {rounds} few (came_up sk ret) s up =
      let asked = after kernel (property_set ctl_start (codes "bluetoothd")) s in
      rw (d.no_bluetoothd s.history) (
        Ensures-bind (λ _ s'. Keeps 0 minus_one asked.history s'.history) (λ r _. r ≡ pos 0)
          (power build kernel rounds false asked) (λ _. out kernel sk ret)
          (power-Balances build kernel 0 asked.history few false asked (omega arith))
          (λ a s' e. unfold out in ground arith))

-- On a system with fewer rfkill switches than rounds, if the power can be switched on, the properties
-- for hciattach can be set, HCI sockets can be opened, the `ioctl` that brings the device up returns 0
-- at the first attempt, and bluetoothd cannot be started, then `bt_enable` ends with the value 0,
-- which stands for success.
pub bt_enable-NoDaemon :
    (build : Build) (kernel : Kernel) {rounds : ℕ} (s : State)
    → FewSwitches kernel rounds
    → Powers build kernel rounds
    → NoDaemon kernel
    → Ensures (λ ret _. ret ≡ pos 0) (bt_enable build kernel rounds s)
unfolding bt_enable
bt_enable-NoDaemon build kernel {rounds} s few powers d =
    let Q : ℤ → State → Type 0 = λ ret s'. ret ≡ pos 0 in
    let Ok : ℤ → State → Type 0 = λ r s'. is_neg r ≡ false in
    Ensures-bind Ok Q (power build kernel rounds true s) _ (powers s) λ powered s1 on.
      unless_failed-Ensures Q powered _ s1 on (
        Ensures-bind Ok Q (set_hciattach build kernel true s1) _
          (unfold set_hciattach in
            ground (arith, d.sets s1.history ctl_start, d.sets_true s1.history))
          λ started s2 ok. rw ok (
            Ensures-bind CameUp Q (bring_up kernel 100 minus_one minus_one s2) _
              (bring_up-CameUp build kernel d 99 minus_one minus_one s2)
              (CameUp-ret build kernel d few)))
