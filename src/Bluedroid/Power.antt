-- ===== src/Bluedroid/Power.antt =====
-- In which state bt_enable and bt_disable of bluedroid/bluetooth.c leave the power of the chip.
use platform_system_bluetoot.Prelude.{
  ℕ, zero, suc, ◌≡◌, refl, ◌⊎◌, inl, inr, true, false, ◌||◌, ◌==◌, ◌∷◌, arith, ℤ, pos, is_neg,
  minus_one, codes,
}
use platform_system_bluetoot.Bluedroid.Kernel.{
  ctl_start, ctl_stop, property_set, hci_socket, dev_up, dev_down, close_fd, usleep, History,
  Kernel, State, is_zero, Build, ◌>>=◌, branch, pure,
}
use platform_system_bluetoot.Bluedroid.Runs.{Ensures, Ensures-bind, branch-Ensures, after}
use platform_system_bluetoot.Bluedroid.Rfkill.{out}
use platform_system_bluetoot.Bluedroid.Enable.{
  Outcome, no_socket, came_up, timed_out, ealready, bring_up, power, set_hciattach,
  start_bluetoothd, power_down, bt_enable, bt_disable,
}
use platform_system_bluetoot.Bluedroid.Descriptors.{FewSwitches}
use platform_system_bluetoot.Bluedroid.Switch.{
  last_write, Powered, Known, WellFormed, SwitchWorks, Turned, power-Powered, power-Turned,
}

-- The last call asked for an HCI socket and got none.
abbrev pub NoSocket : History → Type 0
NoSocket ((hci_socket, r) ∷ _) = is_neg r.ret ≡ true
NoSocket _ = ⊥

-- The last call found the HCI device up.
abbrev IsUp : History → Type 0
IsUp ((dev_up _, r) ∷ _) = (is_zero r.ret || r.errno == ealready) ≡ true
IsUp _ = ⊥

-- The HCI device was found up, bluetoothd was started, and the socket was closed, with nothing
-- called in between or behind.
abbrev pub Started : History → Type 0
Started ((close_fd _, _) ∷ (property_set ctl_start name, r) ∷ (dev_up _, up) ∷ _) =
    (name ≡ codes "bluetoothd")
    × (is_neg r.ret ≡ false)
    × ((is_zero up.ret || up.errno == ealready) ≡ true)
Started _ = ⊥

-- Nothing was written and an error is returned, the chip is left without power, it is left with
-- power and bluetoothd runs, or it is left with power since no HCI socket could be opened.
abbrev pub LeavesPower : State → ℤ → State → Type 0
LeavesPower s ret s' =
    WellFormed s'
    × (((ret ≡ minus_one) × (last_write s'.history ≡ last_write s.history))
        ⊎ Powered false s'
        ⊎ (Powered true s' × (ret ≡ pos 0) × Started s'.history)
        ⊎ (Powered true s' × NoSocket s'.history))

-- How the retry loop is left.
abbrev Left : Outcome → State → Type 0
Left (no_socket sk ret) s = Known s × Powered true s × (is_neg sk ≡ true) × NoSocket s.history
Left (came_up sk ret) s = Known s × Powered true s × (is_neg sk ≡ false) × IsUp s.history
Left (timed_out sk ret) s = Known s

bring_up-Left :
    (kernel : Kernel) (attempt : ℕ) (sk ret : ℤ) (s : State)
    → Known s
    → Powered true s
    → Ensures Left (bring_up kernel attempt sk ret s)
unfolding bring_up
bring_up-Left kernel zero sk ret s known on = known
bring_up-Left kernel (suc attempt) sk ret s known on =
    let opening = after kernel hci_socket s in
    let fd : ℤ = (kernel s.history hci_socket).ret in
    let asking = after kernel (dev_up fd) opening in
    let r : ℤ = (kernel opening.history (dev_up fd)).ret in
    let waiting = after kernel (usleep 100000) (after kernel (close_fd fd) asking) in
    ground (arith, bring_up-Left kernel attempt fd r waiting)

module _ (build : Build) (kernel : Kernel) (used : build.uses_rfkill ≡ true)
    (works : SwitchWorks kernel) (s0 : State) where
  -- The power goes off, and the socket is closed.
  off_out-LeavesPower :
      (rounds : ℕ) (fd ret : ℤ) (s : State)
      → Known s
      → Ensures (LeavesPower s0) ((power build kernel rounds false >>= λ _. out kernel fd ret) s)
  off_out-LeavesPower rounds fd ret s known =
      Ensures-bind (λ r s'. (r ≡ pos 0) × Known s' × Powered false s') (LeavesPower s0)
        (power build kernel rounds false s) (λ _. out kernel fd ret)
        (power-Powered build kernel used works rounds false s known)
        (λ r s' (e, known', off). unfold out in ground arith)

  start_bluetoothd-LeavesPower :
      (rounds : ℕ) (o : Outcome) (s : State)
      → Left o s
      → Ensures (LeavesPower s0) (start_bluetoothd build kernel rounds o s)
  unfolding start_bluetoothd
  start_bluetoothd-LeavesPower rounds (no_socket sk ret) s (known, on, failed, asked) =
      unfold out in ground arith
  start_bluetoothd-LeavesPower rounds (timed_out sk ret) s known =
      off_out-LeavesPower rounds sk ret (after kernel (property_set ctl_stop (codes "hciattach")) s)
        known
  start_bluetoothd-LeavesPower rounds (came_up sk ret) s (known, on, there, up) =
      let asked = after kernel (property_set ctl_start (codes "bluetoothd")) s in
      let r = kernel s.history (property_set ctl_start (codes "bluetoothd")) in
      branch-Ensures (LeavesPower s0) (is_neg r.ret) _ _ asked
        (λ failed. off_out-LeavesPower rounds sk ret asked known)
        (λ started. unfold out in ground arith)

  -- What follows once the power is on.
  attach-LeavesPower :
      (rounds : ℕ) (s : State)
      → Known s
      → Powered true s
      → Ensures (LeavesPower s0) (
          (set_hciattach build kernel true >>= λ started.
          branch (is_neg started) (power build kernel rounds false >>= λ _. pure minus_one) (
            bring_up kernel 100 minus_one minus_one >>= λ o.
            start_bluetoothd build kernel rounds o))
            s)
  attach-LeavesPower rounds s known on =
      Ensures-bind (λ _ s'. Known s' × Powered true s') (LeavesPower s0)
        (set_hciattach build kernel true s) _ (unfold set_hciattach in ground arith)
        λ started s1 (known1, on1).
          branch-Ensures (LeavesPower s0) (is_neg started) _ _ s1
            (λ failed.
              Ensures-bind (λ r s'. (r ≡ pos 0) × Known s' × Powered false s') (LeavesPower s0)
                (power build kernel rounds false s1) _
                (power-Powered build kernel used works rounds false s1 known1)
                (λ r s2 (e, known2, off). (inr known2, inr (inl off))))
            (λ ok.
              Ensures-bind Left (LeavesPower s0) (bring_up kernel 100 minus_one minus_one s1) _
                (bring_up-Left kernel 100 minus_one minus_one s1 known1 on1)
                (start_bluetoothd-LeavesPower rounds))

-- Where rfkill is used, on a system with fewer switches than rounds whose switches can be opened and
-- written: from a state whose path is that of a found switch, or without a found switch, `bt_enable`
-- ends in such a state too. It returns -1 and has written nothing, or the last byte that it wrote is
-- '0', or that byte is '1', it returns 0, the HCI device was up and bluetoothd was started, or that
-- byte is '1' and the last call failed to open an HCI socket.
pub bt_enable-LeavesPower :
    (build : Build) (kernel : Kernel) {rounds : ℕ} (s : State)
    → build.uses_rfkill ≡ true
    → FewSwitches kernel rounds
    → SwitchWorks kernel
    → WellFormed s
    → Ensures (LeavesPower s) (bt_enable build kernel rounds s)
unfolding bt_enable
bt_enable-LeavesPower build kernel {rounds} s used few works well =
    Ensures-bind (Turned true s) (LeavesPower s) (power build kernel rounds true s) _
      (power-Turned build kernel used works few true s well)
      λ powered s1 turned. elim turned [
        | inl (e, well1, same) ↦ rw e (well1, inl (refl, same))
        | inr (e, known, on) ↦
            rw e (attach-LeavesPower build kernel used works s rounds s1 known on)
      ]

-- An error is returned and nothing was written, or 0 is returned and the chip is without power.
abbrev pub Disables : State → ℤ → State → Type 0
Disables s ret s' =
    WellFormed s'
    × (((ret ≡ minus_one) × (last_write s'.history ≡ last_write s.history))
        ⊎ ((ret ≡ pos 0) × Powered false s'))

-- Nothing was written.
abbrev Same : State → ℤ → State → Type 0
Same s _ s' = WellFormed s' × (last_write s'.history ≡ last_write s.history)

module _ (build : Build) (kernel : Kernel) {rounds : ℕ} (used : build.uses_rfkill ≡ true)
    (few : FewSwitches kernel rounds) (works : SwitchWorks kernel) (s0 : State) where
  power_down-Disables :
      (sk : ℤ) (s : State)
      → WellFormed s
      → last_write s.history ≡ last_write s0.history
      → Ensures (Disables s0) (power_down build kernel rounds sk s)
  unfolding power_down
  power_down-Disables sk s well same =
      let down = after kernel (dev_down sk) s in
      Ensures-bind (Same s0) (Disables s0) (set_hciattach build kernel false down) _
        (unfold set_hciattach in ground arith)
        λ stopped s1 (well1, same1).
          branch-Ensures (Disables s0) (is_neg stopped) (out kernel sk minus_one) _ s1
            (λ failed. unfold out in ground arith)
            (λ ok.
              Ensures-bind (Turned false s1) (Disables s0) (power build kernel rounds false s1) _
                (power-Turned build kernel used works few false s1 well1)
                (λ r s2 turned. elim turned [
                  | inl (e, well2, same2) ↦ unfold out in rw e (ground arith)
                  | inr (e, known2, off) ↦ unfold out in rw e (ground arith)
                ]))

-- Where rfkill is used, on a system with fewer switches than rounds whose switches can be opened and
-- written: from a state whose path is that of a found switch, or without a found switch, `bt_disable`
-- ends in such a state too. It returns -1 and has written nothing, or it returns 0 and the last byte
-- that it wrote is '0'.
pub bt_disable-Disables :
    (build : Build) (kernel : Kernel) {rounds : ℕ} (s : State)
    → build.uses_rfkill ≡ true
    → FewSwitches kernel rounds
    → SwitchWorks kernel
    → WellFormed s
    → Ensures (Disables s) (bt_disable build kernel rounds s)
unfolding bt_disable
bt_disable-Disables build kernel {rounds} s used few works well =
    let c = property_set ctl_stop (codes "bluetoothd") in
    let s1 = after kernel (usleep 500000) (after kernel c s) in
    let sk : ℤ = (kernel s1.history hci_socket).ret in
    ground
      (arith, power_down-Disables build kernel used few works s sk (after kernel hci_socket s1))
