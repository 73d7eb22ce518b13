-- ===== src/Bttest/Outcome.antt =====
-- What tools/bttest.c does to the power on a system where all goes well.
use platform_system_bluetoot.Prelude.{
  ℕ, ◌+◌, ◌≡◌, refl, Bool, true, false, if◌then◌else◌, not, ◌==◌, ℤ, pos, is_neg, Bytes, codes,
  minus_one, arith,
}
use platform_system_bluetoot.Libc.Chars.{equal}
use platform_system_bluetoot.Bluedroid.Kernel.{
  Property, ctl_start, ctl_stop, bluetooth_hciattach, property_set, usleep, hci_socket, dev_up,
  dev_down, History, Kernel, Build, State, pure,
}
use platform_system_bluetoot.Bluedroid.Runs.{Ensures, Ensures-bind, after}
use platform_system_bluetoot.Bluedroid.Rfkill.{out}
use platform_system_bluetoot.Bluedroid.Enable.{
  Outcome, no_socket, came_up, timed_out, bring_up, power, set_hciattach, start_bluetoothd,
  power_down, bt_enable, bt_disable,
}
use platform_system_bluetoot.Bluedroid.Query.{bt_is_enabled}
use platform_system_bluetoot.Bluedroid.Descriptors.{FewSwitches}
use platform_system_bluetoot.Bluedroid.Status.{Status, bt_is_enabled-Status}
use platform_system_bluetoot.Bluedroid.Switch.{Powered, Known, SwitchWorks, power-Powered}
use platform_system_bluetoot.Bttest.Main.{look_up, main}

-- Properties can be set, HCI sockets opened, and the device comes up at the first attempt.
pub record AllWell (kernel : Kernel) : Type 0 where
  pub sets :
      (h : History) (p : Property) (v : Bytes) → is_neg (kernel h (property_set p v)).ret ≡ false
  pub socket : (h : History) → is_neg (kernel h hci_socket).ret ≡ false
  pub comes_up : (h : History) (sk : ℤ) → (kernel h (dev_up sk)).ret ≡ pos 0

-- The function succeeded, and the last byte written to the switch says this of the power.
abbrev Switched : Bool → ℤ → State → Type 0
Switched on ret s = (ret ≡ pos 0) × Powered on s

abbrev CameUp : Outcome → State → Type 0
CameUp (came_up sk ret) s = Powered true s
CameUp _ s = ⊥

module _ (build : Build) (kernel : Kernel) (rounds : ℕ) (used : build.uses_rfkill ≡ true)
    (works : SwitchWorks kernel) (well : AllWell kernel) where
  set_hciattach-succeeds :
      (on : Bool) (s : State)
      → Known s
      → Ensures
          (λ r s'. (is_neg r ≡ false) × Known s' × (Powered true s → Powered true s'))
          (set_hciattach build kernel on s)
  unfolding set_hciattach
  set_hciattach-succeeds true s known = ground (
    arith,
    well.sets s.history ctl_start (codes "hciattach"),
    well.sets s.history bluetooth_hciattach (codes "true"),
  )
  set_hciattach-succeeds false s known = ground (
    arith,
    well.sets s.history ctl_stop (codes "hciattach"),
    well.sets s.history bluetooth_hciattach (codes "false"),
  )

  bring_up-CameUp :
      (attempt : ℕ) (sk ret : ℤ) (s : State)
      → Powered true s
      → Ensures CameUp (bring_up kernel (attempt + 1) sk ret s)
  unfolding bring_up
  bring_up-CameUp attempt sk ret s on =
      let opening = after kernel hci_socket s in
      ground (
        arith,
        well.socket s.history,
        well.comes_up opening.history (kernel s.history hci_socket).ret,
      )

  start_bluetoothd-Switched :
      (o : Outcome) (s : State)
      → CameUp o s
      → Ensures (Switched true) (start_bluetoothd build kernel rounds o s)
  unfolding start_bluetoothd out
  start_bluetoothd-Switched (no_socket sk ret) s up = absurd up
  start_bluetoothd-Switched (timed_out sk ret) s up = absurd up
  start_bluetoothd-Switched (came_up sk ret) s up =
      ground (arith, well.sets s.history ctl_start (codes "bluetoothd"))

  bt_enable-Switched :
      (s : State) → Known s → Ensures (Switched true) (bt_enable build kernel rounds s)
  unfolding bt_enable
  bt_enable-Switched s known =
      Ensures-bind (λ r s'. (r ≡ pos 0) × Known s' × Powered true s') (Switched true)
        (power build kernel rounds true s) _
        (power-Powered build kernel used works rounds true s known)
        λ powered s1 (e, known1, on). rw e (
          Ensures-bind (λ r s'. (is_neg r ≡ false) × Known s' × (Powered true s1 → Powered true s'))
            (Switched true) (set_hciattach build kernel true s1) _
            (set_hciattach-succeeds true s1 known1)
            λ started s2 (ok, known2, keeps). rw ok (
              Ensures-bind CameUp (Switched true) (bring_up kernel 100 minus_one minus_one s2) _
                (bring_up-CameUp 99 minus_one minus_one s2 (keeps on)) start_bluetoothd-Switched))

  power_down-Switched :
      (sk : ℤ) (s : State)
      → Known s
      → Ensures (Switched false) (power_down build kernel rounds sk s)
  unfolding power_down
  power_down-Switched sk s known =
      let down = after kernel (dev_down sk) s in
      Ensures-bind (λ r s'. (is_neg r ≡ false) × Known s' × (Powered true down → Powered true s'))
        (Switched false) (set_hciattach build kernel false down) _
        (set_hciattach-succeeds false down known)
        λ stopped s1 (ok, known1, keeps). rw ok (
          Ensures-bind (λ r s'. (r ≡ pos 0) × Known s' × Powered false s') (Switched false)
            (power build kernel rounds false s1) _
            (power-Powered build kernel used works rounds false s1 known1)
            (λ r s2 (e, known2, off). unfold out in rw e (ground arith)))

  bt_disable-Switched :
      (s : State) → Known s → Ensures (Switched false) (bt_disable build kernel rounds s)
  unfolding bt_disable
  bt_disable-Switched s known =
      let stopped = after kernel (property_set ctl_stop (codes "bluetoothd")) s in
      let slept = after kernel (usleep 500000) stopped in
      let sk : ℤ = (kernel slept.history hci_socket).ret in
      ground (
        arith,
        well.sets s.history ctl_stop (codes "bluetoothd"),
        well.socket slept.history,
        power_down-Switched sk (after kernel hci_socket slept),
      )

-- What the command `name` does to the state `s`.
abbrev pub Runs : Build → ℕ → Bytes → State → ℤ → State → Type 0
Runs build argc name s ret s' =
    if not (argc == 2)
    then (ret ≡ minus_one) × (s' ≡ s)
    else if equal name (codes "enable")
    then Switched true ret s'
    else if equal name (codes "disable")
    then Switched false ret s'
    else if equal name (codes "is_enabled")
    then Status build ret s'
    else (ret ≡ minus_one) × (s' ≡ s)

-- Where rfkill is used, on a system with fewer switches than rounds, whose switch has been found and
-- can be opened and written, where properties can be set and HCI sockets opened and the device comes
-- up at the first attempt: `bttest enable` returns 0 and has written '1' to the switch last,
-- `bttest disable` returns 0 and has written '0' last, `bttest is_enabled` returns -1, 0 or 1, and 1
-- only on the grounds of `bt_is_enabled`, and for another command or number of arguments nothing is
-- called and -1 is returned.
pub main-Runs :
    (build : Build) (kernel : Kernel) {rounds : ℕ} (argc : ℕ) (name : Bytes) (s : State)
    → build.uses_rfkill ≡ true
    → FewSwitches kernel rounds
    → SwitchWorks kernel
    → AllWell kernel
    → Known s
    → Ensures (Runs build argc name s) (main build kernel rounds argc name s)
unfolding main look_up
main-Runs build kernel {rounds} argc name s used few works well known =
    go (argc == 2) (equal name (codes "enable")) (equal name (codes "disable"))
      (equal name (codes "is_enabled"))
  where
    go :
        (two enable disable is_enabled : Bool)
        → Ensures
            (λ ret s'.
              if not two
              then (ret ≡ minus_one) × (s' ≡ s)
              else if enable
              then Switched true ret s'
              else if disable
              then Switched false ret s'
              else if is_enabled
              then Status build ret s'
              else (ret ≡ minus_one) × (s' ≡ s))
            (if not two
              then pure minus_one s
              else if enable
              then bt_enable build kernel rounds s
              else if disable
              then bt_disable build kernel rounds s
              else if is_enabled
              then bt_is_enabled build kernel rounds s
              else pure minus_one s)
    go false enable disable is_enabled = (refl, refl)
    go true true disable is_enabled = bt_enable-Switched build kernel rounds used works well s known
    go true false true is_enabled = bt_disable-Switched build kernel rounds used works well s known
    go true false false true = bt_is_enabled-Status build kernel s few
    go true false false false = (refl, refl)
