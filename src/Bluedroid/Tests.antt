-- ===== src/Bluedroid/Tests.antt =====
-- Systems at which the theorems about bluedroid/bluetooth.c are applied, and runs on them.
use platform_system_bluetoot.Prelude.{
  ℕ, zero, suc, ◌+◌, ◌≤◌, ◌≡◌, refl, inl, true, false, some, none, [], ◌∷◌, arith, ◌==◌,
  if◌then◌else◌, Bytes, codes, ℤ, pos, is_neg, minus_one,
}
use platform_system_bluetoot.Bluedroid.Kernel.{
  null_path, type_path, state_path, open_rdonly, open_wronly, read_fd, hci_socket, dev_up, dev_info,
  property_set, Reply, History, Kernel, State, is_zero, Build,
}
use platform_system_bluetoot.Bluedroid.Rfkill.{
  init_rfkill, init_rfkill_from, is_bluetooth, set_bluetooth_power, ensure_rfkill, write_power, out,
}
use platform_system_bluetoot.Bluedroid.Enable.{
  power_down, set_hciattach, bring_up, power, bt_enable, bt_disable,
}
use platform_system_bluetoot.Bluedroid.Query.{bt_is_enabled}
use platform_system_bluetoot.Bluedroid.Runs.{Ensures}
use platform_system_bluetoot.Bluedroid.Descriptors.{FewSwitches, Balances}
use platform_system_bluetoot.Bluedroid.Balance.{
  ComesUp, bt_enable-Balances, bt_disable-Balances, bt_is_enabled-Balances,
}
use platform_system_bluetoot.Bluedroid.Faults.{
  Unresponsive, Powers, ClosesTwice, NoDaemon, bt_enable-ClosesTwice, bt_enable-NoDaemon,
}
use platform_system_bluetoot.Bluedroid.Switch.{Powered, SwitchWorks, last_write}
use platform_system_bluetoot.Bluedroid.Sessions.{
  disables, Session, starts, goes_on, NotOn, Session-SwitchedOff,
}
use platform_system_bluetoot.Bluedroid.Power.{
  LeavesPower, Disables, bt_enable-LeavesPower, bt_disable-Disables,
}
use platform_system_bluetoot.Bluedroid.Search.{Gives, Switches, Search, init_rfkill-Search}
use platform_system_bluetoot.Bluedroid.Status.{Status, bt_is_enabled-Status}
use platform_system_bluetoot.Bluedroid.Address.{ba2str, str2ba, str2ba-ba2str}

abbrev reply : ℤ → Reply
reply ret = record { ret = ret; errno = 0; got = []; flags = 0 }

abbrev reading : Bytes → ℕ → Reply
reading got n = record { ret = pos n; errno = 0; got = got; flags = 0 }

-- One rfkill switch, a Bluetooth one that is on, and a device that comes up at once.
abbrev fine : Kernel
fine h (open_rdonly (type_path zero)) = reply (pos 3)
fine h (open_rdonly (type_path (suc _))) = reply minus_one
fine h (open_rdonly (state_path _)) = reply (pos 4)
fine h (open_rdonly null_path) = reply minus_one
fine h (open_wronly _) = reply (pos 4)
fine h (read_fd _ n) = if n == 1 then reading (codes "1") 1 else reading (codes "bluetooth\n") 10
fine h hci_socket = reply (pos 5)
fine h (dev_info _) = record { ret = pos 0; errno = 0; got = []; flags = 1 }
fine h _ = reply (pos 0)

-- No switch, and a device that does not come up.
abbrev mute : Kernel
mute h (open_rdonly _) = reply minus_one
mute h hci_socket = reply (pos 5)
mute h (dev_up _) = record { ret = minus_one; errno = 19; got = []; flags = 0 }
mute h _ = reply (pos 0)

-- No switch, and the service bluetoothd cannot be started.
abbrev no_daemon : Kernel
no_daemon h (open_rdonly _) = reply minus_one
no_daemon h hci_socket = reply (pos 5)
no_daemon h (property_set _ (c ∷ d ∷ _)) = if d == b'l' then reply minus_one else reply (pos 0)
no_daemon h _ = reply (pos 0)

abbrev start : State
start = record { rfkill_id = minus_one; rfkill_state_path = null_path; history = [] }

abbrev with_rfkill : Build
with_rfkill = record { uses_rfkill = true; hciattach_using_property = false }

abbrev without_rfkill : Build
without_rfkill = record { uses_rfkill = false; hciattach_using_property = false }

fine-FewSwitches : FewSwitches fine 2
fine-FewSwitches = record { some_round = omega arith; no_more = go }
  where
    go :
        (h : History) (id : ℕ)
        → 2 ≤ id + 1
        → is_neg (fine h (open_rdonly (type_path id))).ret ≡ true
    go h zero few = absurd (omega arith)
    go h (suc id) few = refl

fine-ComesUp : ComesUp fine
unfolding bring_up
fine-ComesUp s = tt

-- What the type file of each switch holds.
abbrev type_files : ℕ → Bytes
type_files id = codes "bluetooth\n"

fine-Switches : Switches fine 1 type_files
fine-Switches = record { present = present; absent = absent; tells = tells }
  where
    present :
        (h : History) (id : ℕ)
        → suc id ≤ 1
        → is_neg (fine h (open_rdonly (type_path id))).ret ≡ false
    present h zero below = refl
    present h (suc id) below = absurd (omega arith)

    absent :
        (h : History) (id : ℕ) → 1 ≤ id → is_neg (fine h (open_rdonly (type_path id))).ret ≡ true
    absent h zero above = absurd (omega arith)
    absent h (suc id) above = refl

    tells :
        (h : History) (id : ℕ) (r : Reply)
        → suc id ≤ 1
        → Gives (type_files id) (fine ((open_rdonly (type_path id), r) ∷ h) (read_fd r.ret 16))
    tells h zero r below = (refl, refl)
    tells h (suc id) r below = absurd (omega arith)

few_switches :
    (kernel : Kernel)
    → ((h : History) (id : ℕ) → is_neg (kernel h (open_rdonly (type_path id))).ret ≡ true)
    → FewSwitches kernel 1
few_switches kernel none_there = record {
  some_round = omega arith;
  no_more = λ h id few. none_there h id;
}

mute-Unresponsive : Unresponsive mute 5
mute-Unresponsive = record {
  sets = λ h p v. refl;
  socket = λ h. refl;
  stays_down = λ h. refl;
  not_already = λ h. refl;
}

no_daemon-NoDaemon : NoDaemon no_daemon
no_daemon-NoDaemon = record {
  sets = λ h p. refl;
  sets_true = λ h. refl;
  socket = λ h. refl;
  comes_up = λ h sk. refl;
  no_bluetoothd = λ h. refl;
}

bt_enable-Balances_example : Balances 5 [] (bt_enable with_rfkill fine 2 start)
bt_enable-Balances_example =
    bt_enable-Balances with_rfkill fine start 5 fine-FewSwitches fine-ComesUp

bt_disable-Balances_example : Balances 5 [] (bt_disable with_rfkill fine 2 start)
bt_disable-Balances_example = bt_disable-Balances with_rfkill fine start 5 fine-FewSwitches

bt_is_enabled-Balances_example : Balances 4 [] (bt_is_enabled with_rfkill fine 2 start)
bt_is_enabled-Balances_example = bt_is_enabled-Balances with_rfkill fine start 4 fine-FewSwitches

no_power : (kernel : Kernel) → Powers without_rfkill kernel 1
unfolding power
no_power kernel s = refl

bt_enable-ClosesTwice_example :
    Ensures
      (λ ret s'. (is_zero ret ≡ false) × ClosesTwice 5 [] s'.history)
      (bt_enable without_rfkill mute 1 start)
bt_enable-ClosesTwice_example =
    bt_enable-ClosesTwice without_rfkill mute 5 start (few_switches mute (λ h id. refl))
      (no_power mute) mute-Unresponsive

bt_enable-NoDaemon_example :
    Ensures (λ ret _. ret ≡ pos 0) (bt_enable without_rfkill no_daemon 1 start)
bt_enable-NoDaemon_example =
    bt_enable-NoDaemon without_rfkill no_daemon start (few_switches no_daemon (λ h id. refl))
      (no_power no_daemon) no_daemon-NoDaemon

fine-SwitchWorks : SwitchWorks fine
fine-SwitchWorks = record { opens = λ h id. refl; writes = λ h fd b. refl }

bt_enable-LeavesPower_example : Ensures (LeavesPower start) (bt_enable with_rfkill fine 2 start)
bt_enable-LeavesPower_example =
    bt_enable-LeavesPower with_rfkill fine start refl fine-FewSwitches fine-SwitchWorks (inl refl)

bt_disable-Disables_example : Ensures (Disables start) (bt_disable with_rfkill fine 2 start)
bt_disable-Disables_example =
    bt_disable-Disables with_rfkill fine start refl fine-FewSwitches fine-SwitchWorks (inl refl)

-- A switch that works, and no HCI socket.
abbrev no_hci : Kernel
no_hci h hci_socket = reply minus_one
no_hci h _ = reply (pos 0)

abbrev found : State
found = record { rfkill_id = pos 0; rfkill_state_path = state_path 0; history = [] }

init_rfkill-Search_example : Ensures (Search 1 type_files start) (init_rfkill fine 2 start)
init_rfkill-Search_example = init_rfkill-Search fine 2 start fine-Switches (omega arith)

bt_is_enabled-Status_example : Ensures (Status with_rfkill) (bt_is_enabled with_rfkill fine 2 start)
bt_is_enabled-Status_example = bt_is_enabled-Status with_rfkill fine start fine-FewSwitches

abbrev six : Bytes
six = 0x01 ∷ 0x23 ∷ 0x45 ∷ 0x67 ∷ 0x89 ∷ 0xab ∷ []

str2ba-ba2str_example : str2ba (ba2str six) (0 ∷ 0 ∷ 0 ∷ 0 ∷ 0 ∷ 0 ∷ []) ≡ some six
str2ba-ba2str_example =
    str2ba-ba2str 0x01 0x23 0x45 0x67 0x89 0xab 0 0 0 0 0 0 (omega arith) (omega arith)
      (omega arith) (omega arith) (omega arith) (omega arith)

-- One rfkill switch that gives back what was written to it.
abbrev honest : Kernel
honest h (read_fd _ n) =
    if n == 1
    then record { ret = pos 1; errno = 0; got = last_write h; flags = 0 }
    else reading (codes "bluetooth\n") 10
honest h c = fine h c

honest-FewSwitches : FewSwitches honest 2
honest-FewSwitches = record { some_round = omega arith; no_more = fine-FewSwitches.no_more }

honest-SwitchWorks : SwitchWorks honest
honest-SwitchWorks = record { opens = λ h id. refl; writes = λ h fd b. refl }

abbrev disabled : State
disabled = elim (bt_disable with_rfkill honest 2 start) [ none ↦ start | some (_, s) ↦ s ]

session : Session with_rfkill honest 2 start ((disables, pos 0) ∷ []) disabled
unfolding bt_disable power_down set_hciattach power set_bluetooth_power ensure_rfkill init_rfkill
    init_rfkill_from is_bluetooth write_power out
session = goes_on disables starts refl

Session-SwitchedOff_example :
    Powered false disabled × Ensures NotOn (bt_is_enabled with_rfkill honest 2 disabled)
Session-SwitchedOff_example =
    Session-SwitchedOff with_rfkill honest refl honest-FewSwitches honest-SwitchWorks
      (λ h id same got. same) (inl refl) session refl
