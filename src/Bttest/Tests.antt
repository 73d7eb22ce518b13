-- ===== src/Bttest/Tests.antt =====
-- A system at which the theorem about tools/bttest.c is applied.
use platform_system_bluetoot.Prelude.{
  ℕ, zero, suc, ◌+◌, ◌≡◌, ◌≤◌, refl, true, [], codes, ℤ, pos, minus_one, is_neg, arith,
}
use platform_system_bluetoot.Bluedroid.Kernel.{
  type_path, state_path, open_rdonly, open_wronly, hci_socket, Reply, History, Kernel, State, Build,
}
use platform_system_bluetoot.Bluedroid.Runs.{Ensures}
use platform_system_bluetoot.Bluedroid.Descriptors.{FewSwitches}
use platform_system_bluetoot.Bluedroid.Switch.{SwitchWorks}
use platform_system_bluetoot.Bttest.Main.{main}
use platform_system_bluetoot.Bttest.Outcome.{AllWell, Runs, main-Runs}

abbrev reply : ℤ → Reply
reply ret = record { ret = ret; errno = 0; got = []; flags = 1 }

-- One rfkill switch, and a device that comes up at once.
abbrev plain : Kernel
plain h (open_rdonly (type_path zero)) = reply (pos 3)
plain h (open_rdonly (type_path (suc _))) = reply minus_one
plain h (open_wronly _) = reply (pos 4)
plain h hci_socket = reply (pos 5)
plain h _ = reply (pos 0)

abbrev build : Build
build = record { uses_rfkill = true; hciattach_using_property = true }

-- The switch has been found.
abbrev begin : State
begin = record { rfkill_id = pos 0; rfkill_state_path = state_path 0; history = [] }

plain-FewSwitches : FewSwitches plain 2
plain-FewSwitches = record { some_round = omega arith; no_more = go }
  where
    go :
        (h : History) (id : ℕ)
        → 2 ≤ id + 1
        → is_neg (plain h (open_rdonly (type_path id))).ret ≡ true
    go h zero few = absurd (omega arith)
    go h (suc id) few = refl

plain-SwitchWorks : SwitchWorks plain
plain-SwitchWorks = record { opens = λ h id. refl; writes = λ h fd b. refl }

plain-AllWell : AllWell plain
plain-AllWell = record { sets = λ h p v. refl; socket = λ h. refl; comes_up = λ h sk. refl }

main-Runs_example :
    Ensures (Runs build 2 (codes "disable") begin) (main build plain 2 2 (codes "disable") begin)
main-Runs_example =
    main-Runs build plain 2 (codes "disable") begin refl plain-FewSwitches plain-SwitchWorks
      plain-AllWell (0, refl, refl)
