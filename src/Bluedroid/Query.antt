-- ===== src/Bluedroid/Query.antt =====
-- `bt_is_enabled`.
use platform_system_bluetoot.Prelude.{ℕ, ◌%◌, Bool, ◌||◌, ◌==◌, if◌then◌else◌, ℤ, pos, is_neg}
use platform_system_bluetoot.Bluedroid.Kernel.{
  dev_info, Kernel, M, pure, ◌>>=◌, call, unless_failed, branch, is_zero, is_minus_one, Build,
}
use platform_system_bluetoot.Bluedroid.Rfkill.{out, check_bluetooth_power}
use platform_system_bluetoot.Bluedroid.Enable.{create_hci_sock}

-- `flags & (1 << (HCI_UP & 31))`, where HCI_UP is 0
abbrev pub is_up : ℕ → Bool
is_up flags = flags % 2 == 1

-- The question to the HCI interface, once the power is known to be on.
unfoldable pub interface_is_up : Kernel → M ℤ
unfolding create_hci_sock out
interface_is_up kernel = do
  sk ← create_hci_sock kernel
  unless_failed sk do
    r ← call kernel (dev_info sk)
    out kernel sk (if is_neg r.ret then pos 0 else if is_up r.flags then pos 1 else pos 0)

unfoldable pub bt_is_enabled : Build → Kernel → ℕ → M ℤ
bt_is_enabled build kernel rounds =
    branch build.uses_rfkill
      (do
        ret ← check_bluetooth_power kernel rounds
        branch (is_minus_one ret || is_zero ret) (pure ret) (interface_is_up kernel))
      (interface_is_up kernel)
