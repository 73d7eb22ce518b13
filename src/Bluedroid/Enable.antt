-- ===== src/Bluedroid/Enable.antt =====
-- `bt_enable` and `bt_disable`.
use platform_system_bluetoot.Prelude.{
  ℕ, zero, suc, ◌*◌, Bool, true, false, ◌||◌, ◌==◌, if◌then◌else◌, codes, ℤ, pos, is_neg, minus_one,
}
use platform_system_bluetoot.Bluedroid.Kernel.{
  ctl_start, ctl_stop, bluetooth_hciattach, hci_socket, dev_up, dev_down, close_fd, property_set,
  usleep, Kernel, M, pure, ◌>>=◌, ◌>>◌, call, unless_failed, branch, is_zero, Build,
}
use platform_system_bluetoot.Bluedroid.Rfkill.{out, set_bluetooth_power}

-- `errno` of a device that is up already
abbrev pub ealready : ℕ
ealready = 114

unfoldable pub create_hci_sock : Kernel → M ℤ
create_hci_sock kernel = do sk ← call kernel hci_socket; pure sk.ret

-- How the retry loop is left, with `hci_sock` and `ret`: by `goto out` with no socket, by `break`,
-- or with no attempts left.
pub data Outcome : Type 0 where
  no_socket came_up timed_out : ℤ → ℤ → Outcome

-- The loop with `attempt` rounds left.
unfoldable pub bring_up : Kernel → ℕ → ℤ → ℤ → M Outcome
unfolding create_hci_sock
bring_up kernel zero hci_sock ret = pure (timed_out hci_sock ret)
bring_up kernel (suc attempt) hci_sock ret = do
  sk ← create_hci_sock kernel
  branch (is_neg sk) (pure (no_socket sk ret)) do
    r ← call kernel (dev_up sk)
    branch (is_zero r.ret || r.errno == ealready) (pure (came_up sk r.ret)) do
      call kernel (close_fd sk)
      call kernel (usleep (100 * 1000))
      bring_up kernel attempt sk r.ret

-- A power switch under `#ifndef BLUETOOTH_DOES_NOT_USE_RFKILL`; 0 where rfkill is not used.
unfoldable pub power : Build → Kernel → ℕ → Bool → M ℤ
power build kernel rounds on =
    branch build.uses_rfkill (set_bluetooth_power kernel rounds on) (pure (pos 0))

-- The call that starts or stops hciattach, under `#ifndef BLUETOOTH_HCIATTACH_USING_PROPERTY`.
unfoldable pub set_hciattach : Build → Kernel → Bool → M ℤ
set_hciattach build kernel on = do
  r ← call kernel (
      if build.hciattach_using_property
      then property_set bluetooth_hciattach (if on then codes "true" else codes "false")
      else property_set (if on then ctl_start else ctl_stop) (codes "hciattach"))
  pure r.ret

-- What follows the retry loop, up to the return.
unfoldable pub start_bluetoothd : Build → Kernel → ℕ → Outcome → M ℤ
start_bluetoothd build kernel rounds (no_socket hci_sock ret) = out kernel hci_sock ret
start_bluetoothd build kernel rounds (timed_out hci_sock ret) = do
  call kernel (property_set ctl_stop (codes "hciattach"))
  power build kernel rounds false
  out kernel hci_sock ret
start_bluetoothd build kernel rounds (came_up hci_sock ret) = do
  r ← call kernel (property_set ctl_start (codes "bluetoothd"))
  branch (is_neg r.ret) (do power build kernel rounds false; out kernel hci_sock ret)
      (out kernel hci_sock (pos 0))

unfoldable pub bt_enable : Build → Kernel → ℕ → M ℤ
bt_enable build kernel rounds = do
  powered ← power build kernel rounds true
  unless_failed powered do
    started ← set_hciattach build kernel true
    branch (is_neg started) (do power build kernel rounds false; pure minus_one)
        (do up ← bring_up kernel 100 minus_one minus_one; start_bluetoothd build kernel rounds up)

-- The end of `bt_disable`, with the socket open.
unfoldable pub power_down : Build → Kernel → ℕ → ℤ → M ℤ
power_down build kernel rounds hci_sock = do
  call kernel (dev_down hci_sock)
  stopped ← set_hciattach build kernel false
  branch (is_neg stopped) (out kernel hci_sock minus_one) do
    powered ← power build kernel rounds false
    out kernel hci_sock (if is_neg powered then minus_one else pos 0)

unfoldable pub bt_disable : Build → Kernel → ℕ → M ℤ
unfolding create_hci_sock
bt_disable build kernel rounds = do
  stopped ← call kernel (property_set ctl_stop (codes "bluetoothd"))
  unless_failed stopped.ret do
    call kernel (usleep 500000)
    sk ← create_hci_sock kernel
    unless_failed sk (power_down build kernel rounds sk)
