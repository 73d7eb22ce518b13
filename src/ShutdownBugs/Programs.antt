-- ===== src/ShutdownBugs/Programs.antt =====
-- The functions `main` of the programs tools/sock_shutdown_bug_….c. `str2ba` is that of
-- bluedroid/bluetooth.c. What `connect`, `bind` and `listen` return is printed at most.
use platform_system_bluetoot.Prelude.{ℕ, none, some, ℤ, pos, Bytes, codes}
use platform_system_bluetoot.Bluedroid.Address.{str2ba}
use platform_system_bluetoot.ShutdownBugs.Calls.{
  l2, rc, inet, socket, get_flags, set_flags, connects, binds, listens, sleeps, shuts_down, closes,
  Kernel, M, ◌>>=◌, ◌>>◌, call, or_nonblock,
}

-- `str2ba(str, &addr.…)`, onto the uninitialised bytes `stack`
abbrev pub get_address : Bytes → Bytes → M Bytes
get_address str stack h = elim (str2ba str stack) [ none ↦ none | some ba ↦ some (ba, h) ]

-- `flags = fcntl(fd, F_GETFL); fcntl(fd, F_SETFL, flags | O_NONBLOCK);`
unfoldable pub set_nonblock : Kernel → ℤ → M ℤ
unfolding or_nonblock
set_nonblock kernel fd = do
  flags ← call kernel (get_flags fd)
  call kernel (set_flags fd (or_nonblock flags))

-- `main` of tools/sock_shutdown_bug_l2cap.c. The field `l2_cid` is not initialised: `cid` is what it
-- holds.
unfoldable pub main_l2cap : Kernel → Bytes → ℕ → M ℤ
unfolding set_nonblock
main_l2cap kernel stack cid = do
  bdaddr ← get_address (codes "00:01:02:0A:0B:0C") stack
  fd ← call kernel (socket 31 5 0)
  set_nonblock kernel fd
  call kernel (connects fd (l2 31 1 bdaddr cid))
  call kernel (sleeps 1)
  call kernel (shuts_down fd)
  call kernel (sleeps 1)
  call kernel (closes fd)
  (λ h. some (pos 0, h))

-- `main` of tools/sock_shutdown_bug_rfcomm.c
unfoldable pub main_rfcomm : Kernel → Bytes → M ℤ
unfolding set_nonblock
main_rfcomm kernel stack = do
  bdaddr ← get_address (codes "00:17:E8:2C:A8:00") stack
  fd ← call kernel (socket 31 1 3)
  set_nonblock kernel fd
  call kernel (connects fd (rc 31 bdaddr 19))
  call kernel (sleeps 2)
  call kernel (shuts_down fd)
  second ← call kernel (socket 31 1 3)
  call kernel (connects second (rc 31 bdaddr 19))
  call kernel (sleeps 2)
  call kernel (shuts_down second)
  call kernel (sleeps 2)
  (λ h. some (pos 0, h))

-- `main` of tools/sock_shutdown_bug_tcp.c. The field `sin_addr` is not initialised: `stack` is what
-- it holds.
unfoldable pub main_tcp : Kernel → ℕ → M ℤ
main_tcp kernel stack = do
  fd ← call kernel (socket 2 1 0)
  call kernel (binds fd (inet 2 12348 stack))
  call kernel (listens fd 1)
  call kernel (sleeps 2)
  call kernel (closes fd)
  call kernel (sleeps 2)
  second ← call kernel (socket 2 1 0)
  call kernel (binds second (inet 2 12348 stack))
  call kernel (sleeps 2000000000)
  (λ h. some (pos 0, h))
