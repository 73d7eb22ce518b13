-- ===== src/Bluedroid/Rfkill.antt =====
-- The rfkill switch: `init_rfkill`, `check_bluetooth_power`, `set_bluetooth_power`.
use platform_system_bluetoot.Prelude.{
  ℕ, zero, suc, ◌+◌, Bool, false, ◌&&◌, none, [], ◌∷◌, ◌==◌, leb, if◌then◌else◌, Bytes, codes, ℤ,
  pos, negsuc, is_neg, minus_one, take,
}
use platform_system_bluetoot.Libc.Chars.{equal}
use platform_system_bluetoot.Bluedroid.Kernel.{
  type_path, state_path, open_rdonly, open_wronly, read_fd, write_fd, close_fd, Reply, Kernel, M,
  pure, ◌>>=◌, ◌>>◌, call, unless_failed, branch, is_minus_one,
}

-- `sz >= 9 && memcmp(buf, "bluetooth", 9) == 0`
unfoldable pub is_bluetooth : Reply → Bool
unfolding equal
is_bluetooth r = at_least_nine r.ret && equal (take 9 r.got) (codes "bluetooth")
  where
    at_least_nine : ℤ → Bool
    at_least_nine (pos n) = leb 9 n
    at_least_nine (negsuc n) = false

-- `if (fd >= 0) close(fd)` at the label `out`, and the return of `ret`
unfoldable pub out : Kernel → ℤ → ℤ → M ℤ
out kernel fd ret = branch (is_neg fd) (pure ret) (call kernel (close_fd fd) >> pure ret)

-- `rfkill_id = id` and the assignment of `rfkill_state_path`
abbrev set_rfkill : ℕ → M ℤ
set_rfkill id s = pure (pos 0) (record s { rfkill_id = pos id; rfkill_state_path = state_path id })

-- The search from the switch `id` on. It stops at the first one that cannot be opened.
unfoldable pub init_rfkill_from : Kernel → ℕ → ℕ → M ℤ
init_rfkill_from kernel zero id = λ _. none
init_rfkill_from kernel (suc rounds) id = do
  fd ← call kernel (open_rdonly (type_path id))
  unless_failed fd.ret do
    sz ← call kernel (read_fd fd.ret 16)
    call kernel (close_fd fd.ret)
    branch (is_bluetooth sz) (set_rfkill id) (init_rfkill_from kernel rounds (id + 1))

unfoldable pub init_rfkill : Kernel → ℕ → M ℤ
init_rfkill kernel rounds = init_rfkill_from kernel rounds 0

-- `if (rfkill_id == -1) { if (init_rfkill()) goto out; }`: 0 if the code goes on.
unfoldable pub ensure_rfkill : Kernel → ℕ → M ℤ
ensure_rfkill kernel rounds s =
    branch (is_minus_one s.rfkill_id) (init_rfkill kernel rounds) (pure (pos 0)) s

-- The switch on the byte read.
abbrev pub power_of : Bytes → ℤ
power_of [] = minus_one
power_of (c ∷ _) = if c == b'1' then pos 1 else if c == b'0' then pos 0 else minus_one

abbrev pub is_one : ℤ → Bool
is_one (pos n) = n == 1
is_one (negsuc n) = false

-- `check_bluetooth_power` once the switch is known.
unfoldable pub read_power : Kernel → M ℤ
unfolding out
read_power kernel s =
    (do
      fd ← call kernel (open_rdonly s.rfkill_state_path)
      unless_failed fd.ret do
        sz ← call kernel (read_fd fd.ret 1)
        out kernel fd.ret (if is_one sz.ret then power_of sz.got else minus_one))
      s

unfoldable pub check_bluetooth_power : Kernel → ℕ → M ℤ
check_bluetooth_power kernel rounds = do
  found ← ensure_rfkill kernel rounds
  unless_failed found (read_power kernel)

-- `set_bluetooth_power` once the switch is known.
unfoldable pub write_power : Kernel → Bool → M ℤ
unfolding out
write_power kernel on s =
    (do
      fd ← call kernel (open_wronly s.rfkill_state_path)
      unless_failed fd.ret do
        sz ← call kernel (write_fd fd.ret ((if on then b'1' else b'0') ∷ []))
        out kernel fd.ret (if is_neg sz.ret then minus_one else pos 0))
      s

unfoldable pub set_bluetooth_power : Kernel → ℕ → Bool → M ℤ
set_bluetooth_power kernel rounds on = do
  found ← ensure_rfkill kernel rounds
  unless_failed found (write_power kernel on)
