-- ===== src/Patchram/Outcome.antt =====
-- How `main` ends.
use platform_system_bluetoot.Prelude.{
  ℕ, zero, suc, ◌≡◌, refl, false, Option, none, some, if◌then◌else◌, Bytes, is_neg,
}
use platform_system_bluetoot.Patchram.Globals.{Globals, initial}
use platform_system_bluetoot.Patchram.Options.{Parsed, returned, exits, parse_cmd_line}
use platform_system_bluetoot.Patchram.Device.{Device, done, pure, ◌>>◌}
use platform_system_bluetoot.Patchram.Ready.{Ready}
use platform_system_bluetoot.Patchram.Failures.{
  command_failure, Settles, parse_cmd_line-Settles, read_default_bdaddr-closed,
}
use platform_system_bluetoot.Patchram.Main.{
  exited, sleeps, Start, read_default_bdaddr, configure, go_on, main,
}

-- What the command line makes of the variables.
abbrev pub parsed : Start → Parsed
parsed s =
    parse_cmd_line s.system s.stack s.arguments s.port
      (read_default_bdaddr s.default_bdaddr s.default_stack initial)

-- `main` leaves with the code of `fail`, and nothing is sent to the chip or read from it; without
-- one it goes on with what the command line says, and with the port that was opened.
abbrev pub Decides : Option ℕ → Start → Device → Type 0
Decides (some code) s d = main s d ≡ done (exited code) d
Decides none s d =
    (path : Bytes) × (g : Globals) × (s.port ≡ some path)
    × (parsed s ≡ returned 0 g)
    × (g.uart_fd ≡ s.system.open_uart path)
    × (is_neg g.uart_fd ≡ false)
    × (main s d
        ≡ (configure s.has_discipline g >> pure (if g.enable_hci then sleeps else exited 0)) d)

-- For every command line and device: `main` exits with 3 to 5 if the first option that cannot be
-- used is a firmware file without a suffix, with another suffix than `hcd` or that cannot be opened,
-- with 1 if that option has too few numbers or a time that is not positive, and with 2 if all options
-- can be used and there is no port, or one that cannot be opened; then nothing is sent to the chip or
-- read from it. Otherwise the options were parsed, the descriptor is that of the port, and `main`
-- goes on to configure the chip.
pub main-Decides :
    (s : Start) (d : Device) → Decides (command_failure s.system s.arguments s.port) s d
unfolding main
main-Decides s d = go (command_failure s.system s.arguments s.port) (parsed s) refl (
    parse_cmd_line-Settles s.system s.stack s.arguments s.port
      (read_default_bdaddr s.default_bdaddr s.default_stack initial)
      (read_default_bdaddr-closed s.default_bdaddr s.default_stack))
  where
    go : (f : Option ℕ) (p : Parsed) → parsed s ≡ p → Settles f s.system s.port p → Decides f s d
    go (some code) (exits c) e h = rw (e, h, go_on) refl
    go (some code) (returned (suc ret) g) e h = rw (e, h, go_on) refl
    go (some code) (returned zero g) e (two, closed) = rw (e, two, closed, go_on) refl
    go none (exits c) e h = absurd h
    go none (returned (suc ret) g) e h = absurd h
    go none (returned zero g) e (path, at, opened, is_open) =
        (path, g, at, e, opened, is_open, rw (e, is_open, go_on) refl)
