-- ===== src/Patchram/Main.antt =====
-- `main` and `read_default_bdaddr`.
use platform_system_bluetoot.Prelude.{
  ℕ, zero, suc, Bool, true, false, false, ◌&&◌, List, Option, none, some, ◌==◌, ltb, if◌then◌else◌,
  Bytes, ℤ, pos, negsuc, is_neg, length,
}
use platform_system_bluetoot.Patchram.Globals.{Globals, initial}
use platform_system_bluetoot.Patchram.Options.{
  System, Parsed, returned, exits, parse_bdaddr, Argument, parse_cmd_line,
}
use platform_system_bluetoot.Patchram.Device.{Cmd, pure, ◌>>◌, when}
use platform_system_bluetoot.Patchram.Procedures.{
  init_uart, proc_reset, proc_patchram, proc_baudrate, proc_bdaddr, proc_enable_lpm, proc_scopcm,
  proc_i2s, proc_enable_hci,
}

-- How `main` ends: with an exit code, or asleep for ever.
pub data End : Type 0 where
  exited : ℕ → End
  sleeps : End

-- The file that the property "ro.bt.bdaddr_path" names, as far as `read` gets it: `none` if the
-- property is empty, or the file cannot be opened or read.
unfoldable pub read_default_bdaddr : Option Bytes → List ℕ → Globals → Globals
unfolding parse_bdaddr
read_default_bdaddr none stack g = g
read_default_bdaddr (some bdaddr) stack g =
    if length bdaddr == 17
    then elim (parse_bdaddr stack bdaddr g) [ returned _ g' ↦ g' | exits _ ↦ g ]
    else g

-- `x > 0`
abbrev pub is_positive : ℤ → Bool
is_positive (pos n) = ltb 0 n
is_positive (negsuc n) = false

-- The commands behind the firmware.
unfoldable pub configure_options : Bool → Globals → Cmd (Unit {0})
configure_options has_discipline g = do
  when (ltb 0 g.termios_baudrate) (proc_baudrate g)
  when g.bdaddr_flag (proc_bdaddr g)
  when g.enable_lpm proc_enable_lpm
  when g.scopcm (proc_scopcm g)
  when g.i2s (proc_i2s g)
  when g.enable_hci (proc_enable_hci has_discipline)

-- What `main` does with the open port.
unfoldable pub configure : Bool → Globals → Cmd (Unit {0})
configure has_discipline g = do
  init_uart
  proc_reset
  when (g.use_baudrate_for_download && ltb 0 g.termios_baudrate) (proc_baudrate g)
  when (is_positive g.hcdfile_fd) (proc_patchram g)
  configure_options has_discipline g

-- What is outside of the program: the default address, the uninitialised arrays of the two calls
-- of `parse_bdaddr`, the system, the command line and the port on it, and whether `ioctl` succeeds.
pub record Start : Type 0 where
  pub default_bdaddr : Option Bytes
  pub default_stack : List ℕ
  pub stack : List ℕ
  pub system : System
  pub arguments : List Argument
  pub port : Option Bytes
  pub has_discipline : Bool

-- What follows the command line.
unfoldable pub go_on : Bool → Parsed → Cmd End
go_on has_discipline (exits code) d = pure (exited code) d
go_on has_discipline (returned (suc ret) g) d = pure (exited 1) d
go_on has_discipline (returned zero g) d = elim (is_neg g.uart_fd) [
  | true ↦ pure (exited 2) d
  | false ↦ (configure has_discipline g >> pure (if g.enable_hci then sleeps else exited 0)) d
]

unfoldable pub main : Start → Cmd End
unfolding go_on
main s = go_on s.has_discipline (
    parse_cmd_line s.system s.stack s.arguments s.port
      (read_default_bdaddr s.default_bdaddr s.default_stack initial))
