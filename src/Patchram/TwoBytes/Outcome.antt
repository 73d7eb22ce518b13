-- ===== src/Patchram/TwoBytes/Outcome.antt =====
-- `main` of brcm_patchram_plus/brcm_patchram_plus.c for the chips that send two bytes once the
-- minidriver runs.
use platform_system_bluetoot.Prelude.{ℕ, ◌&&◌, if◌then◌else◌}
use platform_system_bluetoot.Patchram.Globals.{Globals}
use platform_system_bluetoot.Patchram.Device.{Device, Cmd, IfDone}
use platform_system_bluetoot.Patchram.Ready.{Ready}
use platform_system_bluetoot.Patchram.Configure.{has_baudrate}
use platform_system_bluetoot.Patchram.TwoBytes.{Paired}

-- After the step no read has to do with one byte if that was so before it.
abbrev KeepsPairs : Cmd (Unit {0}) → Type 0
KeepsPairs m = (d : Device) → Paired d → IfDone Paired (m d)

-- The number of the commands before the firmware but the reset.
abbrev pub early_count : Globals → ℕ
early_count g = if g.use_baudrate_for_download && has_baudrate g then 1 else 0
