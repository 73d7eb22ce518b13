-- ===== src/Patchram/Always/Outcome.antt =====
-- All that brcm_patchram_plus/brcm_patchram_plus.c sends is command packets.
use platform_system_bluetoot.Prelude.{◌≡◌, sym, subst, [], length}
use platform_system_bluetoot.Libc.Hex.{AreBytes}
use platform_system_bluetoot.Patchram.Device.{Device, Run, done, stops}
use platform_system_bluetoot.Patchram.Main.{Start, main}
use platform_system_bluetoot.Patchram.Packets.{AllPackets}
use platform_system_bluetoot.Patchram.Always.{Always, Sound, AlwaysSound}
use platform_system_bluetoot.Patchram.Always.Sends.{rules-Sound}
use platform_system_bluetoot.Patchram.Always.Steps.{main-Always}

Always-imply :
    {A : Type 0} (r : Run A)
    → AlwaysSound r
    → Always (λ d. AllPackets d.log) (λ _ d. AllPackets d.log) r
Always-imply (done _ d) (log, (rx, hcd, buffer, size)) = log
Always-imply (stops _ d) (log, (rx, hcd, buffer, size)) = log

-- For every command line, and whatever bytes the chip sends, the firmware file and the buffer of
-- 1024 bytes hold, and however the reads come out: if nothing was sent before, then all that `main`
-- sends to the chip is command packets, a 1, the opcode, and the number of the parameters, below
-- 256, before exactly as many parameters. This holds of a run that ends, and of one that waits for
-- ever or goes on in front of the buffer, up to there.
pub main-AllPackets :
    (s : Start) (d : Device)
    → AreBytes d.rx
    → AreBytes d.hcd
    → AreBytes d.buffer
    → length d.buffer ≡ 1024
    → d.log ≡ []
    → Always (λ d'. AllPackets d'.log) (λ _ d'. AllPackets d'.log) (main s d)
main-AllPackets s d rx hcd buffer size fresh =
    let sound : Sound d = (subst AllPackets (sym fresh) tt, (rx, hcd, buffer, size)) in
    Always-imply (main s d) (main-Always rules-Sound s d sound)
