-- ===== src/Patchram/Tests/Faults.antt =====
-- Devices that fail, and chips that send two bytes, at which the theorems are applied.
use platform_system_bluetoot.Prelude.{
  ◌==◌, ℕ, zero, suc, ◌≡◌, refl, true, false, [], ◌∷◌, ◌++◌, codes, arith, length, replicate,
  splice,
}
use platform_system_bluetoot.Patchram.Globals.{Globals}
use platform_system_bluetoot.Patchram.Device.{gets, fails, Device, fault, stops, Returns}
use platform_system_bluetoot.Patchram.Event.{read_event}
use platform_system_bluetoot.Patchram.Event.Framing.{event}
use platform_system_bluetoot.Patchram.Procedures.{download}
use platform_system_bluetoot.Patchram.Ready.{Ready, wire}
use platform_system_bluetoot.Patchram.Main.{Start, main}
use platform_system_bluetoot.Patchram.Faults.{download-Unending, read_event-Fails}
use platform_system_bluetoot.Patchram.Options.{patchram, enable_lpm, long}
use platform_system_bluetoot.Patchram.Packets.{AllPackets}
use platform_system_bluetoot.Libc.Hex.{AreBytes}
use platform_system_bluetoot.Patchram.Always.{Always}
use platform_system_bluetoot.Patchram.Always.Reads.{Waits}
use platform_system_bluetoot.Patchram.Always.Bounds.{main-Waits}
use platform_system_bluetoot.Patchram.Always.Outcome.{main-AllPackets}
use platform_system_bluetoot.Patchram.Tests.{complete, chip, globals, command_line}

-- The chip answers, but the firmware file can be read no further when two bytes are left.
abbrev unreadable : Device
unreadable = record (chip 6) { hcd_fails = λ n. n == 2 }

download-Unending_example : ¬ Returns (λ _ _. Unit) (download 5 unreadable)
download-Unending_example = download-Unending 5 2 unreadable (omega arith) refl

-- One byte too many is in front of the event.
abbrev shifted : Device
shifted = record (chip 1) { rx = 0x04 ∷ (event 0x04 0x0e (0x01 ∷ 0x03 ∷ []) ++ 0x04 ∷ []) }

read_event-Fails_example :
    (read_event (record shifted { arrivals = fails ∷ [] })
      ≡ stops fault (record shifted { arrivals = fails ∷ [] }))
    × Returns
        (λ n d'.
          (n ≡ 5)
          × (d'.rx ≡ 0x04 ∷ [])
          × (d'.buffer ≡ splice shifted.buffer 0 (event 0x04 0x0e (0x01 ∷ 0x03 ∷ []))))
        (read_event (record shifted { arrivals = gets 0 ∷ fails ∷ [] }))
read_event-Fails_example =
    read_event-Fails true [] shifted 0x04 0x04 0x0e (0x01 ∷ 0x03 ∷ []) (0x04 ∷ []) (λ e. cc) tt refl
      (omega arith) refl

abbrev waiting : Globals
waiting = record globals { no2bytes = false }

-- The command line without --no2bytes.
abbrev waiting_line : Start
waiting_line = record command_line {
  arguments = long patchram (codes "bcm4329.hcd") ∷ long enable_lpm [] ∷ [];
}

abbrev two_bytes : Device
two_bytes = record (chip 0) {
  rx = wire (replicate 2 complete) ++ 0x55 ∷ 0x56 ∷ (wire (replicate 4 complete) ++ 0x04 ∷ []);
  arrivals = gets 1 ∷ gets 1 ∷ gets 300 ∷ [];
}

zeros-AreBytes : (n : ℕ) → AreBytes (replicate n 0)
zeros-AreBytes zero = tt
zeros-AreBytes (suc n) = (omega arith, zeros-AreBytes n)

-- Of the chip that is asked for a file that cannot be read.
main-AllPackets_example :
    Always (λ d'. AllPackets d'.log) (λ _ d'. AllPackets d'.log) (main waiting_line unreadable)
main-AllPackets_example =
    main-AllPackets waiting_line unreadable (ground arith) (ground arith) (zeros-AreBytes 1024) refl
      refl

main-Waits_example : Always (λ d'. length d'.buffer ≡ 1024) Waits (main waiting_line unreadable)
main-Waits_example =
    main-Waits waiting_line unreadable (ground arith) (ground arith) (zeros-AreBytes 1024) refl tt
