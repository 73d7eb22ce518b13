-- ===== src/Patchram/Tests.antt =====
-- A chip and a command line at which the theorems about brcm_patchram_plus.c are applied.
mod Faults
use platform_system_bluetoot.Prelude.{
  ℕ, ◌≡◌, refl, ap, sym, append-nil, true, false, none, some, List, [], ◌∷◌, ◌++◌, arith, Bytes,
  codes, pos, minus_one, length, take, drop, splice, replicate,
}
use platform_system_bluetoot.Libc.Chars.{equal_nocase, after_last}
use platform_system_bluetoot.Patchram.Globals.{Globals, initial, brcm_encode_baud_rate}
use platform_system_bluetoot.Patchram.Options.{
  System, patchram, enable_lpm, no2bytes, long, returned, parse_bdaddr, parse_scopcm, parse_i2s,
  parse_cmd_line,
}
use platform_system_bluetoot.Patchram.Device.{gets, timer, Device, Returns}
use platform_system_bluetoot.Patchram.Event.{read_event}
use platform_system_bluetoot.Patchram.Event.Framing.{Received, event, read_event-Received}
use platform_system_bluetoot.Patchram.Procedures.{proc_reset, proc_patchram}
use platform_system_bluetoot.Patchram.Retries.{WasReset, proc_reset-Retries}
use platform_system_bluetoot.Patchram.Ready.{Reply, Ready, Ends, wire, AllShort}
use platform_system_bluetoot.Patchram.Download.{Record, hcd_file, AllFit}
use platform_system_bluetoot.Patchram.Script.{patchram_outputs, proc_patchram-Does}
use platform_system_bluetoot.Patchram.Main.{Start, read_default_bdaddr}
use platform_system_bluetoot.Patchram.Flags.{Sets, parse_cmd_line-Sets}
use platform_system_bluetoot.Patchram.Failures.{command_failure}
use platform_system_bluetoot.Patchram.Outcome.{parsed, Decides, main-Decides}
use platform_system_bluetoot.Libc.Hex.{print_text}
use platform_system_bluetoot.Libc.Rows.{print_decimals}
use platform_system_bluetoot.Patchram.Parameters.{
  parse_i2s-print_decimals, parse_scopcm-print_decimals,
}
use platform_system_bluetoot.Patchram.Addresses.{
  parse_bdaddr-print_text, parse_bdaddr-Uninitialised,
}
use platform_system_bluetoot.Patchram.Settings.{le_value, brcm_encode_baud_rate-le_value}

-- "Command complete" with four parameters, as the chip sends it.
abbrev complete : Reply
complete = (0x04, 0x0e, 0x01 ∷ 0x03 ∷ 0x0c ∷ 0x00 ∷ [])

abbrev records : List Record
records = (0x4c, 0xfc, 0x00 ∷ 0x10 ∷ 0xaa ∷ []) ∷ (0x4e, 0xfc, []) ∷ []

abbrev chip : ℕ → Device
chip n = record {
  rx = wire (replicate n complete) ++ 0x04 ∷ [];
  arrivals = gets 0 ∷ gets 1 ∷ gets 300 ∷ gets 2 ∷ [];
  hcd = hcd_file records;
  hcd_fails = λ _. false;
  buffer = replicate 1024 0;
  alarm_set = false;
  log = [];
}

chip-Ready :
    (n : ℕ)
    → AllShort (replicate n complete)
    → Ready (chip n) (hcd_file records) (replicate n complete ++ []) (0x04 ∷ []) []
chip-Ready n short = record {
  will_send = ap (λ rs. wire rs ++ 0x04 ∷ []) (sym (append-nil (replicate n complete)));
  short = rw (append-nil (replicate n complete)) short;
  calm = tt;
  size = refl;
  file = refl;
  readable = refl;
  did = refl;
}

read_event-Received_example :
    Returns
      (λ n d'.
        (n ≡ 7)
        × Received false
            (chip 1)
            0
            (event 0x04 0x0e (0x01 ∷ 0x03 ∷ 0x0c ∷ 0x00 ∷ []))
            (0x04 ∷ [])
            d')
      (read_event (chip 1))
read_event-Received_example =
    read_event-Received false (chip 1) 0x04 0x0e (0x01 ∷ 0x03 ∷ 0x0c ∷ 0x00 ∷ []) (0x04 ∷ [])
      (λ _. refl) tt refl (omega arith) refl

-- The timer expires twice before the chip answers.
abbrev slow : Device
slow = record (chip 1) { arrivals = timer ∷ timer ∷ gets 0 ∷ gets 300 ∷ [] }

proc_reset-Retries_example :
    Returns
      (λ _ d'. WasReset 2 slow (event 0x04 0x0e (0x01 ∷ 0x03 ∷ 0x0c ∷ 0x00 ∷ [])) (0x04 ∷ []) d')
      (proc_reset slow)
proc_reset-Retries_example =
    proc_reset-Retries 2 (gets 0 ∷ gets 300 ∷ []) slow 0x04 0x0e (0x01 ∷ 0x03 ∷ 0x0c ∷ 0x00 ∷ [])
      (0x04 ∷ []) refl tt refl (omega arith) refl

abbrev system : System
system = record { open_hcd = λ _. pos 3; open_uart = λ _. pos 4 }

abbrev command_line : Start
command_line = record {
  default_bdaddr = none;
  default_stack = replicate 6 0;
  stack = replicate 6 0;
  system = system;
  arguments = long patchram (codes "bcm4329.hcd") ∷ long no2bytes [] ∷ long enable_lpm [] ∷ [];
  port = some (codes "/dev/ttyHS0");
  has_discipline = true;
}

abbrev globals : Globals
globals = record initial { hcdfile_fd = pos 3; no2bytes = true; enable_lpm = true; uart_fd = pos 4 }

command_line-parsed : parsed command_line ≡ returned 0 globals
unfolding parse_cmd_line read_default_bdaddr after_last equal_nocase
command_line-parsed = refl

records-AllFit : AllFit records
records-AllFit = (omega arith, (omega arith, tt))

proc_patchram-Does_example :
    Ends [] [] (0x04 ∷ []) (patchram_outputs globals records) (proc_patchram globals (chip 4))
proc_patchram-Does_example =
    proc_patchram-Does globals records (replicate 4 complete) [] (chip 4) refl records-AllFit refl
      (chip-Ready 4 (ground arith))

-- A firmware file that cannot be opened, behind an option that can be used.
abbrev no_firmware : Start
no_firmware = record command_line {
  system = record system { open_hcd = λ _. minus_one };
  arguments = long no2bytes [] ∷ long patchram (codes "bcm4329.hcd") ∷ [];
}

no_firmware-5 : command_failure no_firmware.system no_firmware.arguments no_firmware.port ≡ some 5
unfolding after_last equal_nocase
no_firmware-5 = refl

main-Decides_example :
    Decides
      (command_failure no_firmware.system no_firmware.arguments no_firmware.port)
      no_firmware
      (chip 0)
main-Decides_example = main-Decides no_firmware (chip 0)

parse_cmd_line-Sets_example : Sets command_line.system command_line.arguments initial globals
unfolding read_default_bdaddr
parse_cmd_line-Sets_example =
    parse_cmd_line-Sets command_line.system command_line.stack command_line.arguments
      command_line.port initial globals command_line-parsed

brcm_encode_baud_rate-le_value_example :
    (cmd : Bytes) × (brcm_encode_baud_rate 3000000
        (1 ∷ 0x18 ∷ 0xfc ∷ 6 ∷ 0 ∷ 0 ∷ 0 ∷ 0 ∷ 0 ∷ 0 ∷ [])
      ≡ cmd)
    × (take 6 cmd ≡ 1 ∷ 0x18 ∷ 0xfc ∷ 6 ∷ 0 ∷ 0 ∷ [])
    × (length cmd ≡ 10)
    × (le_value (drop 6 cmd) ≡ 3000000)
brcm_encode_baud_rate-le_value_example =
    brcm_encode_baud_rate-le_value 3000000 1 0x18 0xfc 6 0 0 0 0 0 0 (omega arith) (omega arith)

parse_bdaddr-print_text_example :
    parse_bdaddr
      (9 ∷ 9 ∷ 9 ∷ 9 ∷ 9 ∷ 9 ∷ [])
      (print_text (0xaa ∷ 0xbb ∷ 0xcc ∷ 1 ∷ 2 ∷ 3 ∷ []) [])
      initial
    ≡ returned 0 (record initial {
      hci_write_bd_addr = splice initial.hci_write_bd_addr 4 (3 ∷ 2 ∷ 1 ∷ 0xcc ∷ 0xbb ∷ 0xaa ∷ []);
      bdaddr_flag = true;
    })
parse_bdaddr-print_text_example =
    parse_bdaddr-print_text (9 ∷ 9 ∷ 9 ∷ 9 ∷ 9 ∷ 9 ∷ []) initial 3 2 1 0xcc 0xbb 0xaa refl
      (ground arith)

parse_bdaddr-Uninitialised_example :
    (rest : Bytes) × (parse_bdaddr
        (0x107 ∷ 9 ∷ 9 ∷ 9 ∷ 9 ∷ 9 ∷ [])
        (print_text (0xaa ∷ 0xbb ∷ []) [])
        initial
      ≡ returned 0 (record initial {
        hci_write_bd_addr = splice initial.hci_write_bd_addr 4 (7 ∷ rest);
        bdaddr_flag = true;
      }))
parse_bdaddr-Uninitialised_example =
    parse_bdaddr-Uninitialised 0x107 9 9 9 9 9 initial (0xaa ∷ 0xbb ∷ []) (omega arith)
      (ground arith)

parse_i2s-print_decimals_example :
    parse_i2s (print_decimals (0 ∷ 1 ∷ 12 ∷ 200 ∷ [])) initial
    ≡ returned 0 (record initial {
      i2s = true;
      hci_write_i2spcm_interface_param =
          splice initial.hci_write_i2spcm_interface_param 4 (0 ∷ 1 ∷ 12 ∷ 200 ∷ []);
    })
parse_i2s-print_decimals_example =
    parse_i2s-print_decimals initial (0 ∷ 1 ∷ 12 ∷ 200 ∷ []) (omega arith) (ground arith)

parse_scopcm-print_decimals_example :
    parse_scopcm (print_decimals (0 ∷ 1 ∷ 12 ∷ 200 ∷ 5 ∷ 6 ∷ 7 ∷ 8 ∷ 9 ∷ 10 ∷ [])) initial
    ≡ returned 0 (record initial {
      scopcm = true;
      hci_write_sco_pcm_int = splice initial.hci_write_sco_pcm_int 4 (0 ∷ 1 ∷ 12 ∷ 200 ∷ 5 ∷ []);
      hci_write_pcm_data_format =
          splice initial.hci_write_pcm_data_format 4 (6 ∷ 7 ∷ 8 ∷ 9 ∷ 10 ∷ []);
    })
parse_scopcm-print_decimals_example =
    parse_scopcm-print_decimals initial (0 ∷ 1 ∷ 12 ∷ 200 ∷ 5 ∷ 6 ∷ 7 ∷ 8 ∷ 9 ∷ 10 ∷ [])
      (omega arith) (ground arith)
