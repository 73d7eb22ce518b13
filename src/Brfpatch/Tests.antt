-- ===== src/Brfpatch/Tests.antt =====
-- Scripts at which the theorems about brfpatch/brfpatch.c are applied, and runs on them.
use platform_system_bluetoot.Prelude.{
  ℕ, zero, suc, ◌<◌, length, ◌≡◌, refl, true, some, List, [], ◌∷◌, ◌++◌, arith, Bytes, codes,
  replicate,
}
use platform_system_bluetoot.Libc.Chars.{starts_with}
use platform_system_bluetoot.Libc.Scan.{scan_hex, skip_spaces, take_sign, take_prefix, read_digits}
use platform_system_bluetoot.Brfpatch.Memory.{
  ok, skip_word, skip_blanks, advance, count_alnum, terminated, scan,
}
use platform_system_bluetoot.Brfpatch.Line.{
  dump_record, store, take_hex, skip_colon, quoted, take_long, take_number, number, argument,
  arguments, scan_opcode, command, process_line,
}
use platform_system_bluetoot.Brfpatch.Main.{exited, fgets, handle_line, translate, main}
use platform_system_bluetoot.Brfpatch.Safety.{Safe}
use platform_system_bluetoot.Brfpatch.Packets.{Packet, process_line-Packet}
use platform_system_bluetoot.Libc.Hex.{AreBytes, print_bytes, print_byte}
use platform_system_bluetoot.Brfpatch.Script.{text, hex, Item, payloads, print_command}
use platform_system_bluetoot.Brfpatch.Commands.{process_line-print_command, process_line-Truncates}
use platform_system_bluetoot.Brfpatch.Compiles.{Command, AreCommands, lines_of, main-Compiles}
use platform_system_bluetoot.Brfpatch.Output.{AreLines, file_of, Written, main-Written}

abbrev array : Bytes
array = replicate 1024 7

abbrev script : List Bytes
script =
    codes "# a comment"
    ∷ codes "Send_HCI_A 0xff36 0x12345678 \"AB:CD\""
    ∷ codes "Wait_HCI_Command"
    ∷ codes "  Send_HCI_B 0x0c03"
    ∷ []

abbrev firmware : Bytes
firmware = 1 ∷ 0x36 ∷ 0xff ∷ 6 ∷ 0x78 ∷ 0x56 ∷ 0x34 ∷ 0x12 ∷ 0xab ∷ 0xcd ∷ 1 ∷ 0x03 ∷ 0x0c ∷ 0 ∷ []

script-firmware : main array array 3 (some (file_of script)) true ≡ exited 0 firmware
unfolding main translate fgets handle_line process_line command scan_opcode arguments argument
    number take_number take_long quoted skip_colon take_hex store dump_record scan terminated
    count_alnum advance skip_blanks skip_word scan_hex skip_spaces take_sign take_prefix read_digits
    starts_with
script-firmware = refl

script-AreLines : AreLines script
script-AreLines = ground arith

main-Written_example : Written script [] (main array array 3 (some (file_of script)) true)
main-Written_example = main-Written array array 3 script true refl refl script-AreLines

process_line-Packet_example :
    Safe Packet (process_line array (codes "Send_HCI_B 0x0c03 0xff\n" ++ 0 ∷ 7 ∷ []))
process_line-Packet_example =
    process_line-Packet array (codes "Send_HCI_B 0x0c03 0xff\n" ++ 0 ∷ 7 ∷ []) refl (omega arith)
      refl

abbrev items : List Item
items = hex (0x12 ∷ 0x34 ∷ 0x56 ∷ 0x78 ∷ []) ∷ text (0xab ∷ 0xcd ∷ []) ∷ []

process_line-print_command_example :
    process_line array (print_command 0xff36 items (0 ∷ []))
    ≡ ok (1 ∷ 0x36 ∷ 0xff ∷ 6 ∷ 0x78 ∷ 0x56 ∷ 0x34 ∷ 0x12 ∷ 0xab ∷ 0xcd ∷ [])
process_line-print_command_example =
    process_line-print_command array [] 0xff36 items refl (omega arith) (ground arith) (omega arith)

abbrev many : List Item
many = text (replicate 258 9) ∷ []

many-AreBytes : (n : ℕ) → AreBytes (replicate n 9)
many-AreBytes zero = tt
many-AreBytes (suc n) = (omega arith, many-AreBytes n)

process_line-Truncates_example :
    (written : Bytes) × (process_line array (print_command 0xff36 many (0 ∷ []))
      ≡ ok (1 ∷ 0x36 ∷ 0xff ∷ 2 ∷ written))
    × (length written < length (payloads many))
    × (written ≡ 9 ∷ 9 ∷ [])
process_line-Truncates_example =
    process_line-Truncates array [] 0xff36 many refl (omega arith) (many-AreBytes 258, tt)
      (omega arith) (omega arith)

abbrev commands : List Command
commands = (0xff36, items) ∷ (0x0c03, []) ∷ []

commands-AreCommands : AreCommands commands
unfolding print_bytes print_byte
commands-AreCommands = ground arith

main-Compiles_example :
    main array array 3 (some (file_of (lines_of commands))) true ≡ exited 0 firmware
main-Compiles_example = main-Compiles array array commands refl refl commands-AreCommands
