-- ===== src/Brfpatch/Compiles.antt =====
-- brfpatch/brfpatch.c turns a script of printed commands into their packets.
use platform_system_bluetoot.Prelude.{
  ℕ, zero, suc, ◌+◌, ◌/◌, ◌%◌, ◌≤◌, ◌<◌, ◌^◌, ◌≡◌, refl, ap, sym, ◌∙◌, true, some, List, [], ◌∷◌,
  ◌++◌, arith, Bytes, length, splice, length-splice, append_assoc, append-nil, length-append,
}
use platform_system_bluetoot.Brfpatch.Memory.{ok, skip_blanks}
use platform_system_bluetoot.Brfpatch.Main.{handle_line, exited, translate, main}
use platform_system_bluetoot.Brfpatch.Output.{file_of, translate-line}
use platform_system_bluetoot.Brfpatch.Script.{Item, payloads, AreItems}
use platform_system_bluetoot.Brfpatch.Commands.{process_line-print_command}
use platform_system_bluetoot.Brfpatch.Lines.{line_of, line_of-print_command, line_of-AllText}

-- An opcode and its arguments.
abbrev pub Command : Type 0
Command = ℕ × List Item

-- The opcode has 16 bits, the arguments stand for fewer than 256 bytes, and the line fits the buffer.
abbrev pub AreCommands : List Command → Type 0
AreCommands [] = Unit
AreCommands ((opcode, is) ∷ cs) =
    ((opcode < 2 ^ 16)
      × AreItems is
      × (length (payloads is) < 256)
      × (length (line_of opcode is) ≤ 1022))
    × AreCommands cs

abbrev pub lines_of : List Command → List Bytes
lines_of [] = []
lines_of ((opcode, is) ∷ cs) = line_of opcode is ∷ lines_of cs

-- The packets that the commands stand for.
abbrev pub packets : List Command → Bytes
packets [] = []
packets ((opcode, is) ∷ cs) =
    (1 ∷ opcode % 256 ∷ opcode / 256 ∷ length (payloads is) ∷ payloads is) ++ packets cs

-- What is in the buffer once a line has been read.
splice-begins :
    (xs buffer : Bytes)
    → length xs ≤ length buffer
    → (rest : Bytes) × (splice buffer 0 xs ≡ xs ++ rest)
splice-begins [] [] h = ([], refl)
splice-begins [] (y ∷ buffer) h = (y ∷ buffer, refl)
splice-begins (x ∷ xs) [] h = absurd (omega arith)
splice-begins (x ∷ xs) (y ∷ buffer) h =
    let (rest, e) = splice-begins xs buffer (omega arith) in (rest, ap (◌∷◌ x) e)

module _ (stack : Bytes) (size : length stack ≡ 1024) where
  handle_line-print_command :
      (opcode : ℕ) (is : List Item) (buffer : Bytes)
      → opcode < 2 ^ 16
      → AreItems is
      → length (payloads is) < 256
      → length (line_of opcode is) ≤ 1022
      → length buffer ≡ 1024
      → handle_line stack (splice buffer 0 (line_of opcode is ++ 10 ∷ 0 ∷ []))
        ≡ ok (1 ∷ opcode % 256 ∷ opcode / 256 ∷ length (payloads is) ∷ payloads is)
  handle_line-print_command opcode is buffer small items short fits room =
      let line = line_of opcode is in
      let (rest, e) =
        splice-begins (line ++ 10 ∷ 0 ∷ []) buffer
          (omega (arith, length-append line (10 ∷ 0 ∷ []))) in
      ap (handle_line stack)
        (e ∙ append_assoc line (10 ∷ 0 ∷ []) rest ∙ line_of-print_command opcode is (0 ∷ rest))
      ∙ (unfold handle_line skip_blanks in
          process_line-print_command stack rest opcode is size small items short)

  translate-Compiles :
      (cs : List Command) (rounds : ℕ) (buffer out : Bytes)
      → length (file_of (lines_of cs)) < rounds
      → length buffer ≡ 1024
      → AreCommands cs
      → translate rounds stack buffer (file_of (lines_of cs)) out ≡ exited 0 (out ++ packets cs)
  translate-Compiles cs zero buffer out enough room all = absurd (omega arith)
  translate-Compiles [] (suc rounds) buffer out enough room all =
      unfold translate in ap (exited 0) (sym (append-nil out))
  translate-Compiles ((opcode, is) ∷ cs) (suc rounds) buffer out enough room
        ((small, items, short, fits), all) =
      let line = line_of opcode is in
      let filled = splice buffer 0 (line ++ 10 ∷ 0 ∷ []) in
      let packet : Bytes = 1 ∷ opcode % 256 ∷ opcode / 256 ∷ length (payloads is) ∷ payloads is in
      translate-line rounds stack buffer line (file_of (lines_of cs)) out
        (line_of-AllText opcode is small items) fits
      ∙ rw (handle_line-print_command opcode is buffer small items short fits room) (
          translate-Compiles cs rounds filled (out ++ packet)
            (omega (arith, length-append line (10 ∷ file_of (lines_of cs))))
            (length-splice buffer 0 (line ++ 10 ∷ 0 ∷ []) ∙ room) all
          ∙ ap (exited 0) (append_assoc out packet (packets cs)))

-- For every list of commands, each with an opcode of 16 bits, with arguments (quoted bytes, and
-- numbers of 1, 2, 3, 4 or 8 bytes) for fewer than 256 bytes, and with a line that fits the buffer:
-- for the script in which they are printed, a command on each line, the program ends with 0, and
-- the output file holds their packets in order, whatever is in its two arrays of 1024 bytes.
pub main-Compiles :
    (stack buffer : Bytes) (cs : List Command)
    → length stack ≡ 1024
    → length buffer ≡ 1024
    → AreCommands cs
    → main stack buffer 3 (some (file_of (lines_of cs))) true ≡ exited 0 (packets cs)
unfolding main
main-Compiles stack buffer cs size room all =
    translate-Compiles stack size cs (length (file_of (lines_of cs)) + 1) buffer [] (omega arith)
      room all
