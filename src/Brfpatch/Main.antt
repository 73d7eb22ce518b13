-- ===== src/Brfpatch/Main.antt =====
-- `main` of brfpatch/brfpatch.c.
use platform_system_bluetoot.Prelude.{
  ℕ, zero, suc, ◌+◌, Bool, not, ◌||◌, Option, none, some, [], ◌∷◌, ◌++◌, ◌==◌, if◌then◌else◌, Bytes,
  length, splice,
}
use platform_system_bluetoot.Brfpatch.Memory.{
  Result, ok, exit_1, fault, out_of_rounds, ◌>>=◌, deref, skip_blanks,
}
use platform_system_bluetoot.Brfpatch.Line.{process_line}

-- `fgets` with room for `n` bytes and a NUL: the line, and what is left of the file.
unfoldable pub fgets : ℕ → Bytes → Bytes × Bytes
fgets zero file = ([], file)
fgets (suc n) [] = ([], [])
fgets (suc n) (c ∷ file) =
    let rest = fgets n file in if c == 10 then (c ∷ [], file) else (c ∷ rest.0, rest.1)

-- The `switch` of `main` on the first character of a line that is not a blank.
unfoldable pub handle_line : Bytes → Bytes → Result Bytes
handle_line stack buffer = do
  buf ← skip_blanks buffer
  ch ← deref buf
  (if ch == b'S'
      then process_line stack buf
      else if ch == b'W' || ch == b'#' || ch == 0
      then ok []
      else exit_1)

-- How the program ends, and what is in the output file then.
pub data End : Type 0 where
  exited : ℕ → Bytes → End
  crashed hangs : End

-- How the loop goes on after a line, from what is in the output file.
abbrev pub go_on : (Bytes → End) → Bytes → Result Bytes → End
go_on next out (ok bytes) = next (out ++ bytes)
go_on next out exit_1 = exited 1 out
go_on next out fault = crashed
go_on next out out_of_rounds = hangs

-- The loop over the lines, for at most so many rounds, with what is in the output file.
unfoldable pub translate : ℕ → Bytes → Bytes → Bytes → Bytes → End
translate zero stack buffer file out = hangs
translate (suc rounds) stack buffer [] out = exited 0 out
translate (suc rounds) stack buffer (c ∷ file) out =
    let read = fgets 1023 (c ∷ file) in
    let filled = splice buffer 0 (read.0 ++ 0 ∷ []) in
    go_on (translate rounds stack filled read.1) out (handle_line stack filled)

-- `main` for `argc`, the input file if it can be opened, and whether the output file can be. Each
-- line takes a byte of the file at least, so that the rounds suffice.
unfoldable pub main : Bytes → Bytes → ℕ → Option Bytes → Bool → End
main stack buffer argc file_in can_write = if not (argc == 3) then exited 1 [] else elim file_in [
  | none ↦ exited 1 []
  | some file ↦ if can_write then translate (length file + 1) stack buffer file [] else exited 1 []
]
