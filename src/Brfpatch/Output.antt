-- ===== src/Brfpatch/Output.antt =====
-- The output file of brfpatch/brfpatch.c for a file of lines.
use platform_system_bluetoot.Prelude.{
  ℕ, zero, suc, ◌+◌, ◌≤◌, ◌<◌, ◌≡◌, ◌⊎◌, inl, inr, refl, sym, subst, ◌∙◌, Bool, true, false, not,
  some, List, [], ◌∷◌, ◌++◌, arith, if◌then◌else◌, Bytes, length, splice, ◌==◌, ◌||◌, length-splice,
  length-append, append_assoc, append-nil,
}
use platform_system_bluetoot.Brfpatch.Memory.{
  Result, ok, exit_1, fault, out_of_rounds, ◌>>=◌, deref, skip_blanks,
}
use platform_system_bluetoot.Brfpatch.Line.{process_line}
use platform_system_bluetoot.Brfpatch.Main.{
  fgets, handle_line, End, exited, crashed, hangs, go_on, translate, main,
}
use platform_system_bluetoot.Brfpatch.Safety.{
  InLine, Safe, Safe-bind, Safe-mono, Safe-if, Moved, skip_blanks-Moved,
}
use platform_system_bluetoot.Brfpatch.Packets.{Packet, process_line-Packet}

-- No NUL and no newline.
abbrev pub AllText : Bytes → Type 0
AllText [] = Unit
AllText (zero ∷ line) = ⊥
AllText (suc c ∷ line) = ((suc c == 10) ≡ false) × AllText line

-- Lines that the buffer has room for.
abbrev pub AreLines : List Bytes → Type 0
AreLines [] = Unit
AreLines (line ∷ lines) = AllText line × (length line ≤ 1022) × AreLines lines

abbrev pub file_of : List Bytes → Bytes
file_of [] = []
file_of (line ∷ lines) = line ++ 10 ∷ file_of lines

fgets-line :
    (n : ℕ) (line rest : Bytes)
    → AllText line
    → length line < n
    → fgets n (line ++ 10 ∷ rest) ≡ (line ++ 10 ∷ [], rest)
unfolding fgets
fgets-line zero line rest t h = absurd (omega arith)
fgets-line (suc n) [] rest t h = refl
fgets-line (suc n) (zero ∷ line) rest t h = absurd t
fgets-line (suc n) (suc c ∷ line) rest t h = rw (t.0, fgets-line n line rest t.1 (omega arith)) refl

-- What `fgets` leaves in the buffer.
InLine-splice :
    (line buffer : Bytes)
    → AllText line
    → length line + 2 ≤ length buffer
    → InLine (splice buffer 0 (line ++ 10 ∷ 0 ∷ []))
InLine-splice line [] t h = absurd (omega arith)
InLine-splice line (x ∷ []) t h = absurd (omega arith)
InLine-splice [] (x ∷ y ∷ buffer) t h = refl
InLine-splice (zero ∷ line) (x ∷ y ∷ buffer) t h = absurd t
InLine-splice (suc c ∷ []) (x ∷ y ∷ []) t h = absurd (omega arith)
InLine-splice (suc c ∷ []) (x ∷ y ∷ z ∷ buffer) t h = refl
InLine-splice (suc c ∷ zero ∷ line) (x ∷ y ∷ buffer) t h = absurd t.1
InLine-splice (suc c ∷ suc d ∷ line) (x ∷ y ∷ buffer) t h =
    InLine-splice (suc d ∷ line) (y ∷ buffer) t.1 (omega arith)

abbrev Handled : Bytes → Type 0
Handled out = (out ≡ []) ⊎ Packet out

-- The `switch` on the first character.
switch-Handled :
    (stack buf : Bytes)
    → length stack ≡ 1024
    → length buf ≤ 1024
    → InLine buf
    → Safe Handled (
        deref buf >>= λ ch.
        if ch == b'S'
        then process_line stack buf
        else if ch == b'W' || ch == b'#' || ch == 0
        then ok []
        else exit_1)
switch-Handled stack [] size room h = absurd h
switch-Handled stack (c ∷ buf) size room h =
    Safe-if Handled (c == b'S') _ _
      (λ _.
        Safe-mono Packet Handled (process_line stack (c ∷ buf))
          (process_line-Packet stack (c ∷ buf) size room h) (λ out p. inr p))
      λ _. Safe-if Handled (c == b'W' || c == b'#' || c == 0) _ _ (λ _. inl refl) (λ _. tt)

-- A line gives nothing, one packet, or an error.
handle_line-Handled :
    (stack buffer : Bytes)
    → length stack ≡ 1024
    → length buffer ≤ 1024
    → InLine buffer
    → Safe Handled (handle_line stack buffer)
unfolding handle_line
handle_line-Handled stack buffer size room h =
    Safe-bind (Moved buffer) Handled (skip_blanks buffer) _ (skip_blanks-Moved buffer h)
      (λ buf m. switch-Handled stack buf size (omega (arith, m.1)) m.0)

-- Each line gave nothing or one packet, in order.
abbrev pub Whole : List Bytes → Bytes → Type 0
Whole [] out = out ≡ []
Whole (line ∷ lines) out =
    (first : Bytes) × (rest : Bytes) × (out ≡ first ++ rest) × Handled first × Whole lines rest

-- The first ones of the lines did, and no line did behind them.
abbrev pub Part : List Bytes → Bytes → Type 0
Part [] out = out ≡ []
Part (line ∷ lines) out =
    (out ≡ [])
    ⊎ ((first : Bytes) × (rest : Bytes) × (out ≡ first ++ rest) × Handled first × Part lines rest)

-- The program ends with 0 and the packets of all lines, or with 1 and those in front of an error.
-- In the output file they stand behind `before`.
abbrev pub Written : List Bytes → Bytes → End → Type 0
Written lines before (exited zero out) = (more : Bytes) × (out ≡ before ++ more) × Whole lines more
Written lines before (exited (suc n) out) =
    (n ≡ 0) × (more : Bytes) × (out ≡ before ++ more) × Part lines more
Written lines before crashed = ⊥
Written lines before hangs = ⊥

-- One more line in front of the others.
Written-more :
    (line : Bytes) (lines : List Bytes) (before first : Bytes) (end : End)
    → Handled first
    → Written lines (before ++ first) end
    → Written (line ∷ lines) before end
Written-more line lines before first (exited zero out) h (more, e, w) =
    (first ++ more, e ∙ append_assoc before first more, (first, more, refl, h, w))
Written-more line lines before first (exited (suc n) out) h (e1, more, e, w) =
    (e1, first ++ more, e ∙ append_assoc before first more, inr (first, more, refl, h, w))
Written-more line lines before first crashed h w = w
Written-more line lines before first hangs h w = w

go_on-Written :
    (line : Bytes) (lines : List Bytes) (next : Bytes → End) (before : Bytes) (r : Result Bytes)
    → Safe Handled r
    → ((first : Bytes) → Written lines (before ++ first) (next (before ++ first)))
    → Written (line ∷ lines) before (go_on next before r)
go_on-Written line lines next before (ok first) h w =
    Written-more line lines before first (next (before ++ first)) h (w first)
go_on-Written line lines next before exit_1 h w = (refl, [], sym (append-nil before), inl refl)
go_on-Written line lines next before fault h w = absurd h
go_on-Written line lines next before out_of_rounds h w = absurd h

pub translate-line :
    (rounds : ℕ) (stack buffer line rest out : Bytes)
    → AllText line
    → length line ≤ 1022
    → (let filled = splice buffer 0 (line ++ 10 ∷ 0 ∷ []) in
        translate (suc rounds) stack buffer (line ++ 10 ∷ rest) out
        ≡ go_on (translate rounds stack filled rest) out (handle_line stack filled))
unfolding translate
translate-line rounds stack buffer [] rest out t h =
    rw (fgets-line 1023 [] rest t (omega arith)) refl
translate-line rounds stack buffer (c ∷ line) rest out t h =
    rw (fgets-line 1023 (c ∷ line) rest t (omega arith), append_assoc line (10 ∷ []) (0 ∷ [])) refl

translate-Written :
    (lines : List Bytes) (rounds : ℕ) (stack buffer before : Bytes)
    → length (file_of lines) < rounds
    → length stack ≡ 1024
    → length buffer ≡ 1024
    → AreLines lines
    → Written lines before (translate rounds stack buffer (file_of lines) before)
translate-Written lines zero stack buffer before enough size room t = absurd (omega arith)
translate-Written [] (suc rounds) stack buffer before enough size room t =
    unfold translate in ([], sym (append-nil before), refl)
translate-Written (line ∷ lines) (suc rounds) stack buffer before enough size room
      (text, short, t) =
    let filled = splice buffer 0 (line ++ 10 ∷ 0 ∷ []) in
    let same : length filled ≡ 1024 = length-splice buffer 0 (line ++ 10 ∷ 0 ∷ []) ∙ room in
    subst (Written (line ∷ lines) before)
      (sym (translate-line rounds stack buffer line (file_of lines) before text short))
      (go_on-Written line lines (translate rounds stack filled (file_of lines)) before
        (handle_line stack filled)
        (handle_line-Handled stack filled size (omega arith)
          (InLine-splice line buffer text (omega (arith, short))))
        (λ first.
          translate-Written lines rounds stack filled (before ++ first)
            (omega (arith, length-append line (10 ∷ file_of lines))) size same t))

Part-nil : (lines : List Bytes) → Part lines []
Part-nil [] = refl
Part-nil (line ∷ lines) = inl refl

-- If the input file is made of lines of at most 1022 characters without NUL, each with a newline,
-- and the two arrays of the program have 1024 bytes, whatever is in them, then the program ends
-- with 0 or 1. If it ends with 0, then each line gave nothing or one command packet, in order. If it
-- ends with 1, then the first lines did, and nothing is in the output file behind their packets.
pub main-Written :
    (stack buffer : Bytes) (argc : ℕ) (lines : List Bytes) (can_write : Bool)
    → length stack ≡ 1024
    → length buffer ≡ 1024
    → AreLines lines
    → Written lines [] (main stack buffer argc (some (file_of lines)) can_write)
unfolding main
main-Written stack buffer argc lines can_write size room t =
    go (argc == 3) can_write (
      translate-Written lines (length (file_of lines) + 1) stack buffer [] (omega arith) size room
        t)
  where
    go :
        (three write : Bool)
        → Written lines [] (translate (length (file_of lines) + 1) stack buffer (file_of lines) [])
        → Written lines [] (
            if not three
            then exited 1 []
            else if write
            then translate (length (file_of lines) + 1) stack buffer (file_of lines) []
            else exited 1 [])
    go false write w = (refl, [], refl, Part-nil lines)
    go true false w = (refl, [], refl, Part-nil lines)
    go true true w = w
