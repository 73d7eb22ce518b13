-- ===== src/Brfpatch/Packets.antt =====
-- What brfpatch/brfpatch.c makes of a line that ends with a newline.
use platform_system_bluetoot.Prelude.{
  ℕ, zero, suc, ◌+◌, ◌/◌, ◌%◌, ◌≤◌, ◌<◌, ◌≡◌, inl, inr, refl, true, [], ◌∷◌, arith, if◌then◌else◌,
  Bytes, length, take, ◌==◌, codes, length-take, Option-cases,
}
use platform_system_bluetoot.Libc.Chars.{starts_with}
use platform_system_bluetoot.Libc.Scan.{scan_hex}
use platform_system_bluetoot.Brfpatch.Memory.{
  Result, ok, exit_1, ◌>>=◌, deref, next, advance, scan, terminated,
}
use platform_system_bluetoot.Brfpatch.Line.{
  Cursor, dump_record, quoted, number, argument, arguments, scan_opcode, command, process_line,
}
use platform_system_bluetoot.Brfpatch.Safety.{
  InLine, Safe, Safe-bind, Safe-mono, Safe-if, InLine-tail, Moved, advance-Moved, terminated-InLine,
}
use platform_system_bluetoot.Brfpatch.Bounds.{Fits, Went, quoted-Went}
use platform_system_bluetoot.Brfpatch.Numbers.{number-Went}

-- An argument moves the pointer.
argument-Went :
    (d : ℕ) (buf : Bytes) (c : Cursor)
    → Fits (record c { buf = suc d ∷ buf })
    → Safe
        (Went 1 (record c { buf = suc d ∷ buf }))
        (argument (suc d) (record c { buf = suc d ∷ buf }))
unfolding argument
argument-Went d buf c f =
    let whole : Cursor = record c { buf = suc d ∷ buf } in
    let rest : Cursor = record c { buf = buf } in
    let fits : Fits rest = record {
      in_line = InLine-tail d buf f.in_line;
      room = omega (arith, f.room);
      size = f.size;
    } in
    let go : (r : Result Cursor) → Safe (Went 0 rest) r → Safe (Went 1 whole) r =
      λ r safe. Safe-mono (Went 0 rest) (Went 1 whole) r safe (λ c' w. (w.0, omega (arith, w.1))) in
    Safe-if (Went 1 whole) (suc d == b'"') _ _
      (λ _.
        go (quoted (length buf + 1) rest) (quoted-Went (length buf + 1) buf c (omega arith) fits))
      λ _.
        Safe-if (Went 1 whole) (suc d == b'0') _ _ (λ _. go (number rest) (number-Went buf c fits))
          (λ _. tt)

-- One round of the loop, and what the next ones do.
arguments-step :
    (rounds : ℕ) (buf : Bytes) (c : Cursor)
    → ((c' : Cursor) → length c'.buf < rounds → Fits c' → Safe Fits (arguments rounds c'))
    → length buf < suc rounds
    → Fits (record c { buf = buf })
    → Safe Fits (
        deref buf >>= λ ch.
        if ch == 0
        then ok (record c { buf = buf })
        else (argument ch (record c { buf = buf }) >>= arguments rounds))
arguments-step rounds [] c next enough f = absurd f.in_line
arguments-step rounds (zero ∷ buf) c next enough f = f
arguments-step rounds (suc d ∷ buf) c next enough f =
    let whole : Cursor = record c { buf = suc d ∷ buf } in
    Safe-if Fits (suc d == 0) (ok whole) (argument (suc d) whole >>= arguments rounds) (λ _. f)
      λ _.
        Safe-bind (Went 1 whole) Fits (argument (suc d) whole) (arguments rounds)
          (argument-Went d buf c f) (λ c' w. next c' (omega (arith, w.1)) w.0)

arguments-Fits :
    (rounds : ℕ) (c : Cursor) → length c.buf < rounds → Fits c → Safe Fits (arguments rounds c)
unfolding arguments
arguments-Fits zero c enough f = absurd (omega arith)
arguments-Fits (suc rounds) c enough f =
    Safe-bind (Moved c.buf) Fits (advance c.buf) _ (advance-Moved c.buf f.in_line)
      λ buf (in_line, l).
        arguments-step rounds buf c (λ c'. arguments-Fits rounds c') (omega arith)
          record { in_line = in_line; room = omega (arith, f.room); size = f.size }

-- The bytes of one command packet: the mark of a command, its opcode, the length of its parameters
-- in one byte, and the parameters.
abbrev pub Packet : Bytes → Type 0
Packet out =
    (lo : ℕ) × (hi : ℕ) × (payload : Bytes) × (out ≡ 1 ∷ lo ∷ hi ∷ length payload ∷ payload)
    × (length payload < 256)

dump_record-Packet :
    (opcode len : ℕ) (data_bytes : Bytes)
    → length data_bytes ≡ 1024
    → Packet (dump_record opcode len data_bytes)
unfolding dump_record
dump_record-Packet opcode len data_bytes size =
    let payload = take (len % 256) data_bytes in
    let l : length payload ≡ len % 256 = omega (arith, length-take (len % 256) data_bytes) in
    (opcode % 256, opcode / 256 % 256, payload, rw l refl, omega arith)

scan-Safe : (w : ℕ) (buf : Bytes) → terminated buf ≡ true → Safe (λ _. Unit {0}) (scan w buf)
unfolding scan
scan-Safe w buf e = elim (Option-cases (scan_hex w buf)) [
  | inl failed ↦ rw (e, failed) tt
  | inr (v, read) ↦ rw (e, read) tt
]

-- The opcode begins with the characters `0x`, so that the end of the line is behind them.
scan_opcode-Safe : (buf : Bytes) → InLine buf → Safe (λ _. Unit {0}) (scan_opcode buf)
unfolding scan_opcode starts_with
scan_opcode-Safe [] h = absurd h
scan_opcode-Safe (zero ∷ buf) h = rw (terminated-InLine (0 ∷ buf) h) tt
scan_opcode-Safe (suc c ∷ []) h = absurd h
scan_opcode-Safe (suc c ∷ zero ∷ buf) h =
    rw (terminated-InLine (suc c ∷ 0 ∷ buf) h)
      (Safe-if (λ _. Unit {0}) _ (scan 4 buf) exit_1 (λ e. absurd (ground arith)) (λ _. tt))
scan_opcode-Safe (suc c ∷ suc d ∷ buf) h = rw (terminated-InLine (suc c ∷ suc d ∷ buf) h) (
    Safe-if (λ _. Unit {0}) _ (scan 4 buf) exit_1
      (λ _. scan-Safe 4 buf (terminated-InLine buf (InLine-tail d buf h))) (λ _. tt))

command-Packet :
    (stack buf : Bytes)
    → length stack ≡ 1024
    → length buf ≤ 1024
    → InLine buf
    → Safe Packet (command stack buf)
unfolding command
command-Packet stack [] size room h = absurd h
command-Packet stack (zero ∷ buf) size room h = tt
command-Packet stack (suc ch ∷ buf) size room h =
    let c : Cursor = record { buf = suc ch ∷ buf; dp = 0; data_bytes = stack } in
    Safe-bind (λ _. Unit {0}) Packet (scan_opcode (suc ch ∷ buf)) _
      (scan_opcode-Safe (suc ch ∷ buf) h)
      λ opcode _.
        Safe-bind Fits Packet (arguments (length (suc ch ∷ buf) + 1) c) _
          (arguments-Fits (length (suc ch ∷ buf) + 1) c (omega arith)
            (record { in_line = h; room = omega arith; size = size }))
          (λ c' f. dump_record-Packet opcode c'.dp c'.data_bytes f.size)

-- If a line ends with a newline and is no longer than the buffer, then `process_line` ends with one
-- command packet or with an error. It neither reads outside of the buffer nor writes outside of the
-- array of 1024 bytes, whatever stands behind the line and in the array.
pub process_line-Packet :
    (stack buf : Bytes)
    → length stack ≡ 1024
    → length buf ≤ 1024
    → InLine buf
    → Safe Packet (process_line stack buf)
unfolding process_line
process_line-Packet stack buf size room h =
    Safe-if Packet (starts_with (codes "Send_") buf) (advance buf >>= command stack) exit_1
      (λ _.
        Safe-bind (Moved buf) Packet (advance buf) (command stack) (advance-Moved buf h)
          (λ b m. command-Packet stack b size (omega (arith, m.1)) m.0))
      (λ _. tt)
