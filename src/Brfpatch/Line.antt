-- ===== src/Brfpatch/Line.antt =====
-- `process_line` and `dump_record` of brfpatch/brfpatch.c.
use platform_system_bluetoot.Prelude.{
  ℕ, zero, suc, ◌+◌, ◌-◌, ◌/◌, ◌%◌, not, ◌||◌, [], ◌∷◌, ◌==◌, ltb, if◌then◌else◌, Bytes, codes,
  length, take, drop, splice,
}
use platform_system_bluetoot.Libc.Chars.{starts_with}
use platform_system_bluetoot.Patchram.Globals.{le32}
use platform_system_bluetoot.Brfpatch.Memory.{
  Result, ok, exit_1, fault, out_of_rounds, ◌>>=◌, ◌>>◌, fail_if, deref, next, advance, count_alnum,
  terminated, scan,
}

-- `buf`, `dp - data` and the array `data`.
pub record Cursor : Type 0 where
  pub buf : Bytes
  pub dp : ℕ
  pub data_bytes : Bytes

-- What `dump_record` writes. The length is an `unsigned char`, the opcode an `unsigned short`.
unfoldable pub dump_record : ℕ → ℕ → Bytes → Bytes
dump_record opcode len data_bytes =
    1 ∷ opcode % 256 ∷ opcode / 256 % 256 ∷ len % 256 ∷ take (len % 256) data_bytes

-- `sscanf` stores its four bytes at `data + i`.
unfoldable pub store : ℕ → ℕ → Bytes → Result Bytes
store i v data_bytes =
    if ltb (length data_bytes) (i + 4) then fault else ok (splice data_bytes i (le32 v))

-- `sscanf(buf, "%0wx", dp)`, and `buf` and `dp` behind it.
unfoldable pub take_hex : ℕ → ℕ → ℕ → Cursor → Result Cursor
take_hex w by_buf by_dp c = do
  v ← scan w c.buf
  stored ← store c.dp v c.data_bytes
  ok (record { buf = drop by_buf c.buf; dp = c.dp + by_dp; data_bytes = stored })

-- `if (*buf == ':') buf++;`
unfoldable pub skip_colon : Cursor → Result Cursor
skip_colon c = do ch ← deref c.buf; ok (if ch == b':' then record c { buf = next c.buf } else c)

-- The loop within quotes, for at most so many rounds.
unfoldable pub quoted : ℕ → Cursor → Result Cursor
quoted zero c = out_of_rounds
quoted (suc rounds) c = do
  ch ← deref c.buf
  (if ch == b'"' || ch == 0
      then ok c
      else (fail_if (ltb 1024 c.dp) >> take_hex 2 2 1 c >>= skip_colon >>= quoted rounds))

-- The 16 digits of a number of eight bytes: the first half goes to the upper four bytes.
unfoldable pub take_long : Cursor → Result Cursor
take_long c = do
  high ← take_hex 8 8 0 (record c { dp = c.dp + 4 })
  take_hex 8 8 8 (record high { dp = high.dp - 4 })

-- The `switch` on the number of digits.
unfoldable pub take_number : ℕ → Cursor → Result Cursor
take_number n c =
    if n == 2
    then take_hex 2 2 1 c
    else if n == 4
    then take_hex 4 4 2 c
    else if n == 6
    then take_hex 6 6 3 c
    else if n == 8
    then take_hex 8 8 4 c
    else if n == 16
    then take_long c
    else exit_1

-- The case '0', behind that character.
unfoldable pub number : Cursor → Result Cursor
number c = do
  ch ← deref c.buf
  fail_if (not (ch == b'x'))
  n ← count_alnum (next c.buf)
  take_number n (record c { buf = next c.buf })

-- The `switch` on the first character of an argument.
unfoldable pub argument : ℕ → Cursor → Result Cursor
argument ch c =
    let rest = record c { buf = next c.buf } in
    if ch == b'"'
    then quoted (length rest.buf + 1) rest
    else if ch == b'0'
    then number rest
    else exit_1

-- `while (!advance(&buf)) switch (*buf) …`, for at most so many rounds.
unfoldable pub arguments : ℕ → Cursor → Result Cursor
arguments zero c = out_of_rounds
arguments (suc rounds) c = do
  buf ← advance c.buf
  ch ← deref buf
  (if ch == 0
      then ok (record c { buf = buf })
      else (argument ch (record c { buf = buf }) >>= arguments rounds))

-- `sscanf(buf, "0x%04x\n", &opcode)`
unfoldable pub scan_opcode : Bytes → Result ℕ
scan_opcode buf =
    if terminated buf
    then if starts_with (codes "0x") buf then scan 4 (drop 2 buf) else exit_1
    else fault

-- `process_line` from the opcode on. The array `data` is not initialised: `stack` is what it holds.
unfoldable pub command : Bytes → Bytes → Result Bytes
command stack [] = fault
command stack (zero ∷ buf) = exit_1
command stack (suc ch ∷ buf) = do
  opcode ← scan_opcode (suc ch ∷ buf)
  c ←
      arguments (length (suc ch ∷ buf) + 1)
        (record { buf = suc ch ∷ buf; dp = 0; data_bytes = stack })
  ok (dump_record opcode c.dp c.data_bytes)

-- `process_line`: what it appends to the output.
unfoldable pub process_line : Bytes → Bytes → Result Bytes
process_line stack buf =
    if starts_with (codes "Send_") buf then (advance buf >>= command stack) else exit_1
