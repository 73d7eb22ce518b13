-- ===== src/Brfpatch/Commands.antt =====
-- process_line of brfpatch/brfpatch.c turns a printed command into its packet.
use platform_system_bluetoot.Prelude.{
  ℕ, zero, suc, ◌+◌, ◌/◌, ◌%◌, ◌≤◌, ◌<◌, ◌^◌, ◌≡◌, refl, ap, ◌∙◌, List, [], ◌∷◌, ◌++◌, arith, Bytes,
  length, take, codes, length-append, length-take,
}
use platform_system_bluetoot.Libc.Chars.{starts_with}
use platform_system_bluetoot.Libc.Hex.{print_byte, print_bytes, print_text}
use platform_system_bluetoot.Brfpatch.Memory.{ok, ◌>>=◌, skip_word, skip_blanks, advance}
use platform_system_bluetoot.Brfpatch.Line.{dump_record, scan_opcode, command, process_line}
use platform_system_bluetoot.Brfpatch.Script.{
  Item, text, hex, payloads, AreItems, print_items, print_command,
}
use platform_system_bluetoot.Brfpatch.Reads.{terminated-append, terminated-cons, scan-print_bytes}
use platform_system_bluetoot.Brfpatch.Arguments.{
  skip_word-print_bytes, end_of_line, following, advance-items, terminated-items, arguments-Reads,
}

take-append : (n : ℕ) (xs ys : Bytes) → n ≤ length xs → take n (xs ++ ys) ≡ take n xs
take-append zero [] [] h = refl
take-append zero [] (y ∷ ys) h = refl
take-append zero (x ∷ xs) ys h = refl
take-append (suc n) [] ys h = absurd (omega arith)
take-append (suc n) (x ∷ xs) ys h = ap (◌∷◌ x) (take-append n xs ys (omega arith))

take-length : (xs : Bytes) → take (length xs) xs ≡ xs
take-length [] = refl
take-length (x ∷ xs) = ap (◌∷◌ x) (take-length xs)

length-behind : (bs t : Bytes) → length t ≤ length (print_text bs t)
unfolding print_bytes print_byte
length-behind [] t = omega arith
length-behind (b ∷ []) t = omega arith
length-behind (b ∷ b' ∷ bs) t = omega (arith, length-behind (b' ∷ bs) t)

length-print_items : (is : List Item) (t : Bytes) → length is ≤ length (print_items is t)
unfolding print_bytes print_byte
length-print_items [] t = omega arith
length-print_items (text bs ∷ is) t =
    omega (arith, length-behind bs (b'"' ∷ print_items is t), length-print_items is t)
length-print_items (hex bs ∷ is) t =
    omega (arith, length-append (print_bytes bs) (print_items is t), length-print_items is t)

-- The packet of an opcode of 16 bits, with as many bytes as its length byte says.
abbrev pub packet : ℕ → Bytes → Bytes
packet opcode xs = 1 ∷ opcode % 256 ∷ opcode / 256 ∷ length xs % 256 ∷ take (length xs % 256) xs

dump_record-packet :
    (opcode : ℕ) (xs r : Bytes)
    → opcode < 2 ^ 16
    → dump_record opcode (length xs) (xs ++ r) ≡ packet opcode xs
unfolding dump_record
dump_record-packet opcode xs r small =
    ap (λ n. 1 ∷ opcode % 256 ∷ n ∷ length xs % 256 ∷ take (length xs % 256) (xs ++ r))
      (omega arith)
    ∙ ap (λ ys. 1 ∷ opcode % 256 ∷ opcode / 256 ∷ length xs % 256 ∷ ys)
        (take-append (length xs % 256) xs r (omega arith))

packet-short :
    (opcode : ℕ) (xs : Bytes)
    → length xs < 256
    → packet opcode xs ≡ 1 ∷ opcode % 256 ∷ opcode / 256 ∷ length xs ∷ xs
packet-short opcode xs short =
    ap (λ n. 1 ∷ opcode % 256 ∷ opcode / 256 ∷ n ∷ take n xs)
      (let e : length xs % 256 ≡ length xs = omega arith in e)
    ∙ ap (λ ys. 1 ∷ opcode % 256 ∷ opcode / 256 ∷ length xs ∷ ys) (take-length xs)

module _ (opcode : ℕ) (small : opcode < 2 ^ 16) (is : List Item) (rest : Bytes) where
  abbrev opcode_bytes : Bytes
  opcode_bytes = opcode / 256 ∷ opcode % 256 ∷ []

  abbrev left : Bytes
  left = print_items is (end_of_line rest)

  scan_opcode-print_bytes : scan_opcode (codes "0x" ++ print_bytes opcode_bytes ++ left) ≡ ok opcode
  unfolding scan_opcode starts_with
  scan_opcode-print_bytes =
      let ended = terminated-append (print_bytes opcode_bytes) left (terminated-items rest is) in
      let line = print_bytes opcode_bytes ++ left in
      rw (terminated-cons b'0' (b'x' ∷ line) (terminated-cons b'x' line ended)) (
        scan-print_bytes (opcode / 256) (opcode % 256 ∷ []) left (omega arith, (omega arith, tt))
          (terminated-items rest is)
        ∙ ap ok (omega arith))

  advance-opcode : advance (codes "0x" ++ print_bytes opcode_bytes ++ left) ≡ ok (following is rest)
  unfolding advance skip_word
  advance-opcode =
      ap (λ m. m >>= skip_blanks)
        (skip_word-print_bytes opcode_bytes left (omega arith, (omega arith, tt)))
      ∙ advance-items rest is

  command-packet :
      (stack : Bytes)
      → length stack ≡ 1024
      → AreItems is
      → length (payloads is) ≤ 1016
      → command stack (codes "0x" ++ print_bytes opcode_bytes ++ left)
        ≡ ok (packet opcode (payloads is))
  unfolding command
  command-packet stack size all short =
      let line = codes "0x" ++ print_bytes opcode_bytes ++ left in
      let (r, l, e) =
        arguments-Reads rest (length line + 1) is line [] stack
          (omega (
            arith,
            length-print_items is (end_of_line rest),
            length-append (print_bytes opcode_bytes) left,
          ))
          all advance-opcode (omega arith) (omega arith) in
      rw (scan_opcode-print_bytes, e) (ap ok (dump_record-packet opcode (payloads is) r small))

module _ (stack rest : Bytes) (opcode : ℕ) (is : List Item) where
  process_line-packet :
      length stack ≡ 1024
      → opcode < 2 ^ 16
      → AreItems is
      → length (payloads is) ≤ 1016
      → process_line stack (print_command opcode is (0 ∷ rest)) ≡ ok (packet opcode (payloads is))
  unfolding process_line starts_with advance skip_word skip_blanks
  process_line-packet size small all short =
      command-packet opcode small is rest stack size all short

-- For every opcode of 16 bits and all arguments, quoted bytes and numbers of 1, 2, 3, 4 or 8 bytes,
-- that stand for fewer than 256 bytes: of the line that the command is printed as, process_line
-- makes the packet with the opcode, the number of the bytes, and the bytes, whatever stands behind
-- the line and in the array.
pub process_line-print_command :
    (stack rest : Bytes) (opcode : ℕ) (is : List Item)
    → length stack ≡ 1024
    → opcode < 2 ^ 16
    → AreItems is
    → length (payloads is) < 256
    → process_line stack (print_command opcode is (0 ∷ rest))
      ≡ ok (1 ∷ opcode % 256 ∷ opcode / 256 ∷ length (payloads is) ∷ payloads is)
process_line-print_command stack rest opcode is size small all short =
    process_line-packet stack rest opcode is size small all (omega arith)
    ∙ ap ok (packet-short opcode (payloads is) short)

-- For every opcode of 16 bits and all such arguments that stand for 256 to 1016 bytes: process_line
-- ends without an error, and writes fewer bytes than the arguments stand for. The length in the
-- packet is their number modulo 256, and as many of the first bytes are written.
pub process_line-Truncates :
    (stack rest : Bytes) (opcode : ℕ) (is : List Item)
    → length stack ≡ 1024
    → opcode < 2 ^ 16
    → AreItems is
    → 256 ≤ length (payloads is)
    → length (payloads is) ≤ 1016
    → (written : Bytes) × (process_line stack (print_command opcode is (0 ∷ rest))
        ≡ ok (1 ∷ opcode % 256 ∷ opcode / 256 ∷ length (payloads is) % 256 ∷ written))
      × (length written < length (payloads is))
      × (written ≡ take (length (payloads is) % 256) (payloads is))
process_line-Truncates stack rest opcode is size small all long fits =
    let n = length (payloads is) % 256 in
    (
      take n (payloads is),
      process_line-packet stack rest opcode is size small all fits,
      omega (arith, length-take n (payloads is)),
      refl,
    )
