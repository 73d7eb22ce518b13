-- ===== src/Brfpatch/Arguments.antt =====
-- What the loop of process_line of brfpatch/brfpatch.c makes of printed arguments.
use platform_system_bluetoot.Prelude.{
  ℕ, zero, suc, ◌+◌, ◌/◌, ◌%◌, ◌≤◌, ◌<◌, ◌≡◌, refl, ap, sym, ◌∙◌, true, false, List, [], ◌∷◌, ◌++◌,
  arith, ◌==◌, Bytes, length, append_assoc, append-nil, length-append,
}
use platform_system_bluetoot.Libc.Chars.{is_space}
use platform_system_bluetoot.Libc.Hex.{
  print_byte, print_bytes, AreBytes, print_byte-plain, print_text,
}
use platform_system_bluetoot.Brfpatch.Memory.{ok, skip_word, skip_blanks, advance, terminated}
use platform_system_bluetoot.Brfpatch.Line.{number, argument, arguments}
use platform_system_bluetoot.Brfpatch.Script.{
  Item, text, hex, backwards, payloads, AreItems, HasWidth, print_item, print_items,
}
use platform_system_bluetoot.Brfpatch.Reads.{
  cursor, Reads, terminated-append, terminated-cons, terminated-print_text, quoted-Reads,
}
use platform_system_bluetoot.Brfpatch.Widths.{number-Reads}

skip_word-plain :
    (c : ℕ) (b : Bytes) → is_space c ≡ false → (c == 0) ≡ false → skip_word (c ∷ b) ≡ skip_word b
unfolding skip_word
skip_word-plain zero b e f = cc
skip_word-plain (suc c) b e f = rw (e, skip_word)

pub skip_word-print_bytes :
    (bs t : Bytes) → AreBytes bs → skip_word (print_bytes bs ++ t) ≡ skip_word t
unfolding print_bytes print_byte
skip_word-print_bytes [] t all = refl
skip_word-print_bytes (b ∷ bs) t (small, all) =
    let (space, nul, _, _) = print_byte-plain (b / 16) (omega arith) in
    let (space', nul', _, _) = print_byte-plain (b % 16) (omega arith) in
    skip_word-plain _ _ space nul ∙ skip_word-plain _ _ space' nul' ∙ skip_word-print_bytes bs t all

-- The end of a line, and what the pointer is at once it has gone on to the next argument.
abbrev pub end_of_line : Bytes → Bytes
end_of_line rest = 10 ∷ 0 ∷ rest

abbrev pub following : List Item → Bytes → Bytes
following [] rest = 0 ∷ rest
following (i ∷ is) rest = print_item i (print_items is (end_of_line rest))

module _ (rest : Bytes) where
  advance-quote :
      (is : List Item) → advance (b'"' ∷ print_items is (end_of_line rest)) ≡ ok (following is rest)
  unfolding advance skip_word skip_blanks
  advance-quote [] = refl
  advance-quote (text bs ∷ is) = refl
  advance-quote (hex bs ∷ is) = refl

  pub advance-items :
      (is : List Item) → advance (print_items is (end_of_line rest)) ≡ ok (following is rest)
  unfolding advance skip_word skip_blanks
  advance-items [] = refl
  advance-items (text bs ∷ is) = refl
  advance-items (hex bs ∷ is) = refl

  terminated-item :
      (i : Item) (t : Bytes) → terminated t ≡ true → terminated (print_item i t) ≡ true
  terminated-item (text bs) t e =
      terminated-cons b'"' _ (terminated-print_text bs (b'"' ∷ t) (terminated-cons b'"' t e))
  terminated-item (hex bs) t e =
      terminated-cons b'0' _ (terminated-cons b'x' _ (terminated-append (print_bytes bs) t e))

  pub terminated-items : (is : List Item) → terminated (print_items is (end_of_line rest)) ≡ true
  unfolding terminated
  terminated-items [] = refl
  terminated-items (i ∷ is) =
      terminated-cons b' ' (print_item i (print_items is (end_of_line rest)))
        (terminated-item i (print_items is (end_of_line rest)) (terminated-items is))

  number_item-Reads :
      (bs p r : Bytes) (is : List Item)
      → AreBytes bs
      → HasWidth bs
      → 8 ≤ length r
      → Reads
          (print_items is (end_of_line rest))
          p
          (backwards bs)
          r
          (number (cursor (b'x' ∷ print_bytes bs ++ print_items is (end_of_line rest)) p r))
  number_item-Reads bs p r [] all wide room =
      number-Reads bs (0 ∷ rest) p r 10 all wide refl (terminated-items []) room
  number_item-Reads bs p r (i ∷ is) all wide room =
      number-Reads bs _ p r b' ' all wide refl (terminated-items (i ∷ is)) room

  length-print_text : (bs t : Bytes) → length bs ≤ length (print_text bs t)
  unfolding print_bytes print_byte
  length-print_text [] t = omega arith
  length-print_text (b ∷ []) t = omega arith
  length-print_text (b ∷ b' ∷ bs) t = omega (arith, length-print_text (b' ∷ bs) t)

  -- The loop over the arguments reads all of them, and stops at the end of the line.
  pub arguments-Reads :
      (rounds : ℕ) (is : List Item) (buf p r : Bytes)
      → length is < rounds
      → AreItems is
      → advance buf ≡ ok (following is rest)
      → length p + length r ≡ 1024
      → length (payloads is) + 8 ≤ length r
      → Reads (0 ∷ rest) p (payloads is) r (arguments rounds (cursor buf p r))
  unfolding arguments argument
  arguments-Reads zero is buf p r enough all at size room = absurd (omega arith)
  arguments-Reads (suc rounds) [] buf p r enough all at size room =
      (r, omega arith, rw at (ap (λ q. ok (cursor (0 ∷ rest) q r)) (sym (append-nil p))))
  arguments-Reads (suc rounds) (text bs ∷ is) buf p r enough (this, all) at size room =
      let left = print_items is (end_of_line rest) in
      let inner = print_text bs (b'"' ∷ left) in
      let (r1, l1, e1) =
        quoted-Reads (length inner + 1) bs left p r
          (omega (arith, length-print_text bs (b'"' ∷ left))) this (terminated-items is) size
          (omega (arith, length-append bs (payloads is))) in
      let (r2, l2, e2) =
        arguments-Reads rounds is (b'"' ∷ left) (p ++ bs) r1 (omega arith) all (advance-quote is)
          (omega (arith, length-append p bs)) (omega (arith, length-append bs (payloads is))) in
      (
        r2,
        omega (arith, length-append bs (payloads is)),
        rw (at, e1, e2) (ap (λ q. ok (cursor (0 ∷ rest) q r2)) (append_assoc p bs (payloads is))),
      )
  arguments-Reads (suc rounds) (hex bs ∷ is) buf p r enough (this, all) at size room =
      let left = print_items is (end_of_line rest) in
      let (r1, l1, e1) = number_item-Reads bs p r is this.0 this.1 (omega arith) in
      let out = backwards bs in
      let (r2, l2, e2) =
        arguments-Reads rounds is left (p ++ out) r1 (omega arith) all (advance-items is)
          (omega (arith, length-append p out)) (omega (arith, length-append out (payloads is))) in
      (
        r2,
        omega (arith, length-append out (payloads is)),
        rw (at, e1, e2) (ap (λ q. ok (cursor (0 ∷ rest) q r2)) (append_assoc p out (payloads is))),
      )
