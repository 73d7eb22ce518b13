-- ===== src/Libc/Hex.antt =====
-- Printing of bytes in hexadecimal, and what the scanners make of it.
use platform_system_bluetoot.Prelude.{
  ℕ, zero, suc, ◌+◌, ◌*◌, ◌/◌, ◌%◌, ◌<◌, ◌≡◌, refl, true, false, ◌||◌, none, some, [], ◌∷◌, ◌++◌,
  ap, ◌∙◌, arith, ltb, ◌==◌, if◌then◌else◌, Bytes, length,
}
use platform_system_bluetoot.Libc.Chars.{is_space, is_alnum, hex_value}
use platform_system_bluetoot.Libc.Scan.{
  has_digit, skip_spaces, take_sign, take_prefix, read_digits, scan_hex, strtoul_byte, strtol_byte,
}

-- A digit of `%X`.
unfoldable pub upper_digit : ℕ → ℕ
upper_digit d = if ltb d 10 then d + b'0' else d + 55

-- `%2.2X` of a byte.
unfoldable pub print_byte : ℕ → Bytes
print_byte b = upper_digit (b / 16) ∷ upper_digit (b % 16) ∷ []

-- A character that the scanners take for the digit `d`, and for nothing else.
record IsDigit (c d : ℕ) : Type 0 where
  value : hex_value c ≡ some d
  no_space : is_space c ≡ false
  no_minus : (c == b'-') ≡ false
  no_plus : (c == b'+') ≡ false
  no_x : (c == b'x' || c == b'X') ≡ false

upper_digit-IsDigit : (d : ℕ) → d < 16 → IsDigit (upper_digit d) d
unfolding upper_digit
upper_digit-IsDigit d h = ground arith

-- The rest of a text ends a number: it is empty, or begins with no digit.
abbrev pub EndsNumber : Bytes → Type 0
EndsNumber [] = Unit
EndsNumber (c ∷ cs) = hex_value c ≡ none

skip_spaces-digit : {c d : ℕ} (s : Bytes) → IsDigit c d → skip_spaces (c ∷ s) ≡ c ∷ s
unfolding skip_spaces
skip_spaces-digit s i = rw (i.no_space, skip_spaces)

take_sign-digit :
    {c d : ℕ} (w : ℕ) (s : Bytes) → IsDigit c d → take_sign w (c ∷ s) ≡ (false, w, c ∷ s)
unfolding take_sign
take_sign-digit w s i = ground arith

take_prefix-digit :
    {c' d' : ℕ} (w c : ℕ) (s : Bytes)
    → IsDigit c' d'
    → take_prefix w (c ∷ c' ∷ s) ≡ (false, w, c ∷ c' ∷ s)
unfolding take_prefix
take_prefix-digit w c s i = ground arith

-- A number ends where the digits do.
read_digits-end :
    (w acc : ℕ) (rest : Bytes) → EndsNumber rest → read_digits hex_value 16 w acc rest ≡ (acc, rest)
unfolding read_digits
read_digits-end zero acc rest e = refl
read_digits-end (suc w) acc [] e = refl
read_digits-end (suc w) acc (c ∷ rest) e = rw (e, read_digits)

read_digits-digit :
    {c d : ℕ} (w acc : ℕ) (s : Bytes)
    → IsDigit c d
    → read_digits hex_value 16 (suc w) acc (c ∷ s) ≡ read_digits hex_value 16 w (acc * 16 + d) s
unfolding read_digits
read_digits-digit w acc s i = rw (i.value, read_digits)

has_digit-digit :
    {c d : ℕ} (w : ℕ) (s : Bytes) → IsDigit c d → has_digit hex_value (suc w) (c ∷ s) ≡ true
has_digit-digit w s i = rw (i.value, has_digit)

strtoul_digits :
    {c c' d d' : ℕ} (rest : Bytes)
    → IsDigit c d
    → IsDigit c' d'
    → d < 16
    → d' < 16
    → EndsNumber rest
    → strtoul_byte (c ∷ c' ∷ rest) ≡ (d * 16 + d', rest)
unfolding strtoul_byte
strtoul_digits {c} {c'} rest i i' h h' e =
    rw
      (
        skip_spaces-digit (c' ∷ rest) i,
        take_sign-digit (length (c ∷ c' ∷ rest)) (c' ∷ rest) i,
        take_prefix-digit (length (c ∷ c' ∷ rest)) c rest i',
        has_digit-digit (suc (length rest)) (c' ∷ rest) i,
        read_digits-digit (suc (length rest)) 0 (c' ∷ rest) i,
        read_digits-digit (length rest) _ rest i',
        read_digits-end (length rest) _ rest e,
      )
      (ground arith)

-- `strtoul` reads back a byte that was printed, and stops behind it.
pub strtoul_byte-print_byte :
    (b : ℕ) (rest : Bytes)
    → b < 256
    → EndsNumber rest
    → strtoul_byte (print_byte b ++ rest) ≡ (b, rest)
unfolding print_byte
strtoul_byte-print_byte b rest h e =
    strtoul_digits rest (upper_digit-IsDigit (b / 16) (omega arith))
      (upper_digit-IsDigit (b % 16) (omega arith)) (omega arith) (omega arith) e
    ∙ ap (λ n. (n, rest)) (omega arith)

strtol_digits :
    {c c' d d' : ℕ} (rest : Bytes)
    → IsDigit c d
    → IsDigit c' d'
    → d < 16
    → d' < 16
    → EndsNumber rest
    → strtol_byte (c ∷ c' ∷ rest) ≡ (d * 16 + d', rest)
unfolding strtol_byte
strtol_digits {c} {c'} rest i i' h h' e =
    rw
      (
        skip_spaces-digit (c' ∷ rest) i,
        take_sign-digit (length (c ∷ c' ∷ rest)) (c' ∷ rest) i,
        take_prefix-digit (length (c ∷ c' ∷ rest)) c rest i',
        has_digit-digit (suc (length rest)) (c' ∷ rest) i,
        read_digits-digit (suc (length rest)) 0 (c' ∷ rest) i,
        read_digits-digit (length rest) _ rest i',
        read_digits-end (length rest) _ rest e,
      )
      (ground arith)

-- `strtol` reads back a byte that was printed, and stops behind it.
pub strtol_byte-print_byte :
    (b : ℕ) (rest : Bytes)
    → b < 256
    → EndsNumber rest
    → strtol_byte (print_byte b ++ rest) ≡ (b, rest)
unfolding print_byte
strtol_byte-print_byte b rest h e =
    strtol_digits rest (upper_digit-IsDigit (b / 16) (omega arith))
      (upper_digit-IsDigit (b % 16) (omega arith)) (omega arith) (omega arith) e
    ∙ ap (λ n. (n, rest)) (omega arith)

-- Bytes in hexadecimal, and their value as a number, the first one the highest.
unfoldable pub print_bytes : Bytes → Bytes
print_bytes [] = []
print_bytes (b ∷ bs) = print_byte b ++ print_bytes bs

-- Bytes with colons between them, in front of a text.
abbrev pub print_colon : Bytes → Bytes → Bytes
print_colon [] t = t
print_colon (_ ∷ _) t = b':' ∷ t

abbrev pub print_text : Bytes → Bytes → Bytes
print_text [] t = t
print_text (b ∷ bs) t = print_bytes (b ∷ []) ++ print_colon bs (print_text bs t)

-- The number of their digits.
abbrev pub digits : Bytes → ℕ
digits [] = 0
digits (b ∷ bs) = suc (suc (digits bs))

abbrev pub be_value : ℕ → Bytes → ℕ
be_value acc [] = acc
be_value acc (b ∷ bs) = be_value (acc * 256 + b) bs

abbrev pub AreBytes : Bytes → Type 0
AreBytes [] = Unit
AreBytes (b ∷ bs) = (b < 256) × AreBytes bs

read_digits-print_bytes :
    (bs rest : Bytes) (acc : ℕ)
    → AreBytes bs
    → read_digits hex_value 16 (digits bs) acc (print_bytes bs ++ rest) ≡ (be_value acc bs, rest)
unfolding print_bytes print_byte read_digits
read_digits-print_bytes [] rest acc all = refl
read_digits-print_bytes (b ∷ bs) rest acc (small, all) =
    let rest' : Bytes = upper_digit (b % 16) ∷ print_bytes bs ++ rest in
    rw
      (
        read_digits-digit (suc (digits bs)) acc rest' (upper_digit-IsDigit (b / 16) (omega arith)),
        read_digits-digit (digits bs) (acc * 16 + b / 16) (print_bytes bs ++ rest)
            (upper_digit-IsDigit (b % 16) (omega arith)),
        read_digits-print_bytes bs rest ((acc * 16 + b / 16) * 16 + b % 16) all,
      )
      (ap (λ v. (be_value v bs, rest)) (omega arith))

-- `sscanf` with a width reads as many bytes as the width has room for, and no more.
pub scan_hex-print_bytes :
    (b : ℕ) (bs rest : Bytes)
    → AreBytes (b ∷ bs)
    → scan_hex (digits (b ∷ bs)) (print_bytes (b ∷ bs) ++ rest) ≡ some (be_value 0 (b ∷ bs), rest)
unfolding scan_hex print_bytes print_byte
scan_hex-print_bytes b bs rest (small, all) =
    let high = upper_digit-IsDigit (b / 16) (omega arith) in
    let low = upper_digit-IsDigit (b % 16) (omega arith) in
    let rest' : Bytes = upper_digit (b % 16) ∷ print_bytes bs ++ rest in
    rw
      (
        skip_spaces-digit rest' high,
        take_sign-digit (digits (b ∷ bs)) rest' high,
        take_prefix-digit (digits (b ∷ bs)) (upper_digit (b / 16)) (print_bytes bs ++ rest) low,
        has_digit-digit (suc (digits bs)) rest' high,
      )
      (ap some (read_digits-print_bytes (b ∷ bs) rest 0 (small, all)))

-- The digits are no space, no NUL and no quote, and are alphanumeric.
pub print_byte-plain :
    (d : ℕ)
    → d < 16
    → (is_space (upper_digit d) ≡ false)
      × ((upper_digit d == 0) ≡ false)
      × ((upper_digit d == b'"') ≡ false)
      × (is_alnum (upper_digit d) ≡ true)
unfolding upper_digit
print_byte-plain d h = ground arith
