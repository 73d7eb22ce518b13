-- ===== src/Libc/Rows.antt =====
-- What `sscanf` makes of rows of values, and of numbers in decimal.
use platform_system_bluetoot.Prelude.{
  ℕ, zero, suc, ◌+◌, ◌*◌, ◌/◌, ◌%◌, ◌<◌, ◌≡◌, refl, ap, ◌∙◌, inl, inr, Bool-cases, true, false,
  Option, none, some, List, [], ◌∷◌, ◌++◌, arith, ◌==◌, ltb, if◌then◌else◌, Bytes, pos, length,
}
use platform_system_bluetoot.Libc.Chars.{is_space, dec_value}
use platform_system_bluetoot.Libc.Scan.{
  skip_spaces, take_sign, read_digits, has_digit, scan_dec, scan_row,
}

-- The parts of a row.
module _ {A : Type 0} (conv : Bytes → Option (A × Bytes)) (sep n : ℕ) (s : Bytes) where
  pub scan_row-none : conv s ≡ none → scan_row conv sep (suc n) s ≡ []
  unfolding scan_row
  scan_row-none e = rw (e, scan_row)

  pub scan_row-last : (v : A) → conv s ≡ some (v, []) → scan_row conv sep (suc n) s ≡ v ∷ []
  unfolding scan_row
  scan_row-last v e = rw (e, scan_row)

  pub scan_row-more :
      (v : A) (cs : Bytes)
      → (sep == sep) ≡ true
      → conv s ≡ some (v, sep ∷ cs)
      → scan_row conv sep (suc n) s ≡ v ∷ scan_row conv sep n cs
  unfolding scan_row
  scan_row-more v cs same e = rw (e, scan_row, same)

abbrev AreDigits : List ℕ → Type 0
AreDigits [] = Unit
AreDigits (d ∷ ds) = (d < 10) × AreDigits ds

abbrev pub characters : List ℕ → Bytes
characters [] = []
characters (d ∷ ds) = (d + b'0') ∷ characters ds

abbrev value : ℕ → List ℕ → ℕ
value acc [] = acc
value acc (d ∷ ds) = value (acc * 10 + d) ds

-- A number ends where the digits do.
abbrev pub EndsDecimal : Bytes → Type 0
EndsDecimal [] = Unit
EndsDecimal (c ∷ cs) = dec_value c ≡ none

dec_value-character : (d : ℕ) → d < 10 → dec_value (d + b'0') ≡ some d
dec_value-character d h = ground arith

read_digits-end :
    (w acc : ℕ) (rest : Bytes)
    → EndsDecimal rest
    → read_digits dec_value 10 w acc rest ≡ (acc, rest)
unfolding read_digits
read_digits-end zero acc rest e = refl
read_digits-end (suc w) acc [] e = refl
read_digits-end (suc w) acc (c ∷ rest) e = rw (e, read_digits)

read_digits-characters :
    (ds : List ℕ) (rest : Bytes) (acc : ℕ)
    → AreDigits ds
    → EndsDecimal rest
    → read_digits dec_value 10 (length (characters ds ++ rest)) acc (characters ds ++ rest)
      ≡ (value acc ds, rest)
unfolding read_digits
read_digits-characters [] rest acc all e = read_digits-end (length rest) acc rest e
read_digits-characters (d ∷ ds) rest acc (small, all) e =
    rw (dec_value-character d small, read_digits)
      (read_digits-characters ds rest (acc * 10 + d) all e)

skip_spaces-character : (d : ℕ) (s : Bytes) → d < 10 → skip_spaces ((d + b'0') ∷ s) ≡ (d + b'0') ∷ s
unfolding skip_spaces
skip_spaces-character d s h =
    let no_space : is_space (d + b'0') ≡ false = ground arith in rw (no_space, skip_spaces)

take_sign-character :
    (d w : ℕ) (s : Bytes) → d < 10 → take_sign w ((d + b'0') ∷ s) ≡ (false, w, (d + b'0') ∷ s)
unfolding take_sign
take_sign-character d w s h = ground arith

has_digit-character :
    (d w : ℕ) (s : Bytes) → d < 10 → has_digit dec_value (suc w) ((d + b'0') ∷ s) ≡ true
has_digit-character d w s h = rw (dec_value-character d h, has_digit)

scan_dec-characters :
    (d : ℕ) (ds : List ℕ) (rest : Bytes)
    → AreDigits (d ∷ ds)
    → EndsDecimal rest
    → scan_dec (characters (d ∷ ds) ++ rest) ≡ some (pos (value 0 (d ∷ ds)), rest)
unfolding scan_dec
scan_dec-characters d ds rest (small, all) e =
    let more : Bytes = characters ds ++ rest in
    rw
      (
        skip_spaces-character d more small,
        take_sign-character d (suc (length more)) more small,
        has_digit-character d (length more) more small,
      )
      (ap (λ r. some (pos r.0, r.1)) (read_digits-characters (d ∷ ds) rest 0 (small, all) e))

-- A byte in decimal.
unfoldable pub decimal_digits : ℕ → List ℕ
decimal_digits v =
    if ltb v 10
    then v ∷ []
    else if ltb v 100
    then v / 10 ∷ v % 10 ∷ []
    else v / 100 ∷ v / 10 % 10 ∷ v % 10 ∷ []

unfoldable pub print_decimal : ℕ → Bytes
print_decimal v = characters (decimal_digits v)

pub scan_dec-print_decimal :
    (v : ℕ) (rest : Bytes)
    → v < 256
    → EndsDecimal rest
    → scan_dec (print_decimal v ++ rest) ≡ some (pos v, rest)
unfolding print_decimal decimal_digits
scan_dec-print_decimal v rest small e = elim (Bool-cases (ltb v 10)) [
  | inl one ↦
      let h : v < 10 = ground arith in
      rw one (scan_dec-characters v [] rest (h, tt) e ∙ ap (λ n. some (pos n, rest)) (omega arith))
  | inr more ↦ elim (Bool-cases (ltb v 100)) [
    | inl two ↦
        let h : v < 100 = ground arith in
        rw (more, two)
          (scan_dec-characters (v / 10) (v % 10 ∷ []) rest (omega arith, (omega arith, tt)) e
            ∙ ap (λ n. some (pos n, rest)) (omega arith))
    | inr three ↦
        rw (more, three)
          (scan_dec-characters (v / 100) (v / 10 % 10 ∷ v % 10 ∷ []) rest
              (omega arith, (omega arith, (omega arith, tt))) e
            ∙ ap (λ n. some (pos n, rest)) (omega arith))
  ]
]

-- Bytes in decimal with commas between them.
abbrev pub print_decimals : Bytes → Bytes
print_decimals [] = []
print_decimals (v ∷ []) = print_decimal v
print_decimals (v ∷ v' ∷ vs) = print_decimal v ++ b',' ∷ print_decimals (v' ∷ vs)
