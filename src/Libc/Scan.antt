-- ===== src/Libc/Scan.antt =====
-- `sscanf` of `%x`, `%d` and of rows of these with a separator, `atoi`, `strtoul` in base 16.
use platform_system_bluetoot.Prelude.{
  ℕ, zero, suc, ◌+◌, ◌-◌, ◌*◌, ◌%◌, ◌^◌, Bool, true, false, ◌&&◌, ◌||◌, Option, none, some, List,
  [], ◌∷◌, ◌==◌, ltb, if◌then◌else◌, Bytes, ℤ, pos, negsuc, length,
}
use platform_system_bluetoot.Libc.Chars.{is_space, hex_value, dec_value}

unfoldable pub skip_spaces : Bytes → Bytes
skip_spaces [] = []
skip_spaces (c ∷ cs) = elim (is_space c) [ true ↦ skip_spaces cs | false ↦ c ∷ cs ]

-- At most `w` digits onto `acc`, and what follows them.
unfoldable pub read_digits : (ℕ → Option ℕ) → ℕ → ℕ → ℕ → Bytes → ℕ × Bytes
read_digits digit base zero acc s = (acc, s)
read_digits digit base (suc w) acc [] = (acc, [])
read_digits digit base (suc w) acc (c ∷ cs) = elim (digit c) [
  | none ↦ (acc, c ∷ cs)
  | some v ↦ read_digits digit base w (acc * base + v) cs
]

-- Is there a digit within the width?
abbrev pub has_digit : (ℕ → Option ℕ) → ℕ → Bytes → Bool
has_digit digit zero s = false
has_digit digit (suc w) [] = false
has_digit digit (suc w) (c ∷ cs) = elim (digit c) [ none ↦ false | some _ ↦ true ]

-- An optional sign: is it a minus, the width left, the rest.
unfoldable pub take_sign : ℕ → Bytes → Bool × ℕ × Bytes
take_sign w [] = (false, w, [])
take_sign w (c ∷ cs) =
    if c == b'-'
    then (true, w - 1, cs)
    else if c == b'+'
    then (false, w - 1, cs)
    else (false, w, c ∷ cs)

abbrev is_x : ℕ → Bool
is_x c = c == b'x' || c == b'X'

-- An optional `0x`: is it there, the width left, the rest.
unfoldable pub take_prefix : ℕ → Bytes → Bool × ℕ × Bytes
take_prefix w (z ∷ x ∷ cs) =
    if ltb 1 w && z == b'0' && is_x x then (true, w - 2, cs) else (false, w, z ∷ x ∷ cs)
take_prefix w s = (false, w, s)

-- `- x` in an `unsigned int`
abbrev pub negate32 : Bool → ℕ → ℕ
negate32 true v = (2 ^ 32 - v) % 2 ^ 32
negate32 false v = v

-- `%wx` with a width of at most 8: the value and what follows, or a matching or input failure.
unfoldable pub scan_hex : ℕ → Bytes → Option (ℕ × Bytes)
scan_hex w s =
    let (minus, w', s') = take_sign w (skip_spaces s) in
    let (_, w2, t) = take_prefix w' s' in
    if has_digit hex_value w2 t
    then (let (v, rest) = read_digits hex_value 16 w2 0 t in some (negate32 minus v, rest))
    else none

abbrev negate : Bool → ℕ → ℤ
negate true zero = pos 0
negate true (suc n) = negsuc n
negate false n = pos n

-- `%d`. A value that no `int` holds is undefined behaviour in C, and itself here.
unfoldable pub scan_dec : Bytes → Option (ℤ × Bytes)
scan_dec s =
    let t = skip_spaces s in
    let (minus, w, u) = take_sign (length t) t in
    if has_digit dec_value w u
    then (let (v, rest) = read_digits dec_value 10 w 0 u in some (negate minus v, rest))
    else none

-- `atoi`
unfoldable pub atoi : Bytes → ℤ
atoi s = elim (scan_dec s) [ none ↦ pos 0 | some (v, _) ↦ v ]

-- Up to `n` conversions with `sep` between them: the values that `sscanf` assigned, in order.
unfoldable pub scan_row {ℓ} : {A : Type ℓ} → (Bytes → Option (A × Bytes)) → ℕ → ℕ → Bytes → List A
scan_row conv sep zero s = []
scan_row conv sep (suc n) s = elim (conv s) [
  | none ↦ []
  | some (v, []) ↦ v ∷ []
  | some (v, c ∷ cs) ↦ v ∷ elim (c == sep) [ true ↦ scan_row conv sep n cs | false ↦ [] ]
]

-- `(uint8_t) strtoul(s, &end, 16)` and `end`, for an `unsigned long` of 32 bits: on overflow the
-- result is ULONG_MAX, whose low byte is 255.
unfoldable pub strtoul_byte : Bytes → ℕ × Bytes
strtoul_byte s =
    let t = skip_spaces s in
    let (minus, w, u) = take_sign (length t) t in
    let (prefixed, w', t') = take_prefix w u in
    if has_digit hex_value w' t'
    then (let (v, rest) = read_digits hex_value 16 w' 0 t' in
        (if ltb v (2 ^ 32) then negate32 minus v % 256 else 255, rest))
    -- "0x" with no digit behind it is the number 0, and "x" is not read
    else if prefixed
    then (0, elim u [ [] ↦ [] | _ ∷ r ↦ r ])
    else (0, s)

-- `strtol(s, &end, 16)` as an `unsigned char`, and `end`, for a `long` of 32 bits: on overflow the
-- result is LONG_MAX or LONG_MIN, whose low bytes are 255 and 0.
unfoldable pub strtol_byte : Bytes → ℕ × Bytes
strtol_byte s =
    let t = skip_spaces s in
    let (minus, w, u) = take_sign (length t) t in
    let (prefixed, w', t') = take_prefix w u in
    if has_digit hex_value w' t'
    then (let (v, rest) = read_digits hex_value 16 w' 0 t' in
        (if ltb v (2 ^ 31) then negate32 minus v % 256 else if minus then 0 else 255, rest))
    else if prefixed
    then (0, elim u [ [] ↦ [] | _ ∷ r ↦ r ])
    else (0, s)
