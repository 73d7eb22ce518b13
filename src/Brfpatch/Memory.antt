-- ===== src/Brfpatch/Memory.antt =====
-- The line buffer of brfpatch/brfpatch.c, and the moves of a pointer into it. A pointer is what the
-- buffer holds from there to its end, so that reading the empty list is reading outside of it.
use platform_system_bluetoot.Prelude.{
  ℕ, zero, suc, Bool, true, false, none, some, [], ◌∷◌, if◌then◌else◌, Bytes,
}
use platform_system_bluetoot.Libc.Chars.{is_space, is_alnum}
use platform_system_bluetoot.Libc.Scan.{scan_hex}

-- A run goes on, leaves the program by FAILIF, accesses memory outside of an array, or uses up the
-- rounds of a loop.
pub data Result (A : Type 0) : Type 0 where
  ok : A → Result A
  exit_1 fault out_of_rounds : Result A

infixl 5 ◌>>=◌ ◌>>◌
abbrev pub ◌>>=◌ : {A B : Type 0} → Result A → (A → Result B) → Result B
ok a >>= f = f a
exit_1 >>= f = exit_1
fault >>= f = fault
out_of_rounds >>= f = out_of_rounds

abbrev pub ◌>>◌ : {A B : Type 0} → Result A → Result B → Result B
m >> n = m >>= λ _. n

abbrev pub fail_if : Bool → Result (Unit {0})
fail_if b = if b then exit_1 else ok tt

-- `*buf`
abbrev pub deref : Bytes → Result ℕ
deref [] = fault
deref (c ∷ buf) = ok c

-- `buf++`
abbrev pub next : Bytes → Bytes
next [] = []
next (c ∷ buf) = buf

-- `while (*b && !isspace(*b)) b++;`
unfoldable pub skip_word : Bytes → Result Bytes
skip_word [] = fault
skip_word (zero ∷ b) = ok (zero ∷ b)
skip_word (suc c ∷ b) = elim (is_space (suc c)) [ true ↦ ok (suc c ∷ b) | false ↦ skip_word b ]

-- `while (*b && isspace(*b)) b++;`
unfoldable pub skip_blanks : Bytes → Result Bytes
skip_blanks [] = fault
skip_blanks (zero ∷ b) = ok (zero ∷ b)
skip_blanks (suc c ∷ b) = elim (is_space (suc c)) [ true ↦ skip_blanks b | false ↦ ok (suc c ∷ b) ]

-- `advance`: where the pointer is after it. The value returned is -1 where a NUL is there.
unfoldable pub advance : Bytes → Result Bytes
advance buf = do b ← skip_word buf; skip_blanks b

-- `end - buf` after `while (isalnum(*end)) end++;`
unfoldable pub count_alnum : Bytes → Result ℕ
count_alnum [] = fault
count_alnum (c ∷ buf) = elim (is_alnum c) [
  | true ↦ (count_alnum buf >>= λ n. ok (suc n))
  | false ↦ ok 0
]

-- The string at the pointer ends within the buffer.
unfoldable pub terminated : Bytes → Bool
terminated [] = false
terminated (zero ∷ buf) = true
terminated (suc c ∷ buf) = terminated buf

-- `sscanf(buf, "%0wx", &v)`, which has to return 1.
unfoldable pub scan : ℕ → Bytes → Result ℕ
scan w buf =
    if terminated buf then elim (scan_hex w buf) [ none ↦ exit_1 | some (v, _) ↦ ok v ] else fault
