-- ===== src/Brfpatch/Safety.antt =====
-- Moves and reads of brfpatch/brfpatch.c within a line that ends with a newline.
use platform_system_bluetoot.Prelude.{
  ℕ, zero, suc, ◌+◌, ◌≤◌, ◌≡◌, refl, Bool, true, false, none, some, [], ◌∷◌, arith, if◌then◌else◌,
  Bytes, length, drop,
}
use platform_system_bluetoot.Libc.Chars.{is_space, is_alnum}
use platform_system_bluetoot.Libc.Scan.{scan_hex, skip_spaces, take_sign, take_prefix}
use platform_system_bluetoot.Brfpatch.Memory.{
  Result, ok, exit_1, fault, out_of_rounds, ◌>>=◌, next, skip_word, skip_blanks, advance,
  count_alnum, terminated,
}

-- From here to the next NUL there are the bytes of a line, the last of them a newline, or none.
abbrev pub InLine : Bytes → Type 0
InLine [] = ⊥
InLine (zero ∷ buf) = Unit
InLine (suc c ∷ []) = ⊥
InLine (suc c ∷ zero ∷ buf) = suc c ≡ 10
InLine (suc c ∷ suc d ∷ buf) = InLine (suc d ∷ buf)

-- A run goes on with a result that this holds of, or leaves the program by FAILIF.
abbrev pub Safe : {A : Type 0} → (A → Type 0) → Result A → Type 0
Safe P (ok a) = P a
Safe P exit_1 = Unit
Safe P fault = ⊥
Safe P out_of_rounds = ⊥

pub Safe-bind :
    {A B : Type 0} (P : A → Type 0) (Q : B → Type 0) (r : Result A) (f : A → Result B)
    → Safe P r
    → ((a : A) → P a → Safe Q (f a))
    → Safe Q (r >>= f)
Safe-bind P Q (ok a) f p next = next a p
Safe-bind P Q exit_1 f p next = tt
Safe-bind P Q fault f p next = absurd p
Safe-bind P Q out_of_rounds f p next = absurd p

pub Safe-mono :
    {A : Type 0} (P Q : A → Type 0) (r : Result A) → Safe P r → ((a : A) → P a → Q a) → Safe Q r
Safe-mono P Q (ok a) p next = next a p
Safe-mono P Q exit_1 p next = tt
Safe-mono P Q fault p next = absurd p
Safe-mono P Q out_of_rounds p next = absurd p

pub Safe-elim :
    {A : Type 0} (P : A → Type 0) (b : Bool) (m n : Result A)
    → Safe P m
    → Safe P n
    → Safe P (elim b [ true ↦ m | false ↦ n ])
Safe-elim P true m n this that = this
Safe-elim P false m n this that = that

pub Safe-if :
    {A : Type 0} (P : A → Type 0) (b : Bool) (m n : Result A)
    → (b ≡ true → Safe P m)
    → (b ≡ false → Safe P n)
    → Safe P (if b then m else n)
Safe-if P true m n this that = this refl
Safe-if P false m n this that = that refl

pub InLine-tail : (c : ℕ) (buf : Bytes) → InLine (suc c ∷ buf) → InLine buf
InLine-tail c [] h = absurd h
InLine-tail c (zero ∷ buf) h = tt
InLine-tail c (suc d ∷ buf) h = h

-- The pointer is within the line, not in front of where it was.
abbrev pub Moved : Bytes → Bytes → Type 0
Moved buf buf' = InLine buf' × (length buf' ≤ length buf)

skip_word-Moved : (buf : Bytes) → InLine buf → Safe (Moved buf) (skip_word buf)
unfolding skip_word
skip_word-Moved [] h = absurd h
skip_word-Moved (zero ∷ buf) h = (tt, omega arith)
skip_word-Moved (suc c ∷ buf) h =
    Safe-elim (Moved (suc c ∷ buf)) (is_space (suc c)) (ok (suc c ∷ buf)) (skip_word buf)
      (h, omega arith)
      (Safe-mono (Moved buf) (Moved (suc c ∷ buf)) (skip_word buf)
        (skip_word-Moved buf (InLine-tail c buf h)) (λ b m. (m.0, omega (arith, m.1))))

pub skip_blanks-Moved : (buf : Bytes) → InLine buf → Safe (Moved buf) (skip_blanks buf)
unfolding skip_blanks
skip_blanks-Moved [] h = absurd h
skip_blanks-Moved (zero ∷ buf) h = (tt, omega arith)
skip_blanks-Moved (suc c ∷ buf) h =
    Safe-elim (Moved (suc c ∷ buf)) (is_space (suc c)) (skip_blanks buf) (ok (suc c ∷ buf))
      (Safe-mono (Moved buf) (Moved (suc c ∷ buf)) (skip_blanks buf)
        (skip_blanks-Moved buf (InLine-tail c buf h)) (λ b m. (m.0, omega (arith, m.1))))
      (h, omega arith)

pub advance-Moved : (buf : Bytes) → InLine buf → Safe (Moved buf) (advance buf)
unfolding advance
advance-Moved buf h =
    Safe-bind (Moved buf) (Moved buf) (skip_word buf) skip_blanks (skip_word-Moved buf h) λ b m.
      Safe-mono (Moved b) (Moved buf) (skip_blanks b) (skip_blanks-Moved b m.0)
        (λ b' m'. (m'.0, omega (arith, m.1, m'.1)))

-- The counted letters and digits lie within the line.
abbrev pub Counted : Bytes → ℕ → Type 0
Counted buf n = ((k : ℕ) → k ≤ n → InLine (drop k buf)) × (n ≤ length buf)

count_one : (buf : Bytes) → InLine buf → Counted buf 0
count_one buf h = (go, omega arith)
  where
    go : (k : ℕ) → k ≤ 0 → InLine (drop k buf)
    go zero small = h
    go (suc k) small = absurd (omega arith)

count_more :
    (c : ℕ) (buf : Bytes) (n : ℕ) → InLine (c ∷ buf) → Counted buf n → Counted (c ∷ buf) (suc n)
count_more c buf n h m = (go, omega (arith, m.1))
  where
    go : (k : ℕ) → k ≤ suc n → InLine (drop k (c ∷ buf))
    go zero small = h
    go (suc k) small = m.0 k (omega arith)

pub count_alnum-Counted : (buf : Bytes) → InLine buf → Safe (Counted buf) (count_alnum buf)
unfolding count_alnum
count_alnum-Counted [] h = absurd h
count_alnum-Counted (zero ∷ buf) h = count_one (zero ∷ buf) h
count_alnum-Counted (suc c ∷ buf) h =
    Safe-elim (Counted (suc c ∷ buf)) (is_alnum (suc c)) (count_alnum buf >>= λ n. ok (suc n))
      (ok 0)
      (Safe-bind (Counted buf) (Counted (suc c ∷ buf)) (count_alnum buf) (λ n. ok (suc n))
        (count_alnum-Counted buf (InLine-tail c buf h)) (λ n m. count_more (suc c) buf n h m))
      (count_one (suc c ∷ buf) h)

pub terminated-InLine : (buf : Bytes) → InLine buf → terminated buf ≡ true
unfolding terminated
terminated-InLine [] h = absurd h
terminated-InLine (zero ∷ buf) h = refl
terminated-InLine (suc c ∷ buf) h = terminated-InLine buf (InLine-tail c buf h)

-- A newline is no number.
scan_hex-newline : (buf : Bytes) → scan_hex 2 (10 ∷ 0 ∷ buf) ≡ none
unfolding scan_hex skip_spaces take_sign take_prefix
scan_hex-newline [] = refl
scan_hex-newline (c ∷ buf) = refl

-- Two characters can be passed where a number of two digits was read.
pub InLine-two :
    (c : ℕ) (buf : Bytes) (v : ℕ × Bytes)
    → InLine (suc c ∷ buf)
    → scan_hex 2 (suc c ∷ buf) ≡ some v
    → InLine (drop 2 (suc c ∷ buf)) × (length (drop 2 (suc c ∷ buf)) + 2 ≤ length (suc c ∷ buf))
InLine-two c [] v h e = absurd h
InLine-two c (zero ∷ buf) v h e =
    let newline : scan_hex 2 (suc c ∷ 0 ∷ buf) ≡ none = rw h (scan_hex-newline buf) in cc
InLine-two c (suc d ∷ buf) v h e = (InLine-tail d buf h, omega arith)
