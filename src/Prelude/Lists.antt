-- ===== src/Prelude/Lists.antt =====
-- Lists measured and indexed by native numbers, under the library's names.
use Prim.Native.Nat.{ℕ, zero, suc, ◌+◌, ◌-◌, ◌≤◌, min}
use Prim.Native.Char.{code}
use Prim.Native.String.{String}
use mathlib.Core.Path.{◌≡◌, refl, ap}
use mathlib.Core.Option.{Option, none, some}
use mathlib.Core.List.{List, [], ◌∷◌, ◌++◌}
use native.Mathlib.Omega.{arith}

abbrev pub Bytes : Type 0
Bytes = List ℕ

-- The bytes of an ASCII text.
abbrev pub codes : String → Bytes
codes String.[] = []
codes (String.◌∷◌ c s) = code c ∷ codes s

module _ {ℓ} {A : Type ℓ} where
  abbrev pub length : List A → ℕ
  length [] = 0
  length (x ∷ xs) = suc (length xs)

  abbrev pub get_elem? : List A → ℕ → Option A
  get_elem? [] i = none
  get_elem? (x ∷ xs) zero = some x
  get_elem? (x ∷ xs) (suc i) = get_elem? xs i

  abbrev pub get_or : List A → ℕ → A → A
  get_or [] i d = d
  get_or (x ∷ xs) zero d = x
  get_or (x ∷ xs) (suc i) d = get_or xs i d

  -- A write out of bounds changes nothing.
  abbrev pub set : List A → ℕ → A → List A
  set [] i v = []
  set (x ∷ xs) zero v = v ∷ xs
  set (x ∷ xs) (suc i) v = x ∷ set xs i v

  abbrev pub take : ℕ → List A → List A
  take zero xs = []
  take (suc n) [] = []
  take (suc n) (x ∷ xs) = x ∷ take n xs

  abbrev pub drop : ℕ → List A → List A
  drop zero xs = xs
  drop (suc n) [] = []
  drop (suc n) (x ∷ xs) = drop n xs

  abbrev pub replicate : ℕ → A → List A
  replicate zero a = []
  replicate (suc n) a = a ∷ replicate n a

module _ {ℓ} {A : Type ℓ} where
  pub length-append : (xs ys : List A) → length (xs ++ ys) ≡ length xs + length ys
  length-append [] ys = omega arith
  length-append (x ∷ xs) ys = omega (arith, length-append xs ys)

  pub length-take : (n : ℕ) (xs : List A) → length (take n xs) ≡ min n (length xs)
  length-take zero xs = omega arith
  length-take (suc n) [] = omega arith
  length-take (suc n) (x ∷ xs) = omega (arith, length-take n xs)

  pub length-drop : (n : ℕ) (xs : List A) → length (drop n xs) ≡ length xs - n
  length-drop zero xs = omega arith
  length-drop (suc n) [] = omega arith
  length-drop (suc n) (x ∷ xs) = omega (arith, length-drop n xs)

  pub take-append : (xs ys : List A) → take (length xs) (xs ++ ys) ≡ xs
  take-append [] ys = refl
  take-append (x ∷ xs) ys = ap (◌∷◌ x) (take-append xs ys)

  pub drop-append : (xs ys : List A) → drop (length xs) (xs ++ ys) ≡ ys
  drop-append [] ys = refl
  drop-append (x ∷ xs) ys = drop-append xs ys

-- `a[off .. off + length bs] := bs` in an array, whose other elements and length stay.
-- What would fall behind the end of the array is not written.
abbrev pub splice {ℓ} : {A : Type ℓ} → List A → ℕ → List A → List A
splice [] off bs = []
splice (x ∷ xs) zero [] = x ∷ xs
splice (x ∷ xs) zero (b ∷ bs) = b ∷ splice xs zero bs
splice (x ∷ xs) (suc off) bs = x ∷ splice xs off bs

module _ {ℓ} {A : Type ℓ} where
  pub length-splice : (xs : List A) (off : ℕ) (bs : List A) → length (splice xs off bs) ≡ length xs
  length-splice [] off bs = refl
  length-splice (x ∷ xs) zero [] = refl
  length-splice (x ∷ xs) zero (b ∷ bs) = ap suc (length-splice xs zero bs)
  length-splice (x ∷ xs) (suc off) bs = ap suc (length-splice xs off bs)

  -- What an array holds up to the end of a write that begins where a known part ends.
  pub take-splice :
      (xs : List A) (off : ℕ) (bs : List A)
      → off + length bs ≤ length xs
      → take (off + length bs) (splice xs off bs) ≡ take off xs ++ bs
  take-splice xs off bs h = go xs off bs (off + length bs) h refl
    where
      go :
          (xs : List A) (off : ℕ) (bs : List A) (n : ℕ)
          → off + length bs ≤ length xs
          → n ≡ off + length bs
          → take n (splice xs off bs) ≡ take off xs ++ bs
      go [] zero [] zero h e = refl
      go [] zero [] (suc n) h e = refl
      go [] zero (b ∷ bs) n h e = absurd (omega arith)
      go [] (suc off) bs n h e = absurd (omega arith)
      go (x ∷ xs) zero [] zero h e = refl
      go (x ∷ xs) zero [] (suc n) h e = absurd (omega arith)
      go (x ∷ xs) zero (b ∷ bs) zero h e = absurd (omega arith)
      go (x ∷ xs) zero (b ∷ bs) (suc n) h e =
          ap (◌∷◌ b) (go xs zero bs n (omega arith) (omega arith))
      go (x ∷ xs) (suc off) bs zero h e = absurd (omega arith)
      go (x ∷ xs) (suc off) bs (suc n) h e = ap (◌∷◌ x) (go xs off bs n (omega arith) (omega arith))

module _ {ℓ} {A : Type ℓ} where
  pub take-append_le : (n : ℕ) (xs ys : List A) → n ≤ length xs → take n (xs ++ ys) ≡ take n xs
  take-append_le zero xs ys h = refl
  take-append_le (suc n) [] ys h = absurd (omega arith)
  take-append_le (suc n) (x ∷ xs) ys h = ap (◌∷◌ x) (take-append_le n xs ys (omega arith))

  pub drop-append_le :
      (n : ℕ) (xs ys : List A) → n ≤ length xs → drop n (xs ++ ys) ≡ drop n xs ++ ys
  drop-append_le zero xs ys h = refl
  drop-append_le (suc n) [] ys h = absurd (omega arith)
  drop-append_le (suc n) (x ∷ xs) ys h = drop-append_le n xs ys (omega arith)

  pub take-append-drop : (n : ℕ) (xs : List A) → take n xs ++ drop n xs ≡ xs
  take-append-drop zero xs = refl
  take-append-drop (suc n) [] = refl
  take-append-drop (suc n) (x ∷ xs) = ap (◌∷◌ x) (take-append-drop n xs)

  pub take_all : (n : ℕ) (xs : List A) → length xs ≤ n → take n xs ≡ xs
  take_all zero [] h = refl
  take_all zero (x ∷ xs) h = absurd (omega arith)
  take_all (suc n) [] h = refl
  take_all (suc n) (x ∷ xs) h = ap (◌∷◌ x) (take_all n xs (omega arith))

  pub splice-nil : (xs : List A) (off : ℕ) → splice xs off [] ≡ xs
  splice-nil [] off = refl
  splice-nil (x ∷ xs) zero = refl
  splice-nil (x ∷ xs) (suc off) = ap (◌∷◌ x) (splice-nil xs off)

  -- Two writes, the second behind the first, are one.
  pub splice-splice :
      (xs : List A) (off : ℕ) (bs cs : List A) (end : ℕ)
      → end ≡ off + length bs
      → splice (splice xs off bs) end cs ≡ splice xs off (bs ++ cs)
  splice-splice [] off bs cs end e = refl
  splice-splice (x ∷ xs) zero [] cs zero e = refl
  splice-splice (x ∷ xs) zero [] cs (suc end) e = absurd (omega arith)
  splice-splice (x ∷ xs) zero (b ∷ bs) cs zero e = absurd (omega arith)
  splice-splice (x ∷ xs) zero (b ∷ bs) cs (suc end) e =
      ap (◌∷◌ b) (splice-splice xs zero bs cs end (omega arith))
  splice-splice (x ∷ xs) (suc off) bs cs zero e = absurd (omega arith)
  splice-splice (x ∷ xs) (suc off) bs cs (suc end) e =
      ap (◌∷◌ x) (splice-splice xs off bs cs end (omega arith))

  pub take-splice-zero :
      (xs bs : List A) → length bs ≤ length xs → take (length bs) (splice xs zero bs) ≡ bs
  take-splice-zero xs [] h = refl
  take-splice-zero [] (b ∷ bs) h = absurd (omega arith)
  take-splice-zero (x ∷ xs) (b ∷ bs) h = ap (◌∷◌ b) (take-splice-zero xs bs (omega arith))
