-- ===== src/Brfpatch/Numbers.antt =====
-- The numbers of a line of brfpatch/brfpatch.c stay within the arrays.
use platform_system_bluetoot.Prelude.{
  ℕ, zero, suc, ◌+◌, ◌-◌, ◌≡◌, refl, ap, sym, subst, ◌∙◌, [], ◌∷◌, arith, Bytes, length, drop, ◌==◌,
  not, length-drop,
}
use platform_system_bluetoot.Brfpatch.Memory.{ok, exit_1, ◌>>=◌, fail_if, count_alnum}
use platform_system_bluetoot.Brfpatch.Line.{Cursor, take_hex, take_long, take_number, number}
use platform_system_bluetoot.Brfpatch.Safety.{
  InLine, Safe, Safe-bind, Safe-mono, Safe-if, InLine-tail, Counted, count_alnum-Counted,
}
use platform_system_bluetoot.Brfpatch.Bounds.{
  Fits, Went, Took, some_byte, take_hex-Took, digits-Went,
}

drop-nil : (n : ℕ) → drop {A = ℕ} n [] ≡ []
drop-nil zero = refl
drop-nil (suc n) = refl

drop-drop : (m n : ℕ) (xs : Bytes) → drop m (drop n xs) ≡ drop (n + m) xs
drop-drop m zero xs = ap (λ k. drop k xs) (omega arith)
drop-drop m (suc n) [] = drop-nil m ∙ sym (drop-nil (suc n + m))
drop-drop m (suc n) (x ∷ xs) =
    drop-drop m n xs
    ∙ ap (λ k. drop k (x ∷ xs)) (let e : suc (n + m) ≡ suc n + m = omega arith in e)

-- Sixteen digits are read in two halves.
take_long-Went : (c : Cursor) → Fits c → Counted c.buf 16 → Safe (Went 0 c) (take_long c)
unfolding take_long
take_long-Went c f (within, long) =
    let high : Cursor = record c { dp = c.dp + 4 } in
    let byte = some_byte c.buf f.in_line in
    Safe-bind (Took 8 8 0 high) (Went 0 c) (take_hex 8 8 0 high)
      (λ h. take_hex 8 8 8 (record h { dp = h.dp - 4 }))
      (take_hex-Took 8 8 0 high f.in_line (omega (arith, f.room)) f.size)
      λ h (at, dp, size, _, _).
        let low : Cursor = record h { dp = h.dp - 4 } in
        let half = subst InLine (sym at) (within 8 (omega arith)) in
        Safe-mono (Took 8 8 8 low) (Went 0 c) (take_hex 8 8 8 low)
          (take_hex-Took 8 8 8 low half (omega (arith, f.room)) size)
          λ c' (at2, dp2, size2, _, _).
            let e : c'.buf ≡ drop 16 c.buf = at2 ∙ ap (drop 8) at ∙ drop-drop 8 8 c.buf in
            let l : length c'.buf ≡ length c.buf - 16 = ap length e ∙ length-drop 16 c.buf in
            (
              record {
                in_line = subst InLine (sym e) (within 16 (omega arith));
                room = omega (arith, f.room);
                size = size2;
              },
              omega arith,
            )

take_number-Went :
    (n : ℕ) (c : Cursor) → Fits c → Counted c.buf n → Safe (Went 0 c) (take_number n c)
unfolding take_number
take_number-Went n c f (within, long) =
    let P = Went 0 c in
    Safe-if P (n == 2) _ _
      (λ e. digits-Went 2 2 1 c f (within 2 (ground arith)) (ground arith) (omega arith))
      λ _.
        Safe-if P (n == 4) _ _
          (λ e. digits-Went 4 4 2 c f (within 4 (ground arith)) (ground arith) (omega arith))
          λ _.
            Safe-if P (n == 6) _ _
              (λ e. digits-Went 6 6 3 c f (within 6 (ground arith)) (ground arith) (omega arith))
              λ _.
                Safe-if P (n == 8) _ _
                  (λ e.
                    digits-Went 8 8 4 c f (within 8 (ground arith)) (ground arith) (omega arith))
                  λ _.
                    Safe-if P (n == 16) _ _
                      (λ e. take_long-Went c f ((λ k small. within k (ground arith)), ground arith))
                      (λ _. tt)

pub number-Went :
    (buf : Bytes) (c : Cursor)
    → Fits (record c { buf = buf })
    → Safe (Went 0 (record c { buf = buf })) (number (record c { buf = buf }))
unfolding number
number-Went [] c f = absurd f.in_line
number-Went (zero ∷ buf) c f = tt
number-Went (suc d ∷ buf) c f =
    let digits : Cursor = record c { buf = buf } in
    let fits : Fits digits = record {
      in_line = InLine-tail d buf f.in_line;
      room = omega (arith, f.room);
      size = f.size;
    } in
    Safe-bind (λ _. Unit) (Went 0 (record c { buf = suc d ∷ buf })) (fail_if (not (suc d == b'x')))
      (λ _. count_alnum buf >>= λ n. take_number n digits)
      (Safe-if (λ _. Unit {0}) (not (suc d == b'x')) exit_1 (ok tt) (λ _. tt) (λ _. tt))
      λ _ _.
        Safe-bind (Counted buf) (Went 0 (record c { buf = suc d ∷ buf })) (count_alnum buf)
          (λ n. take_number n digits) (count_alnum-Counted buf fits.in_line)
          λ n m.
            Safe-mono (Went 0 digits) (Went 0 (record c { buf = suc d ∷ buf }))
              (take_number n digits) (take_number-Went n digits fits m)
              (λ c' w. (w.0, omega (arith, w.1)))
