-- ===== src/Patchram/Readable.antt =====
-- How many bytes a read of the firmware file gets.
use native.Mathlib.Decide.{dec_lt}
use platform_system_bluetoot.Prelude.{
  ℕ, zero, suc, ◌+◌, ◌-◌, ◌<◌, ◌≤◌, ◌≡◌, ap, ◌∙◌, Bool, true, false, [], ◌∷◌, arith, Bytes, length,
  min, inl, inr, Bool-cases,
}
use platform_system_bluetoot.Patchram.Procedures.{readable}

pub readable_bounds :
    (hcd_fails : ℕ → Bool) (len : ℕ) (hcd : Bytes)
    → (readable hcd_fails len hcd ≤ len) × (readable hcd_fails len hcd ≤ length hcd)
unfolding readable
readable_bounds hcd_fails zero hcd = ground arith
readable_bounds hcd_fails (suc len) [] = ground arith
readable_bounds hcd_fails (suc len) (c ∷ hcd) = ground (arith, readable_bounds hcd_fails len hcd)

-- Where no read fails, only the end of the file makes the count smaller.
pub readable_all : (len : ℕ) (hcd : Bytes) → readable (λ _. false) len hcd ≡ min len (length hcd)
unfolding readable
readable_all zero hcd = ground arith
readable_all (suc len) [] = ground arith
readable_all (suc len) (c ∷ hcd) = ground (arith, readable_all len hcd)

-- A read that does not fail takes a byte, if there is one.
pub readable_positive :
    (hcd_fails : ℕ → Bool) (len : ℕ) (hcd : Bytes)
    → hcd_fails (length hcd) ≡ false
    → 0 < length hcd
    → 0 < readable hcd_fails (suc len) hcd
unfolding readable
readable_positive hcd_fails len [] ok more = absurd (omega arith)
readable_positive hcd_fails len (c ∷ hcd) ok more =
    let here : hcd_fails (length hcd + 1) ≡ false = ap hcd_fails (omega arith) ∙ ok in
    rw here (omega arith)

-- No read goes on behind a place where reads fail.
pub readable-stops :
    (hcd_fails : ℕ → Bool) (len : ℕ) (hcd : Bytes) (k : ℕ)
    → hcd_fails k ≡ true
    → k ≤ length hcd
    → k ≤ length hcd - readable hcd_fails len hcd
unfolding readable
readable-stops hcd_fails zero hcd k bad there = omega arith
readable-stops hcd_fails (suc len) [] k bad there = omega arith
readable-stops hcd_fails (suc len) (c ∷ hcd) k bad there =
    elim (Bool-cases (hcd_fails (length hcd + 1))) [
      | inl stop ↦ rw stop (omega arith)
      | inr ok ↦ rw ok (elim (dec_lt k (length hcd + 1)) [
        | yes less ↦ omega (arith, readable-stops hcd_fails len hcd k bad (omega arith))
        | no same ↦
            let e : hcd_fails k ≡ hcd_fails (length hcd + 1) = ap hcd_fails (omega arith) in cc
      ])
    ]
