-- ===== src/Brfpatch/Widths.antt =====
-- What `number` of brfpatch/brfpatch.c reads of a printed number of each width.
use platform_system_bluetoot.Prelude.{
  ℕ, ◌+◌, ◌/◌, ◌%◌, ◌-◌, ◌≤◌, ◌≡◌, refl, ap, ◌∙◌, true, false, [], ◌∷◌, ◌++◌, arith, Bytes, length,
  splice, splice-nil, length-append,
}
use platform_system_bluetoot.Libc.Hex.{
  print_byte, print_bytes, digits, be_value, AreBytes, print_byte-plain,
}
use platform_system_bluetoot.Patchram.Globals.{le32}
use platform_system_bluetoot.Brfpatch.Memory.{ok, terminated, count_alnum}
use platform_system_bluetoot.Libc.Chars.{is_alnum}
use platform_system_bluetoot.Brfpatch.Line.{take_long, take_number, number}
use platform_system_bluetoot.Brfpatch.Script.{HasWidth, backwards}
use platform_system_bluetoot.Brfpatch.Reads.{
  cursor, Reads, take_hex-append, ok-cursor, digits-Reads, le32-1, le32-2, le32-3, le32-4,
  terminated-append,
}

count_alnum-print_bytes :
    (bs t : Bytes) (c : ℕ)
    → AreBytes bs
    → is_alnum c ≡ false
    → count_alnum (print_bytes bs ++ c ∷ t) ≡ ok (digits bs)
unfolding print_bytes print_byte count_alnum
count_alnum-print_bytes [] t c all e = rw (e, count_alnum)
count_alnum-print_bytes (b ∷ bs) t c (small, all) e =
    let (_, _, _, high) = print_byte-plain (b / 16) (omega arith) in
    let (_, _, _, low) = print_byte-plain (b % 16) (omega arith) in
    rw (high, low, count_alnum-print_bytes bs t c all e, count_alnum)

-- Sixteen digits: the first half is stored behind the second one.
take_long-Reads :
    (a b c d e f g h : ℕ) (t p r : Bytes)
    → AreBytes (h ∷ g ∷ f ∷ e ∷ d ∷ c ∷ b ∷ a ∷ [])
    → terminated t ≡ true
    → 8 ≤ length r
    → Reads t p
        (a ∷ b ∷ c ∷ d ∷ e ∷ f ∷ g ∷ h ∷ [])
        r
        (take_long (cursor (print_bytes (h ∷ g ∷ f ∷ e ∷ d ∷ c ∷ b ∷ a ∷ []) ++ t) p r))
unfolding take_long print_bytes print_byte
take_long-Reads a b c d e f g h t p (r0 ∷ r1 ∷ r2 ∷ r3 ∷ r4 ∷ r5 ∷ r6 ∷ r7 ∷ r) all ended room =
    let (hh, (hg, (hf, (he, (hd, (hc, (hb, (ha, _)))))))) = all in
    let low : ℕ = be_value 0 (d ∷ c ∷ b ∷ a ∷ []) in
    let high : ℕ = be_value 0 (h ∷ g ∷ f ∷ e ∷ []) in
    let left : Bytes = splice r 0 [] in
    let stored : Bytes = r0 ∷ r1 ∷ r2 ∷ r3 ∷ le32 high ++ left in
    let dp : ℕ = length p + 4 + 0 - 4 in
    (
      r,
      omega arith,
      rw
          (
            take_hex-append h (g ∷ f ∷ e ∷ []) (print_bytes (d ∷ c ∷ b ∷ a ∷ []) ++ t) p
                (r0 ∷ r1 ∷ r2 ∷ r3 ∷ r4 ∷ r5 ∷ r6 ∷ r7 ∷ r) 0 4 (length p + 4)
                (hh, (hg, (hf, (he, tt))))
                (terminated-append (print_bytes (d ∷ c ∷ b ∷ a ∷ [])) t ended) refl (omega arith),
            take_hex-append d (c ∷ b ∷ a ∷ []) t p stored 8 0 dp (hd, (hc, (hb, (ha, tt)))) ended
                (omega arith) (omega arith),
          )
          (ok-cursor t (dp + 8) p (a ∷ b ∷ c ∷ d ∷ e ∷ f ∷ g ∷ h ∷ []) r _
            (omega (arith, length-append p (a ∷ b ∷ c ∷ d ∷ e ∷ f ∷ g ∷ h ∷ [])))
            (ap (λ x. x ++ le32 high ++ left) (le32-4 a b c d ha hb hc hd)
              ∙ ap (λ x. a ∷ b ∷ c ∷ d ∷ x ++ left) (le32-4 e f g h he hf hg hh)
              ∙ ap (λ x. a ∷ b ∷ c ∷ d ∷ e ∷ f ∷ g ∷ h ∷ x) (splice-nil r 0))),
    )
take_long-Reads a b c d e f g h t p r all ended room = absurd (omega arith)

-- The case '0', with what stands behind that character.
pub number-Reads :
    (bs t p r : Bytes) (c : ℕ)
    → AreBytes bs
    → HasWidth bs
    → is_alnum c ≡ false
    → terminated (c ∷ t) ≡ true
    → 8 ≤ length r
    → Reads (c ∷ t) p (backwards bs) r (number (cursor (b'x' ∷ print_bytes bs ++ c ∷ t) p r))
unfolding number take_number
number-Reads [] t p r x all wide other e room = absurd wide
number-Reads (a ∷ []) t p r x all wide other e room =
    rw (count_alnum-print_bytes (a ∷ []) t x all other) (
      digits-Reads a [] (x ∷ t) p r (a ∷ []) (0 ∷ 0 ∷ 0 ∷ []) 1 all e (omega arith) (le32-1 a all.0)
        refl refl)
number-Reads (b ∷ a ∷ []) t p r x all wide other e room =
    rw (count_alnum-print_bytes (b ∷ a ∷ []) t x all other) (
      digits-Reads b (a ∷ []) (x ∷ t) p r (a ∷ b ∷ []) (0 ∷ 0 ∷ []) 2 all e (omega arith)
        (le32-2 a b all.1.0 all.0) refl refl)
number-Reads (c ∷ b ∷ a ∷ []) t p r x all wide other e room =
    rw (count_alnum-print_bytes (c ∷ b ∷ a ∷ []) t x all other) (
      digits-Reads c (b ∷ a ∷ []) (x ∷ t) p r (a ∷ b ∷ c ∷ []) (0 ∷ []) 3 all e (omega arith)
        (le32-3 a b c all.1.1.0 all.1.0 all.0) refl refl)
number-Reads (d ∷ c ∷ b ∷ a ∷ []) t p r x all wide other e room =
    rw (count_alnum-print_bytes (d ∷ c ∷ b ∷ a ∷ []) t x all other) (
      digits-Reads d (c ∷ b ∷ a ∷ []) (x ∷ t) p r (a ∷ b ∷ c ∷ d ∷ []) [] 4 all e (omega arith)
        (le32-4 a b c d all.1.1.1.0 all.1.1.0 all.1.0 all.0) refl refl)
number-Reads (_ ∷ _ ∷ _ ∷ _ ∷ _ ∷ []) t p r x all wide other e room = absurd wide
number-Reads (_ ∷ _ ∷ _ ∷ _ ∷ _ ∷ _ ∷ []) t p r x all wide other e room = absurd wide
number-Reads (_ ∷ _ ∷ _ ∷ _ ∷ _ ∷ _ ∷ _ ∷ []) t p r x all wide other e room = absurd wide
number-Reads (h ∷ g ∷ f ∷ e ∷ d ∷ c ∷ b ∷ a ∷ []) t p r x all wide other ended room =
    rw (count_alnum-print_bytes (h ∷ g ∷ f ∷ e ∷ d ∷ c ∷ b ∷ a ∷ []) t x all other)
      (take_long-Reads a b c d e f g h (x ∷ t) p r all ended room)
number-Reads (_ ∷ _ ∷ _ ∷ _ ∷ _ ∷ _ ∷ _ ∷ _ ∷ _ ∷ _) t p r x all wide other e room = absurd wide
