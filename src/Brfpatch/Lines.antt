-- ===== src/Brfpatch/Lines.antt =====
-- A printed command of a brfpatch script is a line of text.
use platform_system_bluetoot.Prelude.{
  ℕ, zero, suc, ◌/◌, ◌%◌, ◌<◌, ◌^◌, ◌≡◌, refl, ap, sym, ◌∙◌, false, List, [], ◌∷◌, ◌++◌, arith,
  ◌==◌, Bytes, codes, append_assoc, append-nil,
}
use platform_system_bluetoot.Libc.Chars.{is_space}
use platform_system_bluetoot.Libc.Hex.{
  print_byte, print_bytes, AreBytes, print_byte-plain, print_text,
}
use platform_system_bluetoot.Brfpatch.Output.{AllText}
use platform_system_bluetoot.Brfpatch.Script.{
  Item, text, hex, AreItems, print_item, print_items, print_command,
}

-- The line without its newline.
abbrev pub line_of : ℕ → List Item → Bytes
line_of opcode is =
    codes "Send_HCI 0x" ++ print_bytes (opcode / 256 ∷ opcode % 256 ∷ []) ++ print_items is []

-- A printer prints in front of a text what it prints in front of nothing.
print_text-behind : (bs t : Bytes) → print_text bs t ≡ print_text bs [] ++ t
unfolding print_bytes print_byte
print_text-behind [] t = refl
print_text-behind (b ∷ []) t = refl
print_text-behind (b ∷ b' ∷ bs) t =
    ap (λ x. print_bytes (b ∷ []) ++ b':' ∷ x) (print_text-behind (b' ∷ bs) t)

print_item-behind : (i : Item) (t : Bytes) → print_item i t ≡ print_item i [] ++ t
print_item-behind (text bs) t =
    ap (λ x. b'"' ∷ x)
      (print_text-behind bs (b'"' ∷ t)
        ∙ sym (append_assoc (print_text bs []) (b'"' ∷ []) t)
        ∙ ap (λ x. x ++ t) (sym (print_text-behind bs (b'"' ∷ []))))
print_item-behind (hex bs) t = ap (λ x. b'0' ∷ b'x' ∷ x ++ t) (sym (append-nil (print_bytes bs)))

print_items-behind : (is : List Item) (t : Bytes) → print_items is t ≡ print_items is [] ++ t
print_items-behind [] t = refl
print_items-behind (i ∷ is) t =
    ap (λ x. b' ' ∷ x)
      (print_item-behind i (print_items is t)
        ∙ ap (λ x. print_item i [] ++ x) (print_items-behind is t)
        ∙ sym (append_assoc (print_item i []) (print_items is []) t)
        ∙ ap (λ x. x ++ t) (sym (print_item-behind i (print_items is []))))

-- The line with its newline and a NUL behind it, and with what stands behind that.
pub line_of-print_command :
    (opcode : ℕ) (is : List Item) (t : Bytes)
    → line_of opcode is ++ 10 ∷ t ≡ print_command opcode is t
unfolding print_bytes print_byte
line_of-print_command opcode is t =
    ap (λ x. codes "Send_HCI 0x" ++ print_bytes (opcode / 256 ∷ opcode % 256 ∷ []) ++ x)
      (sym (print_items-behind is (10 ∷ t)))

AllText-cons :
    (c : ℕ) (t : Bytes) → is_space c ≡ false → (c == 0) ≡ false → AllText t → AllText (c ∷ t)
AllText-cons zero t space nul all = cc
AllText-cons (suc c) t space nul all = (ground arith, all)

AllText-print_bytes : (bs t : Bytes) → AreBytes bs → AllText t → AllText (print_bytes bs ++ t)
unfolding print_bytes print_byte
AllText-print_bytes [] t bytes all = all
AllText-print_bytes (b ∷ bs) t (small, bytes) all =
    let (space, nul, _, _) = print_byte-plain (b / 16) (omega arith) in
    let (space', nul', _, _) = print_byte-plain (b % 16) (omega arith) in
    AllText-cons _ _ space nul (AllText-cons _ _ space' nul' (AllText-print_bytes bs t bytes all))

AllText-print_text : (bs t : Bytes) → AreBytes bs → AllText t → AllText (print_text bs t)
AllText-print_text [] t bytes all = all
AllText-print_text (b ∷ []) t (small, bytes) all = AllText-print_bytes (b ∷ []) t (small, tt) all
AllText-print_text (b ∷ b' ∷ bs) t (small, bytes) all =
    AllText-print_bytes (b ∷ []) _ (small, tt) (refl, AllText-print_text (b' ∷ bs) t bytes all)

AllText-print_items : (is : List Item) → AreItems is → AllText (print_items is [])
AllText-print_items [] items = tt
AllText-print_items (text bs ∷ is) (this, items) =
    (refl, (refl, AllText-print_text bs _ this (refl, AllText-print_items is items)))
AllText-print_items (hex bs ∷ is) (this, items) =
    (refl, (refl, (refl, AllText-print_bytes bs _ this.0 (AllText-print_items is items))))

pub line_of-AllText :
    (opcode : ℕ) (is : List Item) → opcode < 2 ^ 16 → AreItems is → AllText (line_of opcode is)
line_of-AllText opcode is small items = (
  refl,
  (
    refl,
    (
      refl,
      (
        refl,
        (
          refl,
          (
            refl,
            (
              refl,
              (
                refl,
                (
                  refl,
                  (
                    refl,
                    (
                      refl,
                      AllText-print_bytes (opcode / 256 ∷ opcode % 256 ∷ []) (print_items is [])
                          (omega arith, (omega arith, tt)) (AllText-print_items is items),
                    ),
                  ),
                ),
              ),
            ),
          ),
        ),
      ),
    ),
  ),
)
