-- ===== src/Bluedroid/Address.antt =====
-- `ba2str` and `str2ba`. A `bdaddr_t` is the list of its six bytes.
use platform_system_bluetoot.Prelude.{
  ℕ, zero, suc, ◌<◌, ◌≡◌, refl, Option, none, some, [], ◌∷◌, ◌++◌, ap, sym, ◌∙◌, append-nil, Bytes,
  get_or, set,
}
use platform_system_bluetoot.Libc.Hex.{print_byte, strtoul_byte-print_byte}
use platform_system_bluetoot.Libc.Scan.{strtoul_byte}

-- The text that `ba2str` writes: "%2.2X:%2.2X:%2.2X:%2.2X:%2.2X:%2.2X", the last byte first.
unfoldable pub ba2str : Bytes → Bytes
ba2str b =
    print_byte (get_or b 5 0)
    ++ (b':'
        ∷ (print_byte (get_or b 4 0)
            ++ (b':'
                ∷ (print_byte (get_or b 3 0)
                    ++ (b':'
                        ∷ (print_byte (get_or b 2 0)
                            ++ (b':'
                                ∷ (print_byte (get_or b 1 0)
                                    ++ (b':' ∷ print_byte (get_or b 0 0))))))))))

-- The rounds from `i - 1` down to 0. `none` is a read behind the end of the text: `str++` steps
-- over the terminator.
unfoldable pub str2ba_from : ℕ → Bytes → Bytes → Option Bytes
str2ba_from zero str ba = some ba
str2ba_from (suc zero) str ba = some (set ba 0 (strtoul_byte str).0)
str2ba_from (suc (suc i)) str ba =
    let (v, end) = strtoul_byte str in
    elim end [ [] ↦ none | _ ∷ rest ↦ str2ba_from (suc i) rest (set ba (suc i) v) ]

-- `str2ba`, onto the bytes `ba` that the address held.
unfoldable pub str2ba : Bytes → Bytes → Option Bytes
unfolding str2ba_from
str2ba str ba = str2ba_from 6 str ba

-- One round reads one byte that was printed and steps over the colon.
str2ba_from-print_byte :
    (i v : ℕ) (rest ba : Bytes)
    → v < 256
    → str2ba_from (suc (suc i)) (print_byte v ++ (b':' ∷ rest)) ba
      ≡ str2ba_from (suc i) rest (set ba (suc i) v)
unfolding str2ba_from
str2ba_from-print_byte i v rest ba h =
    let e = strtoul_byte-print_byte v (b':' ∷ rest) h refl in rw (e, str2ba_from, e)

str2ba_from-last :
    (v : ℕ) (ba : Bytes) → v < 256 → str2ba_from 1 (print_byte v) ba ≡ some (set ba 0 v)
unfolding str2ba_from
str2ba_from-last v ba h =
    ap (λ r. some (set ba 0 (strtoul_byte r).0)) (sym (append-nil (print_byte v)))
    ∙ rw (strtoul_byte-print_byte v [] h tt)

-- `str2ba` reads back what `ba2str` writes for any six bytes, whatever six bytes the address held
-- before.
pub str2ba-ba2str :
    (b0 b1 b2 b3 b4 b5 : ℕ) (a0 a1 a2 a3 a4 a5 : ℕ)
    → b0 < 256
    → b1 < 256
    → b2 < 256
    → b3 < 256
    → b4 < 256
    → b5 < 256
    → str2ba (ba2str (b0 ∷ b1 ∷ b2 ∷ b3 ∷ b4 ∷ b5 ∷ [])) (a0 ∷ a1 ∷ a2 ∷ a3 ∷ a4 ∷ a5 ∷ [])
      ≡ some (b0 ∷ b1 ∷ b2 ∷ b3 ∷ b4 ∷ b5 ∷ [])
unfolding str2ba ba2str
str2ba-ba2str b0 b1 b2 b3 b4 b5 a0 a1 a2 a3 a4 a5 h0 h1 h2 h3 h4 h5 =
    str2ba_from-print_byte 4 b5 _ (a0 ∷ a1 ∷ a2 ∷ a3 ∷ a4 ∷ a5 ∷ []) h5
    ∙ str2ba_from-print_byte 3 b4 _ (a0 ∷ a1 ∷ a2 ∷ a3 ∷ a4 ∷ b5 ∷ []) h4
    ∙ str2ba_from-print_byte 2 b3 _ (a0 ∷ a1 ∷ a2 ∷ a3 ∷ b4 ∷ b5 ∷ []) h3
    ∙ str2ba_from-print_byte 1 b2 _ (a0 ∷ a1 ∷ a2 ∷ b3 ∷ b4 ∷ b5 ∷ []) h2
    ∙ str2ba_from-print_byte 0 b1 _ (a0 ∷ a1 ∷ b2 ∷ b3 ∷ b4 ∷ b5 ∷ []) h1
    ∙ str2ba_from-last b0 (a0 ∷ b1 ∷ b2 ∷ b3 ∷ b4 ∷ b5 ∷ []) h0
