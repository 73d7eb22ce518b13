-- ===== src/Patchram/Settings.antt =====
-- What the options put into the commands.
use platform_system_bluetoot.Prelude.{
  ℕ, ◌+◌, ◌*◌, ◌^◌, ◌<◌, ◌≡◌, refl, [], ◌∷◌, arith, Bytes, length, take, drop,
}
use platform_system_bluetoot.Patchram.Globals.{le32, brcm_encode_baud_rate}

-- The number that four bytes stand for, the lowest first.
abbrev pub le_value : Bytes → ℕ
le_value [] = 0
le_value (b ∷ bs) = b + 256 * le_value bs

-- `BRCM_encode_baud_rate` writes a rate other than 0 that fits 32 bits to the four last bytes of
-- the command, the lowest first, and leaves the six bytes in front of them.
pub brcm_encode_baud_rate-le_value :
    (rate c0 c1 c2 c3 c4 c5 c6 c7 c8 c9 : ℕ)
    → 0 < rate
    → rate < 2 ^ 32
    → (cmd : Bytes) × (brcm_encode_baud_rate rate
          (c0 ∷ c1 ∷ c2 ∷ c3 ∷ c4 ∷ c5 ∷ c6 ∷ c7 ∷ c8 ∷ c9 ∷ [])
        ≡ cmd)
      × (take 6 cmd ≡ c0 ∷ c1 ∷ c2 ∷ c3 ∷ c4 ∷ c5 ∷ [])
      × (length cmd ≡ 10)
      × (le_value (drop 6 cmd) ≡ rate)
unfolding brcm_encode_baud_rate
brcm_encode_baud_rate-le_value rate c0 c1 c2 c3 c4 c5 c6 c7 c8 c9 some_rate small =
    (c0 ∷ c1 ∷ c2 ∷ c3 ∷ c4 ∷ c5 ∷ le32 rate, ground arith, refl, refl, omega arith)
