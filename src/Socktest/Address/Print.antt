-- ===== src/Socktest/Address/Print.antt =====
-- `get_bdaddr` of tools/socktest.c reads what `ba2str` of bluedroid/bluetooth.c prints.
use platform_system_bluetoot.Prelude.{
  ℕ, suc, ◌<◌, ◌≡◌, refl, ap, sym, ◌∙◌, [], ◌∷◌, ◌++◌, Bytes, pos, append-nil, set,
}
use platform_system_bluetoot.Libc.Hex.{print_byte, strtol_byte-print_byte}
use platform_system_bluetoot.Libc.Scan.{strtol_byte}
use platform_system_bluetoot.Bluedroid.Address.{ba2str}
use platform_system_bluetoot.Socktest.Address.{get_bdaddr_from, get_bdaddr}

get_bdaddr_from-print_byte :
    (i v : ℕ) (rest ba : Bytes)
    → v < 256
    → get_bdaddr_from (suc i) (print_byte v ++ (b':' ∷ rest)) ba
      ≡ get_bdaddr_from i rest (set ba (suc i) v)
unfolding get_bdaddr_from
get_bdaddr_from-print_byte i v rest ba h = rw (strtol_byte-print_byte v (b':' ∷ rest) h refl) refl

get_bdaddr_from-last :
    (v : ℕ) (ba : Bytes) → v < 256 → get_bdaddr_from 0 (print_byte v) ba ≡ (pos 0, set ba 0 v)
unfolding get_bdaddr_from
get_bdaddr_from-last v ba h =
    ap (λ r. (pos 0, set ba 0 (strtol_byte r).0)) (sym (append-nil (print_byte v)))
    ∙ rw (strtol_byte-print_byte v [] h tt)

-- `get_bdaddr` returns 0 for what `ba2str` prints for any six bytes, and gives back those bytes.
pub get_bdaddr-ba2str :
    (b0 b1 b2 b3 b4 b5 : ℕ)
    → b0 < 256
    → b1 < 256
    → b2 < 256
    → b3 < 256
    → b4 < 256
    → b5 < 256
    → get_bdaddr (ba2str (b0 ∷ b1 ∷ b2 ∷ b3 ∷ b4 ∷ b5 ∷ []))
      ≡ (pos 0, b0 ∷ b1 ∷ b2 ∷ b3 ∷ b4 ∷ b5 ∷ [])
unfolding get_bdaddr ba2str
get_bdaddr-ba2str b0 b1 b2 b3 b4 b5 h0 h1 h2 h3 h4 h5 =
    get_bdaddr_from-print_byte 4 b5 _ (0 ∷ 0 ∷ 0 ∷ 0 ∷ 0 ∷ 0 ∷ []) h5
    ∙ get_bdaddr_from-print_byte 3 b4 _ (0 ∷ 0 ∷ 0 ∷ 0 ∷ 0 ∷ b5 ∷ []) h4
    ∙ get_bdaddr_from-print_byte 2 b3 _ (0 ∷ 0 ∷ 0 ∷ 0 ∷ b4 ∷ b5 ∷ []) h3
    ∙ get_bdaddr_from-print_byte 1 b2 _ (0 ∷ 0 ∷ 0 ∷ b3 ∷ b4 ∷ b5 ∷ []) h2
    ∙ get_bdaddr_from-print_byte 0 b1 _ (0 ∷ 0 ∷ b2 ∷ b3 ∷ b4 ∷ b5 ∷ []) h1
    ∙ get_bdaddr_from-last b0 (0 ∷ b1 ∷ b2 ∷ b3 ∷ b4 ∷ b5 ∷ []) h0
