-- ===== src/Brfpatch/Script.antt =====
-- The lines that brfpatch/brfpatch.c is meant to read, and the bytes that they stand for. Each
-- function prints in front of a text.
use platform_system_bluetoot.Prelude.{ℕ, [], ◌∷◌, ◌++◌, List, Bytes, codes, ◌/◌, ◌%◌}
use platform_system_bluetoot.Libc.Hex.{print_bytes, print_text, AreBytes}

-- An argument: bytes within quotes, or a number of some bytes, the highest one first.
pub data Item : Type 0 where
  text hex : Bytes → Item

-- The bytes that an argument stands for: those of a number begin with the lowest.
abbrev pub backwards : Bytes → Bytes
backwards [] = []
backwards (b ∷ bs) = backwards bs ++ b ∷ []

abbrev pub payload : Item → Bytes
payload (text bs) = bs
payload (hex bs) = backwards bs

abbrev pub payloads : List Item → Bytes
payloads [] = []
payloads (i ∷ is) = payload i ++ payloads is

-- Numbers have 1, 2, 3, 4 or 8 bytes.
abbrev pub HasWidth : Bytes → Type 0
HasWidth (_ ∷ []) = Unit
HasWidth (_ ∷ _ ∷ []) = Unit
HasWidth (_ ∷ _ ∷ _ ∷ []) = Unit
HasWidth (_ ∷ _ ∷ _ ∷ _ ∷ []) = Unit
HasWidth (_ ∷ _ ∷ _ ∷ _ ∷ _ ∷ _ ∷ _ ∷ _ ∷ []) = Unit
HasWidth _ = ⊥

abbrev pub IsItem : Item → Type 0
IsItem (text bs) = AreBytes bs
IsItem (hex bs) = AreBytes bs × HasWidth bs

abbrev pub AreItems : List Item → Type 0
AreItems [] = Unit
AreItems (i ∷ is) = IsItem i × AreItems is

abbrev pub print_item : Item → Bytes → Bytes
print_item (text bs) t = b'"' ∷ print_text bs (b'"' ∷ t)
print_item (hex bs) t = b'0' ∷ b'x' ∷ print_bytes bs ++ t

abbrev pub print_items : List Item → Bytes → Bytes
print_items [] t = t
print_items (i ∷ is) t = b' ' ∷ print_item i (print_items is t)

-- A command with its opcode and its arguments, up to the newline.
abbrev pub print_command : ℕ → List Item → Bytes → Bytes
print_command opcode is t =
    codes "Send_HCI 0x" ++ print_bytes (opcode / 256 ∷ opcode % 256 ∷ []) ++ print_items is (10 ∷ t)
