-- ===== src/Bluedroid/NoSocket.antt =====
-- What bt_enable of bluedroid/bluetooth.c does when no HCI socket can be opened.
use platform_system_bluetoot.Prelude.{◌≡◌, ◌⊎◌, true, false, ◌∷◌, is_neg, codes, Bytes}
use platform_system_bluetoot.Bluedroid.Kernel.{
  Property, ctl_start, bluetooth_hciattach, property_set, hci_socket, History, Kernel,
}

-- Properties can be set, and HCI sockets cannot be opened.
pub record NoSockets (kernel : Kernel) : Type 0 where
  pub sets :
      (h : History) (p : Property) (v : Bytes) → is_neg (kernel h (property_set p v)).ret ≡ false
  pub no_socket : (h : History) → is_neg (kernel h hci_socket).ret ≡ true

-- The last call but the one that asked for a socket started hciattach.
abbrev pub Attached : History → Type 0
Attached ((hci_socket, _) ∷ (property_set p v, r) ∷ _) =
    (is_neg r.ret ≡ false)
    × (((p ≡ ctl_start) × (v ≡ codes "hciattach"))
        ⊎ ((p ≡ bluetooth_hciattach) × (v ≡ codes "true")))
Attached _ = ⊥
