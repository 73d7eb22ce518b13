-- ===== src/Patchram/Packets.antt =====
-- The shape of what brcm_patchram_plus/brcm_patchram_plus.c sends to the chip.
use platform_system_bluetoot.Prelude.{
  ℕ, ◌<◌, ◌≡◌, refl, ap, ◌∙◌, List, [], ◌∷◌, ◌++◌, arith, Bytes, length, sym,
}
use platform_system_bluetoot.Patchram.Globals.{hci_reset}
use platform_system_bluetoot.Patchram.Device.{Output, sent}
use platform_system_bluetoot.Patchram.WellFormed.{IsCommand}

-- A command packet: its type, its opcode, and the number of its parameters before these.
pub record IsPacket (bytes : Bytes) : Type 0 where
  pub lo : ℕ
  pub hi : ℕ
  pub params : Bytes
  pub is_packet : bytes ≡ 1 ∷ lo ∷ hi ∷ length params ∷ params
  pub short : length params < 256

abbrev SendsPacket : Output → Type 0
SendsPacket (sent bytes) = IsPacket bytes
SendsPacket _ = Unit

-- All that is sent is packets.
abbrev pub AllPackets : List Output → Type 0
AllPackets [] = Unit
AllPackets (o ∷ os) = SendsPacket o × AllPackets os

pub AllPackets-append :
    (os ps : List Output) → AllPackets os → AllPackets ps → AllPackets (os ++ ps)
AllPackets-append [] ps all all' = all'
AllPackets-append (o ∷ os) ps (one, all) all' = (one, AllPackets-append os ps all all')

pub IsCommand-IsPacket :
    (lo hi n : ℕ) (cmd : Bytes) → n < 256 → IsCommand lo hi n cmd → IsPacket cmd
IsCommand-IsPacket lo hi n cmd h c = record {
  lo = lo;
  hi = hi;
  params = c.params;
  is_packet = c.head ∙ ap (λ k. 1 ∷ lo ∷ hi ∷ k ∷ c.params) (sym c.size);
  short = omega (arith, c.size);
}

pub params-IsPacket :
    (lo hi : ℕ) (params : Bytes)
    → length params < 256
    → IsPacket (1 ∷ lo ∷ hi ∷ length params ∷ params)
params-IsPacket lo hi params short = record {
  lo = lo;
  hi = hi;
  params = params;
  is_packet = refl;
  short = short;
}

pub reset-IsPacket : IsPacket hci_reset
reset-IsPacket = params-IsPacket 0x03 0x0c [] (omega arith)
