-- ===== src/Socktest/Address.antt =====
-- `get_bdaddr` of tools/socktest.c.
pub mod Print
use platform_system_bluetoot.Prelude.{
  ℕ, zero, suc, ◌-◌, ◌==◌, if◌then◌else◌, List, [], ◌∷◌, ℤ, pos, minus_one, Bytes, set, replicate,
  not, ◌&&◌,
}
use platform_system_bluetoot.Libc.Scan.{strtol_byte}

-- `*endp`; the string ends with a NUL.
abbrev first : Bytes → ℕ
first [] = 0
first (c ∷ s) = c

abbrev behind : Bytes → Bytes
behind [] = []
behind (c ∷ s) = s

-- The loop with `left + 1` numbers to read, the next one to `ba[left]`.
unfoldable pub get_bdaddr_from : ℕ → Bytes → Bytes → ℤ × Bytes
get_bdaddr_from zero str ba = (pos 0, set ba 0 (strtol_byte str).0)
get_bdaddr_from (suc left) str ba =
    let read = strtol_byte str in
    let rest = get_bdaddr_from left (behind read.1) (set ba (suc left) read.0) in
    if first read.1 == b':' then rest else (minus_one, replicate 6 0)

-- What it returns, and the address behind it.
unfoldable pub get_bdaddr : Bytes → ℤ × Bytes
unfolding get_bdaddr_from
get_bdaddr str = get_bdaddr_from 5 str (replicate 6 0)
