-- ===== src/Bttest/Main.antt =====
-- `main` of tools/bttest.c. The functions do_enable, do_disable and do_is_enabled call those of
-- bluedroid and print what they return.
use platform_system_bluetoot.Prelude.{
  ℕ, ◌==◌, List, [], ◌∷◌, if◌then◌else◌, not, ℤ, Bytes, codes, minus_one,
}
use platform_system_bluetoot.Libc.Chars.{equal}
use platform_system_bluetoot.Bluedroid.Kernel.{Kernel, Build, M, pure}
use platform_system_bluetoot.Bluedroid.Enable.{bt_enable, bt_disable}
use platform_system_bluetoot.Bluedroid.Query.{bt_is_enabled}

abbrev pub do_enable : Build → Kernel → ℕ → M ℤ
do_enable build kernel rounds = bt_enable build kernel rounds

abbrev pub do_disable : Build → Kernel → ℕ → M ℤ
do_disable build kernel rounds = bt_disable build kernel rounds

abbrev pub do_is_enabled : Build → Kernel → ℕ → M ℤ
do_is_enabled build kernel rounds = bt_is_enabled build kernel rounds

abbrev pub function_table : Build → Kernel → ℕ → List (Bytes × M ℤ)
function_table build kernel rounds =
    (codes "enable", do_enable build kernel rounds)
    ∷ (codes "disable", do_disable build kernel rounds)
    ∷ (codes "is_enabled", do_is_enabled build kernel rounds)
    ∷ []

-- The loop of `main` over the table, with the call of `usage` behind it.
unfoldable pub look_up : List (Bytes × M ℤ) → Bytes → M ℤ
look_up [] name s = pure minus_one s
look_up ((entry, run) ∷ table) name s = if equal name entry then run s else look_up table name s

unfoldable pub main : Build → Kernel → ℕ → ℕ → Bytes → M ℤ
main build kernel rounds argc name s =
    if not (argc == 2)
    then pure minus_one s
    else look_up (function_table build kernel rounds) name s
