-- ===== src/Patchram/Failures.antt =====
-- Which command lines `main` does not accept, and with which exit code.
use platform_system_bluetoot.Prelude.{
  ℕ, zero, suc, ◌≡◌, refl, ap, ◌∙◌, inl, inr, Bool, true, false, Option, none, some, List, [], ◌∷◌,
  arith, ◌==◌, if◌then◌else◌, Bytes, codes, ℤ, pos, negsuc, is_neg, length, Bool-cases,
}
use platform_system_bluetoot.Libc.Chars.{equal_nocase, after_last}
use platform_system_bluetoot.Libc.Scan.{atoi, scan_dec, scan_row}
use platform_system_bluetoot.Patchram.Globals.{Globals, initial}
use platform_system_bluetoot.Patchram.Options.{
  System, Parsed, returned, exits, LongOption, patchram, scopcm, i2s, tosleep, bd_addr, Argument,
  long, short_d, other, not_positive, open_patchram, parse_patchram, parse_baudrate, parse_bdaddr,
  parse_scopcm, parse_i2s, parse_tosleep, parse_option, parse_arguments, parse_cmd_line,
}
use platform_system_bluetoot.Patchram.Main.{is_positive, read_default_bdaddr}

-- The system's answer for a file that cannot be opened.
abbrev refused : ℤ → Bool
refused (pos n) = false
refused (negsuc zero) = true
refused (negsuc (suc n)) = false

-- The exit code for an option that cannot be used: a firmware file without a suffix, with another
-- suffix than `hcd` or that cannot be opened, too few numbers, or a time that is not positive.
abbrev pub option_failure : System → LongOption → Bytes → Option ℕ
option_failure sys patchram optarg = elim (after_last b'.' optarg) [
  | none ↦ some 3
  | some suffix ↦
      if equal_nocase (codes "hcd") suffix
      then (if refused (sys.open_hcd optarg) then some 5 else none)
      else some 4
]
option_failure sys scopcm optarg =
    if length (scan_row scan_dec b',' 10 optarg) == 10 then none else some 1
option_failure sys i2s optarg =
    if length (scan_row scan_dec b',' 4 optarg) == 4 then none else some 1
option_failure sys tosleep optarg = if is_positive (atoi optarg) then none else some 1
option_failure sys _ optarg = none

-- The exit code for the first option that cannot be used.
abbrev pub first_failure : System → List Argument → Option ℕ
first_failure sys [] = none
first_failure sys (long o optarg ∷ args) = elim (option_failure sys o optarg) [
  | some code ↦ some code
  | none ↦ first_failure sys args
]
first_failure sys (short_d ∷ args) = first_failure sys args
first_failure sys (other ∷ args) = first_failure sys args

-- The exit code for a command line: 2 if its options can be used and its port cannot be opened, or
-- if it names no port.
abbrev pub command_failure : System → List Argument → Option Bytes → Option ℕ
command_failure sys args port = elim (first_failure sys args) [
  | some code ↦ some code
  | none ↦ elim port [
    | none ↦ some 2
    | some path ↦ if is_neg (sys.open_uart path) then some 2 else none
  ]
]

-- A failure leaves the program, or returns a number other than 0 where its code is 1; otherwise the
-- descriptor of the port is kept.
abbrev Follows : Option ℕ → Globals → Parsed → Type 0
Follows none g (returned zero g') = g'.uart_fd ≡ g.uart_fd
Follows none g (returned (suc ret) g') = ⊥
Follows none g (exits code) = ⊥
Follows (some code) g (returned zero g') = ⊥
Follows (some code) g (returned (suc ret) g') = code ≡ 1
Follows (some code) g (exits c) = c ≡ code

open_patchram-Follows :
    (fd : ℤ) (g : Globals) → Follows (if refused fd then some 5 else none) g (open_patchram fd g)
unfolding open_patchram
open_patchram-Follows (pos n) g = refl
open_patchram-Follows (negsuc zero) g = refl
open_patchram-Follows (negsuc (suc n)) g = ground arith

parse_patchram-Follows :
    (sys : System) (optarg : Bytes) (g : Globals)
    → Follows (option_failure sys patchram optarg) g (parse_patchram sys optarg g)
unfolding parse_patchram
parse_patchram-Follows sys optarg g = ground (arith, open_patchram-Follows (sys.open_hcd optarg) g)

tosleep-Follows :
    (z : ℤ) (g : Globals)
    → Follows
        (if is_positive z then none else some 1)
        g
        (returned (if not_positive z then 1 else 0) (record g { tosleep = z }))
tosleep-Follows (pos n) g = ground arith
tosleep-Follows (negsuc n) g = refl

parse_option-Follows :
    (sys : System) (stack : List ℕ) (o : LongOption) (optarg : Bytes) (g : Globals)
    → Follows (option_failure sys o optarg) g (parse_option sys stack o optarg g)
unfolding parse_option parse_scopcm parse_i2s parse_tosleep parse_baudrate parse_bdaddr
parse_option-Follows sys stack patchram optarg g = parse_patchram-Follows sys optarg g
parse_option-Follows sys stack tosleep optarg g = tosleep-Follows (atoi optarg) g
parse_option-Follows sys stack bd_addr optarg g = refl
parse_option-Follows sys stack _ optarg g = ground arith

Follows-keep :
    (f : Option ℕ) (g g' : Globals) (p : Parsed)
    → g'.uart_fd ≡ g.uart_fd
    → Follows f g' p
    → Follows f g p
Follows-keep none g g' (returned zero g'') e h = h ∙ e
Follows-keep none g g' (returned (suc ret) g'') e h = h
Follows-keep none g g' (exits code) e h = h
Follows-keep (some code) g g' (returned zero g'') e h = h
Follows-keep (some code) g g' (returned (suc ret) g'') e h = h
Follows-keep (some code) g g' (exits c) e h = h

parse_arguments-Follows :
    (sys : System) (stack : List ℕ) (args : List Argument) (g : Globals)
    → Follows (first_failure sys args) g (parse_arguments sys stack args g)
unfolding parse_arguments
parse_arguments-Follows sys stack [] g = refl
parse_arguments-Follows sys stack (short_d ∷ args) g =
    Follows-keep (first_failure sys args) g (record g { debug = true }) _ refl
      (parse_arguments-Follows sys stack args (record g { debug = true }))
parse_arguments-Follows sys stack (other ∷ args) g = parse_arguments-Follows sys stack args g
parse_arguments-Follows sys stack (long o optarg ∷ args) g =
    go (option_failure sys o optarg) (parse_option sys stack o optarg g)
      (parse_option-Follows sys stack o optarg g) (parse_arguments-Follows sys stack args)
  where
    go :
        (f : Option ℕ) (p : Parsed)
        → Follows f g p
        → ((g' : Globals) → Follows (first_failure sys args) g' (parse_arguments sys stack args g'))
        → Follows
            (elim f [ some code ↦ some code | none ↦ first_failure sys args ])
            g
            (elim p [
              | exits code ↦ exits code
              | returned zero g' ↦ parse_arguments sys stack args g'
              | returned (suc ret) g' ↦ returned (suc ret) g'
            ])
    go none (returned zero g') h next =
        Follows-keep (first_failure sys args) g g' (parse_arguments sys stack args g') h (next g')
    go none (returned (suc ret) g') h next = absurd h
    go none (exits code) h next = absurd h
    go (some code) (returned zero g') h next = absurd h
    go (some code) (returned (suc ret) g') h next = h
    go (some code) (exits c) h next = h

-- What `parse_cmd_line` makes of the failure of a command line.
abbrev pub Settles : Option ℕ → System → Option Bytes → Parsed → Type 0
Settles (some code) sys port (exits c) = c ≡ code
Settles (some code) sys port (returned (suc ret) g) = code ≡ 1
Settles (some code) sys port (returned zero g) = (code ≡ 2) × (is_neg g.uart_fd ≡ true)
Settles none sys port (returned zero g) =
    (path : Bytes) × (port ≡ some path)
    × (g.uart_fd ≡ sys.open_uart path)
    × (is_neg g.uart_fd ≡ false)
Settles none sys port _ = ⊥

pub parse_cmd_line-Settles :
    (sys : System) (stack : List ℕ) (args : List Argument) (port : Option Bytes) (g : Globals)
    → is_neg g.uart_fd ≡ true
    → Settles (command_failure sys args port) sys port (parse_cmd_line sys stack args port g)
unfolding parse_cmd_line
parse_cmd_line-Settles sys stack args port g closed =
    go (first_failure sys args) (parse_arguments sys stack args g) port
      (parse_arguments-Follows sys stack args g)
  where
    with_port :
        (path : Bytes) (g' : Globals)
        → Settles
            (if is_neg (sys.open_uart path) then some 2 else none)
            sys
            (some path)
            (returned 0 (record g' { uart_fd = sys.open_uart path }))
    with_port path g' = elim (Bool-cases (is_neg (sys.open_uart path))) [
      | inl fails ↦ rw fails (refl, fails)
      | inr opens ↦ rw opens (path, refl, refl, opens)
    ]

    go :
        (f : Option ℕ) (p : Parsed) (at : Option Bytes)
        → Follows f g p
        → Settles
            (elim f [
              | some code ↦ some code
              | none ↦ elim at [
                | none ↦ some 2
                | some path ↦ if is_neg (sys.open_uart path) then some 2 else none
              ]
            ])
            sys
            at
            (elim p [
              | exits code ↦ exits code
              | returned (suc ret) g' ↦ returned 1 g'
              | returned zero g' ↦ elim at [
                | none ↦ returned 0 g'
                | some path ↦ returned 0 (record g' { uart_fd = sys.open_uart path })
              ]
            ])
    go none (returned zero g') none h = (refl, ap is_neg h ∙ closed)
    go none (returned zero g') (some path) h = with_port path g'
    go none (returned (suc ret) g') at h = absurd h
    go none (exits code) at h = absurd h
    go (some code) (returned zero g') at h = absurd h
    go (some code) (returned (suc ret) g') at h = h
    go (some code) (exits c) at h = h

pub read_default_bdaddr-closed :
    (default : Option Bytes) (stack : List ℕ)
    → is_neg (read_default_bdaddr default stack initial).uart_fd ≡ true
unfolding read_default_bdaddr parse_bdaddr
read_default_bdaddr-closed none stack = refl
read_default_bdaddr-closed (some bdaddr) stack = ground arith
