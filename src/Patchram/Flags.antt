-- ===== src/Patchram/Flags.antt =====
-- What a command line that `parse_cmd_line` accepts makes of the flags.
use platform_system_bluetoot.Prelude.{
  ℕ, zero, suc, ◌≡◌, refl, ap, subst, ◌∙◌, Bool, true, false, ◌||◌, none, some, Option, List, [],
  ◌∷◌, arith, Bytes, ℤ,
}
use platform_system_bluetoot.Patchram.Globals.{Globals}
use platform_system_bluetoot.Patchram.Options.{
  System, Parsed, returned, exits, LongOption, patchram, baudrate, bd_addr, enable_lpm, enable_hci,
  use_baudrate_for_download, scopcm, i2s, no2bytes, tosleep, Argument, long, short_d, other,
  open_patchram, parse_patchram, parse_baudrate, parse_bdaddr, parse_scopcm, parse_i2s,
  parse_tosleep, parse_option, parse_arguments, parse_cmd_line,
}

-- The options that only decide whether something is done.
abbrev same : LongOption → LongOption → Bool
same bd_addr bd_addr = true
same enable_lpm enable_lpm = true
same enable_hci enable_hci = true
same use_baudrate_for_download use_baudrate_for_download = true
same scopcm scopcm = true
same i2s i2s = true
same no2bytes no2bytes = true
same _ _ = false

-- The option stands somewhere in the command line.
abbrev pub mentions : LongOption → List Argument → Bool
mentions x [] = false
mentions x (long o optarg ∷ args) = same o x || mentions x args
mentions x (short_d ∷ args) = mentions x args
mentions x (other ∷ args) = mentions x args

-- The descriptor of the firmware file that is named last.
abbrev pub last_hcd : System → List Argument → ℤ → ℤ
last_hcd sys [] fd = fd
last_hcd sys (long patchram optarg ∷ args) fd = last_hcd sys args (sys.open_hcd optarg)
last_hcd sys (_ ∷ args) fd = last_hcd sys args fd

-- Each flag is set if its option is there, and the firmware file is the one that is named last.
abbrev pub Sets : System → List Argument → Globals → Globals → Type 0
Sets sys args g g' =
    (g'.enable_lpm ≡ (mentions enable_lpm args || g.enable_lpm))
    × (g'.enable_hci ≡ (mentions enable_hci args || g.enable_hci))
    × (g'.use_baudrate_for_download
        ≡ (mentions use_baudrate_for_download args || g.use_baudrate_for_download))
    × (g'.no2bytes ≡ (mentions no2bytes args || g.no2bytes))
    × (g'.bdaddr_flag ≡ (mentions bd_addr args || g.bdaddr_flag))
    × (g'.scopcm ≡ (mentions scopcm args || g.scopcm))
    × (g'.i2s ≡ (mentions i2s args || g.i2s))
    × (g'.hcdfile_fd ≡ last_hcd sys args g.hcdfile_fd)

abbrev Accepted : (Globals → Type 0) → Parsed → Type 0
Accepted P (returned zero g) = P g
Accepted P (returned (suc ret) g) = Unit
Accepted P (exits code) = Unit

or_step : (s m f f1 f2 : Bool) → f1 ≡ ((s || false) || f) → f2 ≡ (m || f1) → f2 ≡ ((s || m) || f)
or_step true m f f1 f2 e e' = ground arith
or_step false m f f1 f2 e e' = ground arith

Sets-trans :
    (sys : System) (o : LongOption) (optarg : Bytes) (args : List Argument) (g g1 g2 : Globals)
    → Sets sys (long o optarg ∷ []) g g1
    → Sets sys args g1 g2
    → Sets sys (long o optarg ∷ args) g g2
Sets-trans sys o optarg args g g1 g2 (a, b, c, d, e, f, h, fd) (a', b', c', d', e', f', h', fd') = (
  or_step (same o enable_lpm) (mentions enable_lpm args) _ _ _ a a',
  or_step (same o enable_hci) (mentions enable_hci args) _ _ _ b b',
  or_step (same o use_baudrate_for_download) (mentions use_baudrate_for_download args) _ _ _ c c',
  or_step (same o no2bytes) (mentions no2bytes args) _ _ _ d d',
  or_step (same o bd_addr) (mentions bd_addr args) _ _ _ e e',
  or_step (same o scopcm) (mentions scopcm args) _ _ _ f f',
  or_step (same o i2s) (mentions i2s args) _ _ _ h h',
  fd' ∙ ap (last_hcd sys args) fd ∙ step o,
)
  where
    step :
        (o : LongOption)
        → last_hcd sys args (last_hcd sys (long o optarg ∷ []) g.hcdfile_fd)
          ≡ last_hcd sys (long o optarg ∷ args) g.hcdfile_fd
    step patchram = refl
    step baudrate = refl
    step bd_addr = refl
    step enable_lpm = refl
    step enable_hci = refl
    step use_baudrate_for_download = refl
    step scopcm = refl
    step i2s = refl
    step no2bytes = refl
    step tosleep = refl

parse_option-Sets :
    (sys : System) (stack : List ℕ) (o : LongOption) (optarg : Bytes) (g : Globals)
    → Accepted (Sets sys (long o optarg ∷ []) g) (parse_option sys stack o optarg g)
unfolding parse_option parse_patchram open_patchram parse_baudrate parse_bdaddr parse_scopcm
    parse_i2s parse_tosleep
parse_option-Sets sys stack enable_lpm optarg g = (refl, refl, refl, refl, refl, refl, refl, refl)
parse_option-Sets sys stack enable_hci optarg g = (refl, refl, refl, refl, refl, refl, refl, refl)
parse_option-Sets sys stack use_baudrate_for_download optarg g =
    (refl, refl, refl, refl, refl, refl, refl, refl)
parse_option-Sets sys stack no2bytes optarg g = (refl, refl, refl, refl, refl, refl, refl, refl)
parse_option-Sets sys stack bd_addr optarg g = (refl, refl, refl, refl, refl, refl, refl, refl)
parse_option-Sets sys stack _ optarg g = ground arith

parse_arguments-Sets :
    (sys : System) (stack : List ℕ) (args : List Argument) (g : Globals)
    → Accepted (Sets sys args g) (parse_arguments sys stack args g)
unfolding parse_arguments
parse_arguments-Sets sys stack [] g = (refl, refl, refl, refl, refl, refl, refl, refl)
parse_arguments-Sets sys stack (short_d ∷ args) g =
    parse_arguments-Sets sys stack args (record g { debug = true })
parse_arguments-Sets sys stack (other ∷ args) g = parse_arguments-Sets sys stack args g
parse_arguments-Sets sys stack (long o optarg ∷ args) g =
    go (parse_option sys stack o optarg g) (parse_option-Sets sys stack o optarg g)
      (parse_arguments-Sets sys stack args)
  where
    after :
        (g1 : Globals) (p : Parsed)
        → Sets sys (long o optarg ∷ []) g g1
        → Accepted (Sets sys args g1) p
        → Accepted (Sets sys (long o optarg ∷ args) g) p
    after g1 (returned zero g2) first rest = Sets-trans sys o optarg args g g1 g2 first rest
    after g1 (returned (suc ret) g2) first rest = tt
    after g1 (exits code) first rest = tt

    go :
        (p : Parsed)
        → Accepted (Sets sys (long o optarg ∷ []) g) p
        → ((g1 : Globals) → Accepted (Sets sys args g1) (parse_arguments sys stack args g1))
        → Accepted (Sets sys (long o optarg ∷ args) g) (elim p [
          | exits code ↦ exits code
          | returned zero g' ↦ parse_arguments sys stack args g'
          | returned (suc ret) g' ↦ returned (suc ret) g'
        ])
    go (returned zero g1) first rest = after g1 (parse_arguments sys stack args g1) first (rest g1)
    go (returned (suc ret) g1) first rest = tt
    go (exits code) first rest = tt

parse_cmd_line-Accepted :
    (sys : System) (stack : List ℕ) (args : List Argument) (port : Option Bytes) (g : Globals)
    → Accepted (Sets sys args g) (parse_cmd_line sys stack args port g)
unfolding parse_cmd_line
parse_cmd_line-Accepted sys stack args port g =
    go (parse_arguments sys stack args g) port (parse_arguments-Sets sys stack args g)
  where
    go :
        (p : Parsed) (at : Option Bytes)
        → Accepted (Sets sys args g) p
        → Accepted (Sets sys args g) (elim p [
          | exits code ↦ exits code
          | returned (suc ret) g' ↦ returned 1 g'
          | returned zero g' ↦ elim at [
            | none ↦ returned 0 g'
            | some path ↦ returned 0 (record g' { uart_fd = sys.open_uart path })
          ]
        ])
    go (returned zero g') none set = set
    go (returned zero g') (some path) set = set
    go (returned (suc ret) g') at set = tt
    go (exits code) at set = tt

-- If `parse_cmd_line` accepts a command line, then each flag of --enable_lpm, --enable_hci,
-- --use_baudrate_for_download, --no2bytes, --bd_addr, --scopcm and --i2s is set where its option is
-- there or it was set before, and not otherwise, and the descriptor of the firmware file is that of
-- the file that --patchram names last, or the one before.
pub parse_cmd_line-Sets :
    (sys : System) (stack : List ℕ) (args : List Argument) (port : Option Bytes) (g g' : Globals)
    → parse_cmd_line sys stack args port g ≡ returned 0 g'
    → Sets sys args g g'
parse_cmd_line-Sets sys stack args port g g' e =
    subst (Accepted (Sets sys args g)) e (parse_cmd_line-Accepted sys stack args port g)
