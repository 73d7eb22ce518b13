-- ===== src/Patchram/Options.antt =====
-- The command line: `parse_cmd_line` and the functions of its options.
use platform_system_bluetoot.Prelude.{
  ℕ, zero, suc, ◌-◌, ◌%◌, Bool, true, false, List, [], ◌∷◌, Option, none, some, map, ◌==◌,
  if◌then◌else◌, Bytes, codes, ℤ, pos, negsuc, to_uchar, length, set, take, drop, splice,
}
use platform_system_bluetoot.Libc.Chars.{equal_nocase, after_last}
use platform_system_bluetoot.Libc.Scan.{atoi, scan_hex, scan_dec, scan_row}
use platform_system_bluetoot.Patchram.Globals.{Globals, brcm_encode_baud_rate, validate_baudrate}

-- What the functions ask of the system: `open` of the firmware file and of the port.
pub record System : Type 0 where
  pub open_hcd : Bytes → ℤ
  pub open_uart : Bytes → ℤ

-- A function of an option returns a number, or leaves the program with an exit code.
pub data Parsed : Type 0 where
  returned : ℕ → Globals → Parsed
  exits : ℕ → Parsed

unfoldable is_minus_one : ℤ → Bool
is_minus_one (negsuc n) = n == 0
is_minus_one (pos n) = false

-- `parse_patchram` behind the tests of the name.
unfoldable pub open_patchram : ℤ → Globals → Parsed
unfolding is_minus_one
open_patchram fd g = if is_minus_one fd then exits 5 else returned 0 (record g { hcdfile_fd = fd })

unfoldable pub parse_patchram : System → Bytes → Globals → Parsed
unfolding open_patchram
parse_patchram sys optarg g = elim (after_last b'.' optarg) [
  | none ↦ exits 3
  | some p ↦ if equal_nocase (codes "hcd") p then open_patchram (sys.open_hcd optarg) g else exits 4
]

abbrev pub nat_part : ℤ → ℕ
nat_part (pos n) = n
nat_part (negsuc n) = 0

-- A rate in the table is not negative, so that its conversion to `uint` keeps it.
unfoldable pub parse_baudrate : Bytes → Globals → Parsed
parse_baudrate optarg g =
    let baudrate = atoi optarg in
    elim (validate_baudrate baudrate) [
      | none ↦ returned 0 g
      | some value ↦ returned 0 (record g {
        termios_baudrate = value;
        hci_update_baud_rate = brcm_encode_baud_rate (nat_part baudrate) g.hci_update_baud_rate;
      })
    ]

-- `sscanf` stores its values from `&bd_addr[i]` downwards.
unfoldable pub assign_down : ℕ → List ℕ → List ℕ → List ℕ
assign_down i [] bd_addr = bd_addr
assign_down i (v ∷ vs) bd_addr = assign_down (i - 1) vs (set bd_addr i v)

-- `parse_bdaddr`. The array `bd_addr` is not initialised: `stack` is what it holds. What `sscanf`
-- does not assign is sent as it is.
unfoldable pub parse_bdaddr : List ℕ → Bytes → Globals → Parsed
unfolding assign_down
parse_bdaddr stack optarg g =
    let bd_addr = assign_down 5 (scan_row (scan_hex 2) b':' 6 optarg) stack in
    returned 0 (record g {
      hci_write_bd_addr = splice g.hci_write_bd_addr 4 (map (λ v. v % 256) bd_addr);
      bdaddr_flag = true;
    })

unfoldable pub parse_scopcm : Bytes → Globals → Parsed
parse_scopcm optarg g =
    let param = scan_row scan_dec b',' 10 optarg in
    if length param == 10
    then returned 0 (record g {
      scopcm = true;
      hci_write_sco_pcm_int = splice g.hci_write_sco_pcm_int 4 (map to_uchar (take 5 param));
      hci_write_pcm_data_format =
          splice g.hci_write_pcm_data_format 4 (map to_uchar (drop 5 param));
    })
    else returned 1 g

unfoldable pub parse_i2s : Bytes → Globals → Parsed
parse_i2s optarg g =
    let param = scan_row scan_dec b',' 4 optarg in
    if length param == 4
    then returned 0 (record g {
      i2s = true;
      hci_write_i2spcm_interface_param =
          splice g.hci_write_i2spcm_interface_param 4 (map to_uchar param);
    })
    else returned 1 g

-- `tosleep <= 0`
abbrev pub not_positive : ℤ → Bool
not_positive (pos n) = n == 0
not_positive (negsuc n) = true

unfoldable pub parse_tosleep : Bytes → Globals → Parsed
parse_tosleep optarg g =
    let tosleep = atoi optarg in
    returned (if not_positive tosleep then 1 else 0) (record g { tosleep = tosleep })

-- The options that only set a flag.
abbrev pub parse_enable_lpm : Globals → Parsed
parse_enable_lpm g = returned 0 (record g { enable_lpm = true })

abbrev pub parse_use_baudrate_for_download : Globals → Parsed
parse_use_baudrate_for_download g = returned 0 (record g { use_baudrate_for_download = true })

abbrev pub parse_enable_hci : Globals → Parsed
parse_enable_hci g = returned 0 (record g { enable_hci = true })

abbrev pub parse_no2bytes : Globals → Parsed
parse_no2bytes g = returned 0 (record g { no2bytes = true })

-- The entries of `long_options`, in the order of the table `parse`.
pub data LongOption : Type 0 where
  patchram baudrate bd_addr enable_lpm enable_hci use_baudrate_for_download : LongOption
  scopcm i2s no2bytes tosleep : LongOption

-- What `getopt_long_only` returns: a long option with its argument, which is empty for an option
-- that takes none, `-d`, or anything else.
pub data Argument : Type 0 where
  long : LongOption → Bytes → Argument
  short_d : Argument
  other : Argument

-- `(*parse[option_index])(optarg)`
unfoldable pub parse_option : System → List ℕ → LongOption → Bytes → Globals → Parsed
unfolding parse_patchram parse_baudrate parse_bdaddr parse_scopcm parse_i2s parse_tosleep
parse_option sys stack patchram optarg g = parse_patchram sys optarg g
parse_option sys stack baudrate optarg g = parse_baudrate optarg g
parse_option sys stack bd_addr optarg g = parse_bdaddr stack optarg g
parse_option sys stack enable_lpm optarg g = parse_enable_lpm g
parse_option sys stack enable_hci optarg g = parse_enable_hci g
parse_option sys stack use_baudrate_for_download optarg g = parse_use_baudrate_for_download g
parse_option sys stack scopcm optarg g = parse_scopcm optarg g
parse_option sys stack i2s optarg g = parse_i2s optarg g
parse_option sys stack no2bytes optarg g = parse_no2bytes g
parse_option sys stack tosleep optarg g = parse_tosleep optarg g

-- The loop of `parse_cmd_line`. `usage` only prints.
unfoldable pub parse_arguments : System → List ℕ → List Argument → Globals → Parsed
unfolding parse_option
parse_arguments sys stack [] g = returned 0 g
parse_arguments sys stack (short_d ∷ args) g =
    parse_arguments sys stack args (record g { debug = true })
parse_arguments sys stack (other ∷ args) g = parse_arguments sys stack args g
parse_arguments sys stack (long o optarg ∷ args) g = elim (parse_option sys stack o optarg g) [
  | exits code ↦ exits code
  | returned zero g' ↦ parse_arguments sys stack args g'
  | returned (suc ret) g' ↦ returned (suc ret) g'
]

-- `parse_cmd_line`, with the first argument that is no option, if there is one.
unfoldable pub parse_cmd_line : System → List ℕ → List Argument → Option Bytes → Globals → Parsed
unfolding parse_arguments
parse_cmd_line sys stack args port g = elim (parse_arguments sys stack args g) [
  | exits code ↦ exits code
  | returned (suc ret) g' ↦ returned 1 g'
  | returned zero g' ↦ elim port [
    | none ↦ returned 0 g'
    | some path ↦ returned 0 (record g' { uart_fd = sys.open_uart path })
  ]
]
