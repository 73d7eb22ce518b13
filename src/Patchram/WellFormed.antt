-- ===== src/Patchram/WellFormed.antt =====
-- The arrays of commands in brcm_patchram_plus/brcm_patchram_plus.c, whatever the command line.
use platform_system_bluetoot.Prelude.{
  true, ℕ, zero, suc, ◌%◌, ◌≡◌, refl, ◌∙◌, List, [], ◌∷◌, Option, none, some, map, arith, Bytes, ℤ,
  pos, negsuc, to_uchar, length, take, drop, splice, length-splice,
}
use platform_system_bluetoot.Libc.Scan.{atoi, scan_dec, scan_row}
use platform_system_bluetoot.Libc.Hex.{AreBytes}
use platform_system_bluetoot.Patchram.Globals.{
  Globals, initial, validate_baudrate, brcm_encode_baud_rate, le32,
}
use platform_system_bluetoot.Patchram.Options.{
  System, Parsed, returned, exits, parse_bdaddr, parse_baudrate, parse_patchram, parse_scopcm,
  parse_i2s, parse_tosleep, LongOption, patchram, baudrate, bd_addr, scopcm, i2s, Argument, long,
  short_d, other, nat_part, parse_option, parse_arguments, parse_cmd_line, open_patchram,
}
use platform_system_bluetoot.Patchram.Main.{Start, read_default_bdaddr}
use platform_system_bluetoot.Patchram.Outcome.{parsed}

-- A command packet with this opcode, and with as many parameters as its fourth byte says.
pub record IsCommand (lo hi n : ℕ) (cmd : Bytes) : Type 0 where
  pub params : Bytes
  pub head : cmd ≡ 1 ∷ lo ∷ hi ∷ n ∷ params
  pub size : length params ≡ n
  pub small : AreBytes params

pub AreBytes-splice :
    (xs : Bytes) (i : ℕ) (ys : Bytes) → AreBytes xs → AreBytes ys → AreBytes (splice xs i ys)
AreBytes-splice [] i ys small small' = tt
AreBytes-splice (x ∷ xs) zero [] small small' = small
AreBytes-splice (x ∷ xs) zero (y ∷ ys) (_, small) (h, small') =
    (h, AreBytes-splice xs zero ys small small')
AreBytes-splice (x ∷ xs) (suc i) ys (h, small) small' = (h, AreBytes-splice xs i ys small small')

-- Bytes behind the head are replaced.
splice-IsCommand :
    (lo hi n : ℕ) (cmd : Bytes) (i : ℕ) (ys : Bytes)
    → IsCommand lo hi n cmd
    → AreBytes ys
    → IsCommand lo hi n (splice cmd (suc (suc (suc (suc i)))) ys)
splice-IsCommand lo hi n cmd i ys h small = record {
  params = splice h.params i ys;
  head = rw h.head refl;
  size = length-splice h.params i ys ∙ h.size;
  small = AreBytes-splice h.params i ys h.small small;
}

map-to_uchar-AreBytes : (vs : List ℤ) → AreBytes (map to_uchar vs)
map-to_uchar-AreBytes [] = tt
map-to_uchar-AreBytes (pos v ∷ vs) = (omega arith, map-to_uchar-AreBytes vs)
map-to_uchar-AreBytes (negsuc v ∷ vs) = (omega arith, map-to_uchar-AreBytes vs)

map-mod-AreBytes : (vs : Bytes) → AreBytes (map (λ v. v % 256) vs)
map-mod-AreBytes [] = tt
map-mod-AreBytes (v ∷ vs) = (omega arith, map-mod-AreBytes vs)

brcm_encode_baud_rate-IsCommand :
    (lo hi n rate : ℕ) (cmd : Bytes)
    → IsCommand lo hi n cmd
    → IsCommand lo hi n (brcm_encode_baud_rate rate cmd)
unfolding brcm_encode_baud_rate
brcm_encode_baud_rate-IsCommand lo hi n rate cmd h = ground (
  arith,
  splice-IsCommand lo hi n cmd 2 (le32 rate) h
      (omega arith, (omega arith, (omega arith, (omega arith, tt)))),
)

-- Each array of a command that the options change is a packet of that command.
abbrev pub WellFormed : Globals → Type 0
WellFormed g =
    IsCommand 0x18 0xfc 6 g.hci_update_baud_rate
    × IsCommand 0x01 0xfc 6 g.hci_write_bd_addr
    × IsCommand 0x1c 0xfc 5 g.hci_write_sco_pcm_int
    × IsCommand 0x1e 0xfc 5 g.hci_write_pcm_data_format
    × IsCommand 0x6d 0xfc 4 g.hci_write_i2spcm_interface_param

-- What a function of an option returns is well formed.
abbrev pub Keeps : Parsed → Type 0
Keeps (returned _ g) = WellFormed g
Keeps (exits _) = Unit

initial-WellFormed : WellFormed initial
initial-WellFormed =
    let six : Bytes = 0 ∷ 0 ∷ 0 ∷ 0 ∷ 0 ∷ 0 ∷ [] in
    let five : Bytes = 0 ∷ 0 ∷ 0 ∷ 0 ∷ 0 ∷ [] in
    let four : Bytes = 0 ∷ 0 ∷ 0 ∷ 0 ∷ [] in
    (
      record { params = six; head = refl; size = refl; small = ground arith },
      record { params = six; head = refl; size = refl; small = ground arith },
      record { params = five; head = refl; size = refl; small = ground arith },
      record { params = five; head = refl; size = refl; small = ground arith },
      record { params = four; head = refl; size = refl; small = ground arith },
    )

parse_bdaddr-Keeps :
    (stack : List ℕ) (optarg : Bytes) (g : Globals)
    → WellFormed g
    → Keeps (parse_bdaddr stack optarg g)
unfolding parse_bdaddr
parse_bdaddr-Keeps stack optarg g (rate, addr, sco, format, wire) =
    (rate, splice-IsCommand _ _ _ _ 0 _ addr (map-mod-AreBytes _), sco, format, wire)

parse_baudrate-Keeps :
    (optarg : Bytes) (g : Globals) → WellFormed g → Keeps (parse_baudrate optarg g)
unfolding parse_baudrate
parse_baudrate-Keeps optarg g (rate, addr, sco, format, wire) = go (validate_baudrate (atoi optarg))
  where
    go :
        (found : Option ℕ)
        → Keeps (elim found [
          | none ↦ returned 0 g
          | some value ↦ returned 0 (record g {
            termios_baudrate = value;
            hci_update_baud_rate =
                brcm_encode_baud_rate (nat_part (atoi optarg)) g.hci_update_baud_rate;
          })
        ])
    go none = (rate, addr, sco, format, wire)
    go (some value) = (brcm_encode_baud_rate-IsCommand _ _ _ _ _ rate, addr, sco, format, wire)

parse_scopcm-Keeps : (optarg : Bytes) (g : Globals) → WellFormed g → Keeps (parse_scopcm optarg g)
unfolding parse_scopcm
parse_scopcm-Keeps optarg g (rate, addr, sco, format, wire) =
    let param = scan_row scan_dec b',' 10 optarg in
    ground (
      arith,
      splice-IsCommand _ _ _ _ 0 _ sco (map-to_uchar-AreBytes (take 5 param)),
      splice-IsCommand _ _ _ _ 0 _ format (map-to_uchar-AreBytes (drop 5 param)),
    )

parse_i2s-Keeps : (optarg : Bytes) (g : Globals) → WellFormed g → Keeps (parse_i2s optarg g)
unfolding parse_i2s
parse_i2s-Keeps optarg g (rate, addr, sco, format, wire) =
    let param = scan_row scan_dec b',' 4 optarg in
    ground (arith, splice-IsCommand _ _ _ _ 0 _ wire (map-to_uchar-AreBytes param))

parse_option-Keeps :
    (sys : System) (stack : List ℕ) (o : LongOption) (optarg : Bytes) (g : Globals)
    → WellFormed g
    → Keeps (parse_option sys stack o optarg g)
unfolding parse_option parse_patchram open_patchram parse_tosleep
parse_option-Keeps sys stack patchram optarg g w = ground arith
parse_option-Keeps sys stack baudrate optarg g w = parse_baudrate-Keeps optarg g w
parse_option-Keeps sys stack bd_addr optarg g w = parse_bdaddr-Keeps stack optarg g w
parse_option-Keeps sys stack scopcm optarg g w = parse_scopcm-Keeps optarg g w
parse_option-Keeps sys stack i2s optarg g w = parse_i2s-Keeps optarg g w
parse_option-Keeps sys stack _ optarg g w = w

parse_arguments-Keeps :
    (sys : System) (stack : List ℕ) (args : List Argument) (g : Globals)
    → WellFormed g
    → Keeps (parse_arguments sys stack args g)
unfolding parse_arguments
parse_arguments-Keeps sys stack [] g w = w
parse_arguments-Keeps sys stack (short_d ∷ args) g w =
    parse_arguments-Keeps sys stack args (record g { debug = true }) w
parse_arguments-Keeps sys stack (other ∷ args) g w = parse_arguments-Keeps sys stack args g w
parse_arguments-Keeps sys stack (long o optarg ∷ args) g w =
    go (parse_option sys stack o optarg g) (parse_option-Keeps sys stack o optarg g w)
      (parse_arguments-Keeps sys stack args)
  where
    go :
        (p : Parsed)
        → Keeps p
        → ((g' : Globals) → WellFormed g' → Keeps (parse_arguments sys stack args g'))
        → Keeps (elim p [
          | exits code ↦ exits code
          | returned zero g' ↦ parse_arguments sys stack args g'
          | returned (suc ret) g' ↦ returned (suc ret) g'
        ])
    go (exits code) keeps next = tt
    go (returned zero g') keeps next = next g' keeps
    go (returned (suc ret) g') keeps next = keeps

parse_cmd_line-Keeps :
    (sys : System) (stack : List ℕ) (args : List Argument) (port : Option Bytes) (g : Globals)
    → WellFormed g
    → Keeps (parse_cmd_line sys stack args port g)
unfolding parse_cmd_line
parse_cmd_line-Keeps sys stack args port g w =
    ground (arith, parse_arguments-Keeps sys stack args g w)

read_default_bdaddr-WellFormed :
    (file : Option Bytes) (stack : List ℕ) (g : Globals)
    → WellFormed g
    → WellFormed (read_default_bdaddr file stack g)
unfolding read_default_bdaddr
read_default_bdaddr-WellFormed none stack g w = w
read_default_bdaddr-WellFormed (some bdaddr) stack g w =
    ground (arith, parse_bdaddr-Keeps stack bdaddr g w)

-- Whatever the command line and the file of the address say, the five arrays that the options
-- change keep their opcodes and hold as many bytes of parameters as their fourth byte says.
pub parsed-WellFormed : (s : Start) → Keeps (parsed s)
parsed-WellFormed s =
    parse_cmd_line-Keeps s.system s.stack s.arguments s.port
      (read_default_bdaddr s.default_bdaddr s.default_stack initial)
      (read_default_bdaddr-WellFormed s.default_bdaddr s.default_stack initial initial-WellFormed)
