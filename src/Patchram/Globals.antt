-- ===== src/Patchram/Globals.antt =====
-- The global variables, and the commands that the options fill in.
use platform_system_bluetoot.Prelude.{
  ℕ, ◌/◌, ◌%◌, ◌^◌, Bool, false, List, [], ◌∷◌, Option, none, some, ◌==◌, if◌then◌else◌, Bytes, ℤ,
  pos, minus_one, splice,
}

pub record Globals : Type 0 where
  pub uart_fd : ℤ
  pub hcdfile_fd : ℤ
  pub termios_baudrate : ℕ
  pub bdaddr_flag : Bool
  pub enable_lpm : Bool
  pub enable_hci : Bool
  pub use_baudrate_for_download : Bool
  pub debug : Bool
  pub scopcm : Bool
  pub i2s : Bool
  pub no2bytes : Bool
  pub tosleep : ℤ
  pub hci_update_baud_rate : Bytes
  pub hci_write_bd_addr : Bytes
  pub hci_write_sco_pcm_int : Bytes
  pub hci_write_pcm_data_format : Bytes
  pub hci_write_i2spcm_interface_param : Bytes

abbrev pub hci_reset : Bytes
hci_reset = 0x01 ∷ 0x03 ∷ 0x0c ∷ 0x00 ∷ []

abbrev pub hci_download_minidriver : Bytes
hci_download_minidriver = 0x01 ∷ 0x2e ∷ 0xfc ∷ 0x00 ∷ []

abbrev pub hci_write_sleep_mode : Bytes
hci_write_sleep_mode =
    0x01 ∷ 0x27 ∷ 0xfc ∷ 0x0c ∷ 0x01 ∷ 0x01 ∷ 0x01 ∷ 0x01 ∷ 0x01 ∷ 0x01 ∷ 0x01 ∷ 0x00 ∷ 0x00 ∷ 0x00
    ∷ 0x00 ∷ 0x00 ∷ []

-- The values that the variables start with.
abbrev pub initial : Globals
initial = record {
  uart_fd = minus_one;
  hcdfile_fd = minus_one;
  termios_baudrate = 0;
  bdaddr_flag = false;
  enable_lpm = false;
  enable_hci = false;
  use_baudrate_for_download = false;
  debug = false;
  scopcm = false;
  i2s = false;
  no2bytes = false;
  tosleep = pos 0;
  hci_update_baud_rate = 0x01 ∷ 0x18 ∷ 0xfc ∷ 0x06 ∷ 0 ∷ 0 ∷ 0 ∷ 0 ∷ 0 ∷ 0 ∷ [];
  hci_write_bd_addr = 0x01 ∷ 0x01 ∷ 0xfc ∷ 0x06 ∷ 0 ∷ 0 ∷ 0 ∷ 0 ∷ 0 ∷ 0 ∷ [];
  hci_write_sco_pcm_int = 0x01 ∷ 0x1c ∷ 0xfc ∷ 0x05 ∷ 0 ∷ 0 ∷ 0 ∷ 0 ∷ 0 ∷ [];
  hci_write_pcm_data_format = 0x01 ∷ 0x1e ∷ 0xfc ∷ 0x05 ∷ 0 ∷ 0 ∷ 0 ∷ 0 ∷ 0 ∷ [];
  hci_write_i2spcm_interface_param = 0x01 ∷ 0x6d ∷ 0xfc ∷ 0x04 ∷ 0 ∷ 0 ∷ 0 ∷ 0 ∷ [];
}

-- The four bytes that `BRCM_encode_baud_rate` writes for a rate other than 0, the lowest first.
abbrev pub le32 : ℕ → Bytes
le32 n = n % 256 ∷ n / 2 ^ 8 % 256 ∷ n / 2 ^ 16 % 256 ∷ n / 2 ^ 24 % 256 ∷ []

-- `BRCM_encode_baud_rate(baud_rate, &cmd[6])`
unfoldable pub brcm_encode_baud_rate : ℕ → Bytes → Bytes
brcm_encode_baud_rate baud_rate cmd = if baud_rate == 0 then cmd else splice cmd 6 (le32 baud_rate)

-- `baud_rates`, with the values of the constants `B115200` and so on of Linux.
abbrev pub baud_rates : List (ℕ × ℕ)
baud_rates =
    (115200, 0o10002)
    ∷ (230400, 0o10003)
    ∷ (460800, 0o10004)
    ∷ (500000, 0o10005)
    ∷ (576000, 0o10006)
    ∷ (921600, 0o10007)
    ∷ (1000000, 0o10010)
    ∷ (1152000, 0o10011)
    ∷ (1500000, 0o10012)
    ∷ (2000000, 0o10013)
    ∷ (2500000, 0o10014)
    ∷ (3000000, 0o10015)
    ∷ (3500000, 0o10016)
    ∷ (4000000, 0o10017)
    ∷ []

abbrev pub b115200 : ℕ
b115200 = 0o10002

-- The loop of `validate_baudrate`: what it stores in `*value`, or 0 returned.
unfoldable pub find_baudrate : List (ℕ × ℕ) → ℕ → Option ℕ
find_baudrate [] baud_rate = none
find_baudrate ((rate, termios_value) ∷ rates) baud_rate =
    if rate == baud_rate then some termios_value else find_baudrate rates baud_rate

unfoldable pub validate_baudrate : ℤ → Option ℕ
unfolding find_baudrate
validate_baudrate (pos baud_rate) = find_baudrate baud_rates baud_rate
validate_baudrate _ = none
