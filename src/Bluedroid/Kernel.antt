-- ===== src/Bluedroid/Kernel.antt =====
-- What bluedroid/bluetooth.c asks of the system, and the static variables of that file. The system
-- is a parameter: it answers a call from all that was called before. No law of it is assumed here.
use platform_system_bluetoot.Prelude.{
  ℕ, zero, suc, Bool, true, false, Option, none, some, List, ◌∷◌, Bytes, ℤ, pos, negsuc,
}

-- The paths that the code opens: `/sys/class/rfkill/rfkill<id>/type`, the same with `/state`, and
-- the NULL pointer.
pub data FilePath : Type 0 where
  null_path : FilePath
  type_path state_path : ℕ → FilePath

-- The services and properties that the code sets.
pub data Property : Type 0 where
  ctl_start ctl_stop bluetooth_hciattach : Property

pub data Call : Type 0 where
  open_rdonly open_wronly : FilePath → Call
  read_fd : ℤ → ℕ → Call
  write_fd : ℤ → Bytes → Call
  close_fd : ℤ → Call
  -- `socket(AF_BLUETOOTH, SOCK_RAW, BTPROTO_HCI)`
  hci_socket : Call
  -- `ioctl` with HCIDEVUP, HCIDEVDOWN and HCIGETDEVINFO on the device HCI_DEV_ID
  dev_up dev_down dev_info : ℤ → Call
  property_set : Property → Bytes → Call
  usleep : ℕ → Call

-- The value returned, `errno` behind it, the bytes read, and the `flags` of a device.
pub record Reply : Type 0 where
  pub ret : ℤ
  pub errno : ℕ
  pub got : Bytes
  pub flags : ℕ

-- The calls made so far with their answers, the latest first.
abbrev pub History : Type 0
History = List (Call × Reply)

abbrev pub Kernel : Type 0
Kernel = History → Call → Reply

-- `rfkill_id`, `rfkill_state_path`
pub record State : Type 0 where
  pub rfkill_id : ℤ
  pub rfkill_state_path : FilePath
  pub history : History

-- `none` is a run that used up the rounds given to the search in `init_rfkill`.
abbrev pub M : Type 0 → Type 0
M A = State → Option (A × State)

abbrev pub pure : {A : Type 0} → A → M A
pure a s = some (a, s)

infixl 5 ◌>>=◌ ◌>>◌
abbrev pub ◌>>=◌ : {A B : Type 0} → M A → (A → M B) → M B
◌>>=◌ m f s = elim (m s) [ none ↦ none | some (a, s') ↦ f a s' ]

abbrev pub ◌>>◌ : {A B : Type 0} → M A → M B → M B
m >> n = m >>= λ _. n

abbrev pub call : Kernel → Call → M Reply
call kernel c s = let r = kernel s.history c in some (r, record s { history = (c, r) ∷ s.history })

-- `if (x < 0) goto out;` with `ret` still -1 and nothing to close, and otherwise what follows.
abbrev pub unless_failed : ℤ → M ℤ → M ℤ
unless_failed (pos _) m s = m s
unless_failed (negsuc _) m s = pure (negsuc 0) s

-- A test between two runs.
abbrev pub branch : {A : Type 0} → Bool → M A → M A → M A
branch true m n s = m s
branch false m n s = n s

-- `x == -1`
abbrev pub is_minus_one : ℤ → Bool
is_minus_one (negsuc n) = elim n [ zero ↦ true | suc _ ↦ false ]
is_minus_one (pos _) = false

-- `x == 0`
abbrev pub is_zero : ℤ → Bool
is_zero (pos n) = elim n [ zero ↦ true | suc _ ↦ false ]
is_zero (negsuc _) = false

-- The build's switches: rfkill is used unless BLUETOOTH_DOES_NOT_USE_RFKILL is defined, and
-- hciattach is a property where BLUETOOTH_HCIATTACH_USING_PROPERTY is defined.
pub record Build : Type 0 where
  pub uses_rfkill : Bool
  pub hciattach_using_property : Bool
