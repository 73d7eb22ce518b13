-- ===== src/Patchram/Device.antt =====
-- The UART with the chip behind it, the firmware file, and the buffer of the program.
use platform_system_bluetoot.Prelude.{ℕ, Bool, true, false, List, [], ◌∷◌, ◌++◌, Bytes}

-- What happens at a call of `read` on the port: at most `n + 1` bytes are there, the call fails, or
-- the timer expires before there are any.
pub data Arrival : Type 0 where
  gets : ℕ → Arrival
  fails : Arrival
  timer : Arrival

-- What the program does to the port and to the world. The program does not look at what its calls
-- of `write`, `tcsetattr` and `usleep` return: a `sent` is the call, with the bytes that it is given.
pub data Output : Type 0 where
  sent : Bytes → Output
  flush : Output
  -- `tcsetattr`: in raw mode with flow control, and with this speed
  set_raw : Output
  set_speed : ℕ → Output
  alarm : ℕ → Output
  usleep : ℕ → Output
  -- `ioctl` with TIOCSETD and with HCIUARTSETPROTO
  set_discipline set_protocol : ℕ → Output

-- `rx` is what the chip will still send, `hcd` the rest of the firmware file, `log` what was done.
-- `hcd_fails n` says whether the file can be read no further when `n` bytes of it are left: a read
-- that begins there fails, and one that begins before stops there.
-- After the arrivals that are listed a read gets all that it asks for, if the chip sends as much.
pub record Device : Type 0 where
  pub rx : Bytes
  pub arrivals : List Arrival
  pub hcd : Bytes
  pub hcd_fails : ℕ → Bool
  pub buffer : Bytes
  pub alarm_set : Bool
  pub log : List Output

-- A run waits for ever for the chip, writes outside of the buffer, or uses up the rounds of a loop.
pub data Stop : Type 0 where
  blocked fault out_of_rounds : Stop

pub data Run (A : Type 0) : Type 0 where
  done : A → Device → Run A
  stops : Stop → Device → Run A

abbrev pub Cmd : Type 0 → Type 0
Cmd A = Device → Run A

abbrev pub pure : {A : Type 0} → A → Cmd A
pure = done

infixl 5 ◌>>=◌ ◌>>◌
abbrev pub ◌>>=◌ : {A B : Type 0} → Cmd A → (A → Cmd B) → Cmd B
◌>>=◌ m f d = elim (m d) [ done a d' ↦ f a d' | stops why d' ↦ stops why d' ]

abbrev pub ◌>>◌ : {A B : Type 0} → Cmd A → Cmd B → Cmd B
m >> n = m >>= λ _. n

abbrev pub skip : Cmd (Unit {0})
skip = done tt

abbrev pub output : Output → Cmd (Unit {0})
output o d = done tt (record d { log = d.log ++ o ∷ [] })

-- `if (b) { m }`
abbrev pub when : Bool → Cmd (Unit {0}) → Cmd (Unit {0})
when true m d = m d
when false m d = done tt d

-- A run ends, and this holds of its result.
abbrev pub Returns : {A : Type 0} → (A → Device → Type 0) → Run A → Type 0
Returns P (done a d) = P a d
Returns P (stops _ _) = ⊥

-- A run goes on from what another one ensures.
pub Returns-bind :
    {A B : Type 0} (P : A → Device → Type 0) (Q : B → Device → Type 0) (r : Run A) (f : A → Cmd B)
    → Returns P r
    → ((a : A) (d : Device) → P a d → Returns Q (f a d))
    → Returns Q (elim r [ done a d ↦ f a d | stops why d ↦ stops why d ])
Returns-bind P Q (done a d) f h next = next a d h
Returns-bind P Q (stops _ _) f h next = absurd h

pub Returns-mono :
    {A : Type 0} (P Q : A → Device → Type 0) (r : Run A)
    → Returns P r
    → ((a : A) (d : Device) → P a d → Q a d)
    → Returns Q r
Returns-mono P Q (done a d) h weaken = weaken a d h
Returns-mono P Q (stops _ _) h weaken = h

-- If a run ends, this holds of the device.
abbrev pub IfDone : {A : Type 0} → (Device → Type 0) → Run A → Type 0
IfDone P (done a d) = P d
IfDone P (stops _ _) = Unit

pub IfDone-bind :
    {A B : Type 0} (P Q : Device → Type 0) (r : Run A) (f : A → Cmd B)
    → IfDone P r
    → ((a : A) (d : Device) → P d → IfDone Q (f a d))
    → IfDone Q (elim r [ done a d ↦ f a d | stops why d ↦ stops why d ])
IfDone-bind P Q (done a d) f h next = next a d h
IfDone-bind P Q (stops _ _) f h next = tt

-- If a run ends, this holds of its result.
abbrev pub Holds : {A : Type 0} → (A → Device → Type 0) → Run A → Type 0
Holds P (done a d) = P a d
Holds P (stops _ _) = Unit

pub Holds-IfDone :
    {A B : Type 0} (P : A → Device → Type 0) (Q : Device → Type 0) (r : Run A) (f : A → Cmd B)
    → Holds P r
    → ((a : A) (d : Device) → P a d → IfDone Q (f a d))
    → IfDone Q (elim r [ done a d ↦ f a d | stops why d ↦ stops why d ])
Holds-IfDone P Q (done a d) f h next = next a d h
Holds-IfDone P Q (stops _ _) f h next = tt

pub Returns-and :
    {A : Type 0} (P : A → Device → Type 0) (Q : Device → Type 0) (r : Run A)
    → Returns P r
    → IfDone Q r
    → Returns (λ a d. P a d × Q d) r
Returns-and P Q (done a d) h k = (h, k)
Returns-and P Q (stops _ _) h k = absurd h
