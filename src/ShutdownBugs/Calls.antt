-- ===== src/ShutdownBugs/Calls.antt =====
-- The system calls of the programs tools/sock_shutdown_bug_….c.
use platform_system_bluetoot.Prelude.{
  ℕ, ◌+◌, ◌-◌, ◌/◌, ◌%◌, List, ◌∷◌, Option, none, some, ◌==◌, if◌then◌else◌, ℤ, pos, negsuc, Bytes,
}

-- `struct sockaddr_l2`, `struct sockaddr_rc` and `struct sockaddr_in`, with the fields that the
-- programs name and those that the kernel reads.
pub data SockAddr : Type 0 where
  l2 : (l2_family l2_psm : ℕ) → (l2_bdaddr : Bytes) (l2_cid : ℕ) → SockAddr
  rc : (rc_family : ℕ) → (rc_bdaddr : Bytes) → (rc_channel : ℕ) → SockAddr
  inet : (sin_family sin_port sin_addr : ℕ) → SockAddr

-- A call with its arguments: the socket's family, type and protocol, and `fcntl` with F_GETFL and
-- with F_SETFL.
pub data Call : Type 0 where
  socket : ℕ → ℕ → ℕ → Call
  get_flags : ℤ → Call
  set_flags : ℤ → ℤ → Call
  connects binds : ℤ → SockAddr → Call
  listens : ℤ → ℕ → Call
  sleeps : ℕ → Call
  shuts_down : ℤ → Call
  closes : ℤ → Call

-- The calls made with what they returned, the latest first; the system answers from them.
abbrev pub History : Type 0
History = List (Call × ℤ)

abbrev pub Kernel : Type 0
Kernel = History → Call → ℤ

-- `none` is a read outside of a string.
abbrev pub M : Type 0 → Type 0
M A = History → Option (A × History)

-- One run behind another; one that has failed ends.
infixl 5 ◌>>=◌ ◌>>◌
abbrev pub ◌>>=◌ : {A B : Type 0} → M A → (A → M B) → M B
◌>>=◌ run next before = elim (run before) [ some (a, behind) ↦ next a behind | none ↦ none ]

abbrev pub ◌>>◌ : {A B : Type 0} → M A → M B → M B
run >> next = run >>= λ _. next

abbrev pub call : Kernel → Call → M ℤ
call kernel c h = some (kernel h c, (c, kernel h c) ∷ h)

abbrev pub o_nonblock : ℕ
o_nonblock = 0o4000

-- `flags | O_NONBLOCK`, also for the -1 of a failed F_GETFL: a negative number is the complement
-- of `n`, of which the bit is taken.
unfoldable pub or_nonblock : ℤ → ℤ
or_nonblock (pos n) = pos (if n / o_nonblock % 2 == 0 then n + o_nonblock else n)
or_nonblock (negsuc n) = negsuc (if n / o_nonblock % 2 == 0 then n else n - o_nonblock)
