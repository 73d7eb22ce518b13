-- ===== src/ShutdownTest/Sockets.antt =====
-- The calls of tools/sock_shutdown_test.c. The functions with an underscore in front of a call's
-- name choose its arguments by the type of the socket, and print what it returns.
use platform_system_bluetoot.Prelude.{ℕ, List, ◌∷◌, ℤ}

-- `enum sock_type`
pub data SockType : Type 0 where
  unix rfcomm sco l2cap tcp : SockType

-- A call with its arguments; an address is named by the type of the socket that it belongs to.
pub data Call : Type 0 where
  socket : ℕ → ℕ → ℕ → Call
  unlink_local : Call
  bind_to : ℤ → SockType → Call
  listen : ℤ → ℕ → Call
  creates_accept : ℤ → SockType → Call
  sleeps : ℕ → Call
  shuts_down : ℤ → Call
  joins : Call
  closes : ℤ → Call

-- The calls made with what they returned, the latest first; the system answers from them.
abbrev pub History : Type 0
History = List (Call × ℤ)

abbrev pub Kernel : Type 0
Kernel = History → Call → ℤ

abbrev pub M : Type 0 → Type 0
M A = History → A × History

infixl 5 ◌>>=◌ ◌>>◌
abbrev pub ◌>>=◌ : {A B : Type 0} → M A → (A → M B) → M B
◌>>=◌ m f h = let r = m h in f r.0 r.1

abbrev pub ◌>>◌ : {A B : Type 0} → M A → M B → M B
m >> n = m >>= λ _. n

abbrev pub call : Kernel → Call → M ℤ
call kernel c h = (kernel h c, (c, kernel h c) ∷ h)

-- `socket(family, typ, protocol)`
unfoldable pub socket_call : SockType → Call
socket_call unix = socket 1 1 0
socket_call rfcomm = socket 31 1 3
socket_call sco = socket 31 5 2
socket_call l2cap = socket 31 5 0
socket_call tcp = socket 2 1 0

unfoldable pub open_socket : Kernel → SockType → M ℤ
open_socket kernel type = call kernel (socket_call type)

-- The path of a UNIX socket is removed first.
unfoldable pub bind_socket : Kernel → ℤ → SockType → M ℤ
bind_socket kernel fd unix = do call kernel unlink_local; call kernel (bind_to fd unix)
bind_socket kernel fd type = call kernel (bind_to fd type)

unfoldable pub listen_socket : Kernel → ℤ → M ℤ
listen_socket kernel fd = call kernel (listen fd 1)
