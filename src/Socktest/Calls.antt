-- ===== src/Socktest/Calls.antt =====
-- The calls of tools/socktest.c and the functions that its threads run. The functions with an
-- underscore in front of a call's name choose its arguments by the type of the socket, and print
-- what it returns.
use platform_system_bluetoot.Prelude.{ℕ, [], ℤ, pos, Bytes, codes}
use platform_system_bluetoot.Threads.Program.{Program, returns, call, ◌>>=◌, ◌>>◌}
use platform_system_bluetoot.Socktest.Address.{get_bdaddr}

-- `enum sock_type`
pub data SockType : Type 0 where
  unix rfcomm sco l2cap tcp : SockType

-- A local or remote address is named by the type of the socket that it belongs to; `connects` has
-- the Bluetooth address of the peer as well, if it is set there. `shuts_down` is with SHUT_RDWR.
pub data Call : Type 0 where
  socket : ℕ → ℕ → ℕ → Call
  unlinks_local : Call
  binds : ℤ → SockType → Call
  listens : ℤ → ℕ → Call
  accepts : ℤ → SockType → Call
  connects : ℤ → SockType → Bytes → Call
  closes reads shuts_down : ℤ → Call
  writes polls : ℤ → ℕ → Call
  sleeps : ℕ → Call
  -- `fcntl(fd, F_GETFL)` and `fcntl(fd, F_SETFL, flags | O_NONBLOCK)`
  gets_flags : ℤ → Call
  sets_nonblock : ℤ → ℤ → Call

abbrev pub Thread : Type 0
Thread = Program Call

-- `_socket`
abbrev pub open_socket : SockType → Thread
open_socket unix = call (socket 1 1 0)
open_socket rfcomm = call (socket 31 1 3)
open_socket sco = call (socket 31 5 2)
open_socket l2cap = call (socket 31 5 0)
open_socket tcp = call (socket 2 1 0)

-- `_bind`
abbrev pub bind_socket : ℤ → SockType → Thread
bind_socket fd unix = do call unlinks_local; call (binds fd unix)
bind_socket fd rfcomm = call (binds fd rfcomm)
bind_socket fd sco = call (binds fd sco)
bind_socket fd l2cap = call (binds fd l2cap)
bind_socket fd tcp = call (binds fd tcp)

-- `_listen`
abbrev pub listen_socket : ℤ → Thread
listen_socket fd = call (listens fd 1)

-- The peer that `_connect` writes to the address of a RFCOMM socket.
unfoldable pub peer : SockType → Bytes
peer rfcomm = (get_bdaddr (codes "00:11:22:33:44:55")).1
peer _ = []

-- `_connect`
abbrev pub connect_socket : ℤ → SockType → Thread
connect_socket fd type = call (connects fd type (peer type))

-- `_write`
abbrev pub write_socket : ℤ → Thread
write_socket fd = call (writes fd 69)

-- `_close`, `_read`, `_accept` and `_shutdown`
abbrev pub close_socket : ℤ → Thread
close_socket fd = call (closes fd)

abbrev pub read_socket : ℤ → Thread
read_socket fd = call (reads fd)

abbrev pub accept_socket : ℤ → SockType → Thread
accept_socket fd type = call (accepts fd type)

abbrev pub shut_down_socket : ℤ → Thread
shut_down_socket fd = call (shuts_down fd)

-- `_poll` of one descriptor for `events`, without a time limit
abbrev pub poll_socket : ℤ → ℕ → Thread
poll_socket fd events = call (polls fd events)

abbrev finish : Thread
finish = returns (pos 0)

abbrev pub thread_delay_close : ℤ → ℕ → Thread
thread_delay_close fd delay = do call (sleeps delay); close_socket fd; finish

abbrev pub thread_poll : ℤ → Thread
thread_poll fd = do poll_socket fd 0; finish

abbrev pub thread_read : ℤ → Thread
thread_read fd = do read_socket fd; finish

abbrev pub thread_shutdown : ℤ → Thread
thread_shutdown fd = do call (sleeps 4); shut_down_socket fd; finish

abbrev pub thread_accept : ℤ → SockType → ℕ → Thread
thread_accept fd type delay = do call (sleeps delay); accept_socket fd type; finish

abbrev pub thread_connect : ℤ → SockType → ℕ → Thread
thread_connect fd type delay = do call (sleeps delay); connect_socket fd type; finish

abbrev pub thread_delay_close_write : ℤ → ℕ → Thread
thread_delay_close_write fd delay = do
  call (sleeps delay)
  close_socket fd
  call (sleeps delay)
  write_socket fd
  finish

abbrev pub thread_accept_write : ℤ → SockType → ℕ → Thread
thread_accept_write fd type delay = do
  call (sleeps delay)
  accept_socket fd type
  call (sleeps delay)
  write_socket fd
  finish

-- The thread keeps the new socket to itself: no other one reads `args->fd`.
abbrev pub thread_delay_connect : SockType → ℕ → Thread
thread_delay_connect type delay = do
  call (sleeps delay)
  fd ← open_socket type
  connect_socket fd type
  finish
