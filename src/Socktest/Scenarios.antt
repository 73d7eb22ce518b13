-- ===== src/Socktest/Scenarios.antt =====
-- The scenarios of tools/socktest.c.
use platform_system_bluetoot.Prelude.{ℕ, zero, suc, ◌+◌, true, false, ℤ, pos, minus_one, is_neg}
use platform_system_bluetoot.Threads.Program.{
  returns, creates, joins, out_of_rounds, call, ◌>>=◌, ◌>>◌,
}
use platform_system_bluetoot.Socktest.Calls.{
  SockType, sleeps, close_socket, read_socket, accept_socket, shut_down_socket, gets_flags,
  sets_nonblock, Thread, open_socket, bind_socket, listen_socket, connect_socket,
  thread_delay_close, thread_poll, thread_read, thread_shutdown, thread_accept, thread_connect,
  thread_delay_close_write, thread_accept_write, thread_delay_connect,
}

-- `if (ret < 0) goto error;`, and what follows.
abbrev pub unless_failed : ℤ → Thread → Thread
unless_failed ret p = elim (is_neg ret) [ true ↦ returns minus_one | false ↦ p ]

-- `if (ret) return -1;`, and what follows.
abbrev pub unless_set : ℤ → Thread → Thread
unless_set (pos zero) p = p
unless_set _ p = returns minus_one

-- `if (ret == -1) return -1;`, and what follows.
abbrev pub unless_minus_one : ℤ → Thread → Thread
unless_minus_one (ℤ.negsuc zero) p = returns minus_one
unless_minus_one _ p = p

-- The first lines of the scenarios that listen: a socket, `_bind` and `_listen`.
abbrev pub listening : SockType → (ℤ → Thread) → Thread
listening type next = do
  fd ← open_socket type
  unless_failed fd (
      bind_socket fd type >>= λ bound.
      unless_failed bound (listen_socket fd >>= λ listens. unless_failed listens (next fd)))

abbrev finish : Thread
finish = returns (pos 0)

-- `MAX_T`
abbrev pub max_t : ℕ
max_t = 32

-- `for (i=0; i<n; i++) pthread_create(&t[i], NULL, p, fd);`
abbrev pub create_all : ℕ → Thread → Thread → Thread
create_all zero p next = next
create_all (suc n) p next = creates p (create_all n p next)

-- `for (i=from; i<from+n; i++) pthread_join(t[i], NULL);`
abbrev pub join_all : ℕ → ℕ → Thread → Thread
join_all from zero next = next
join_all from (suc n) next = joins from (join_all (from + 1) n next)

-- The endless loop, for so many rounds.
unfoldable pub accept_all : ℕ → ℤ → SockType → Thread
accept_all zero fd type = out_of_rounds
accept_all (suc rounds) fd type = accept_socket fd type >>= λ _. accept_all rounds fd type

unfoldable pub do_accept_accept_accept : ℕ → SockType → Thread
do_accept_accept_accept rounds type = listening type λ fd. accept_all rounds fd type

unfoldable pub do_accept_and_close : SockType → Thread
do_accept_and_close type =
    listening type λ fd. creates (thread_delay_close fd 1) (accept_socket fd type >> joins 0 finish)

unfoldable pub do_accept_shutdown : SockType → Thread
do_accept_shutdown type = listening type λ fd.
    creates (thread_accept fd type 0)
      (call (sleeps 4) >> shut_down_socket fd >> joins 0 (close_socket fd >> finish))

unfoldable pub do_connect_shutdown : SockType → Thread
do_connect_shutdown type = open_socket type >>= λ fd. unless_failed fd (
    creates (thread_connect fd type 0)
      (call (sleeps 4) >> shut_down_socket fd >> joins 0 (close_socket fd >> finish)))

-- The socket is made non-blocking, and what follows.
abbrev pub nonblocking : SockType → (ℤ → Thread) → Thread
nonblocking type next = open_socket type >>= λ fd. unless_failed fd (
    call (gets_flags fd) >>= λ flags.
    unless_minus_one flags (call (sets_nonblock fd flags) >>= λ set. unless_set set (next fd)))

unfoldable pub do_connectnb_shutdown : SockType → Thread
do_connectnb_shutdown type = nonblocking type λ fd. do
  connect_socket fd type
  call (sleeps 1)
  shut_down_socket fd
  call (sleeps 2)
  close_socket fd
  finish

unfoldable pub do_connectnb_close : SockType → Thread
do_connectnb_close type =
    nonblocking type λ fd. do connect_socket fd type; call (sleeps 2); close_socket fd; finish

unfoldable pub do_accept_close_write : SockType → Thread
do_accept_close_write type =
    listening type
      λ fd. creates (thread_delay_close_write fd 1) (accept_socket fd type >> joins 0 finish)

unfoldable pub do_poll_poll_poll_shutdown : SockType → Thread
do_poll_poll_poll_shutdown type = open_socket type >>= λ fd.
    create_all max_t (thread_poll fd)
      (call (sleeps 1) >> shut_down_socket fd >> join_all 0 max_t (close_socket fd >> finish))

unfoldable pub do_poll_poll_poll_close : SockType → Thread
do_poll_poll_poll_close type = open_socket type >>= λ fd.
    create_all max_t (thread_poll fd)
      (call (sleeps 1) >> close_socket fd >> join_all 0 max_t finish)

unfoldable pub do_read_read_read_close : SockType → Thread
do_read_read_read_close type = open_socket type >>= λ fd.
    create_all max_t (thread_read fd)
      (call (sleeps 1) >> close_socket fd >> join_all 0 max_t finish)

unfoldable pub do_read_read_read_shutdown : SockType → Thread
do_read_read_read_shutdown type = open_socket type >>= λ fd.
    create_all max_t (thread_read fd)
      (call (sleeps 1) >> shut_down_socket fd >> join_all 0 max_t (close_socket fd >> finish))

-- `while (1) if (_read(fd)) break;`, for so many rounds, and what follows.
unfoldable pub read_until : ℕ → ℤ → Thread → Thread
read_until zero fd next = out_of_rounds
read_until (suc rounds) fd next = read_socket fd >>= λ r. elim r [
  | pos n ↦ elim n [ zero ↦ read_until rounds fd next | suc _ ↦ next ]
  | ℤ.negsuc _ ↦ next
]

-- `address` is the number of `&fd2`: the second thread is given the pointer in place of `fd2`.
unfoldable pub do_connected_read1_shutdown1 : ℕ → ℤ → SockType → Thread
do_connected_read1_shutdown1 rounds address type = listening type λ fd1.
    creates (thread_accept_write fd1 type 0) (
      open_socket type >>= λ fd2. connect_socket fd2 type >>= λ connected.
      unless_set connected
        (creates (thread_shutdown address) (read_until rounds fd2 (joins 0 (joins 1 finish)))))

unfoldable pub do_accept_connect_connect : SockType → Thread
do_accept_connect_connect type = listening type λ fd.
    creates (thread_delay_connect type 1)
      (creates (thread_delay_connect type 2) (accept_socket fd type >> joins 0 (joins 1 finish)))
