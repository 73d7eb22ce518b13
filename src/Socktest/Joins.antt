-- ===== src/Socktest/Joins.antt =====
-- Which scenarios of tools/socktest.c wait for all their threads.
use platform_system_bluetoot.Prelude.{
  ℕ, zero, suc, ◌+◌, ◌≡◌, refl, sym, subst, Bool, true, false, List, [], ◌∷◌, ◌++◌, ℤ, pos,
  minus_one, is_neg, arith, append_assoc, append-nil,
}
use platform_system_bluetoot.Threads.Program.{returns, call, IsThread, ◌>>=◌, ◌>>◌}
use platform_system_bluetoot.Threads.Joins.{WellJoined, remove_first}
use platform_system_bluetoot.Socktest.Calls.{
  SockType, unix, rfcomm, sco, l2cap, tcp, Thread, Call, closes, shuts_down, sleeps, open_socket,
  bind_socket, thread_poll, thread_read, thread_delay_connect,
}
use platform_system_bluetoot.Socktest.Scenarios.{
  unless_failed, unless_set, unless_minus_one, listening, nonblocking, create_all, join_all, max_t,
  do_accept_and_close, do_accept_shutdown, do_connect_shutdown, do_connectnb_shutdown,
  do_connectnb_close, do_accept_close_write, do_accept_connect_connect, do_poll_poll_poll_shutdown,
  do_poll_poll_poll_close, do_read_read_read_shutdown, do_read_read_read_close,
}

-- From the start of the program, with no thread left.
abbrev pub Joins : Thread → Type 0
Joins p = WellJoined 0 [] p

module _ (n : ℕ) (pending : List ℕ) where
  open_socket-WellJoined :
      (type : SockType) (next : ℤ → Thread)
      → ((fd : ℤ) → WellJoined n pending (next fd))
      → WellJoined n pending (open_socket type >>= next)
  open_socket-WellJoined unix next h = h
  open_socket-WellJoined rfcomm next h = h
  open_socket-WellJoined sco next h = h
  open_socket-WellJoined l2cap next h = h
  open_socket-WellJoined tcp next h = h

  bind_socket-WellJoined :
      (fd : ℤ) (type : SockType) (next : ℤ → Thread)
      → ((ret : ℤ) → WellJoined n pending (next ret))
      → WellJoined n pending (bind_socket fd type >>= next)
  bind_socket-WellJoined fd unix next h = λ _. h
  bind_socket-WellJoined fd rfcomm next h = h
  bind_socket-WellJoined fd sco next h = h
  bind_socket-WellJoined fd l2cap next h = h
  bind_socket-WellJoined fd tcp next h = h

unless_failed-Joins : (ret : ℤ) (p : Thread) → Joins p → Joins (unless_failed ret p)
unless_failed-Joins ret p h = go (is_neg ret)
  where
    go : (b : Bool) → Joins (elim b [ true ↦ returns minus_one | false ↦ p ])
    go true = refl
    go false = h

unless_set-Joins : (ret : ℤ) (p : Thread) → Joins p → Joins (unless_set ret p)
unless_set-Joins (pos zero) p h = h
unless_set-Joins (pos (suc n)) p h = refl
unless_set-Joins (ℤ.negsuc n) p h = refl

unless_minus_one-Joins : (ret : ℤ) (p : Thread) → Joins p → Joins (unless_minus_one ret p)
unless_minus_one-Joins (pos n) p h = h
unless_minus_one-Joins (ℤ.negsuc zero) p h = refl
unless_minus_one-Joins (ℤ.negsuc (suc n)) p h = h

listening-Joins :
    (type : SockType) (next : ℤ → Thread)
    → ((fd : ℤ) → Joins (next fd))
    → Joins (listening type next)
listening-Joins type next h = open_socket-WellJoined 0 [] type _ λ fd. unless_failed-Joins fd _ (
    bind_socket-WellJoined 0 [] fd type _
      λ bound. unless_failed-Joins bound _ λ listens. unless_failed-Joins listens (next fd) (h fd))

nonblocking-Joins :
    (type : SockType) (next : ℤ → Thread)
    → ((fd : ℤ) → Joins (next fd))
    → Joins (nonblocking type next)
nonblocking-Joins type next h = open_socket-WellJoined 0 [] type _ λ fd.
    unless_failed-Joins fd _
      λ flags. unless_minus_one-Joins flags _ λ set. unless_set-Joins set (next fd) (h fd)

-- `from`, … , `from + n - 1`
abbrev range_from : ℕ → ℕ → List ℕ
range_from from zero = []
range_from from (suc n) = from ∷ range_from (from + 1) n

join_all-WellJoined :
    (c from n : ℕ) (next : Thread)
    → WellJoined c [] next
    → WellJoined c (range_from from n) (join_all from n next)
join_all-WellJoined c from zero next h = h
join_all-WellJoined c from (suc n) next h =
    (range_from (from + 1) n, remove_first from _, join_all-WellJoined c (from + 1) n next h)

create_all-WellJoined :
    (n c : ℕ) (pending : List ℕ) (p next : Thread)
    → IsThread p
    → WellJoined (c + n) (pending ++ range_from c n) next
    → WellJoined c pending (create_all n p next)
create_all-WellJoined zero c pending p next simple h =
    subst (λ m. WellJoined m pending next) (let e : c + 0 ≡ c = omega arith in e)
      (subst (λ l. WellJoined (c + 0) l next) (append-nil pending) h)
create_all-WellJoined (suc n) c pending p next simple h = (
  simple,
  create_all-WellJoined n (c + 1) (pending ++ c ∷ []) p next simple (
      subst (λ m. WellJoined m ((pending ++ c ∷ []) ++ range_from (c + 1) n) next)
        (let e : c + suc n ≡ (c + 1) + n = omega arith in e)
        (subst (λ l. WellJoined (c + suc n) l next)
          (sym (append_assoc pending (c ∷ []) (range_from (c + 1) n))) h)),
)

pub do_accept_and_close-Joins : (type : SockType) → Joins (do_accept_and_close type)
unfolding do_accept_and_close
do_accept_and_close-Joins type =
    listening-Joins type _ (λ fd. ((λ _ _. tt), (λ _. ([], refl, refl))))

pub do_accept_shutdown-Joins : (type : SockType) → Joins (do_accept_shutdown type)
unfolding do_accept_shutdown
do_accept_shutdown-Joins type =
    listening-Joins type _ (λ fd. ((λ _ _. tt), (λ _ _. ([], refl, (λ _. refl)))))

pub do_connect_shutdown-Joins : (type : SockType) → Joins (do_connect_shutdown type)
unfolding do_connect_shutdown
do_connect_shutdown-Joins type =
    open_socket-WellJoined 0 [] type _
      λ fd. unless_failed-Joins fd _ ((λ _ _. tt), (λ _ _. ([], refl, (λ _. refl))))

pub do_connectnb_shutdown-Joins : (type : SockType) → Joins (do_connectnb_shutdown type)
unfolding do_connectnb_shutdown
do_connectnb_shutdown-Joins type = nonblocking-Joins type _ (λ fd _ _ _ _ _. refl)

pub do_connectnb_close-Joins : (type : SockType) → Joins (do_connectnb_close type)
unfolding do_connectnb_close
do_connectnb_close-Joins type = nonblocking-Joins type _ (λ fd _ _ _. refl)

pub do_accept_close_write-Joins : (type : SockType) → Joins (do_accept_close_write type)
unfolding do_accept_close_write
do_accept_close_write-Joins type =
    listening-Joins type _ (λ fd. ((λ _ _ _ _. tt), (λ _. ([], refl, refl))))

-- Threads of one kind are started, two calls follow, and the threads are waited for.
create_all-Joins :
    (p last : Thread) (a b : Call)
    → IsThread p
    → WellJoined 32 [] last
    → Joins (create_all max_t p (call a >> call b >> join_all 0 max_t last))
create_all-Joins p last a b simple h =
    create_all-WellJoined 32 0 [] p (call a >> call b >> join_all 0 max_t last) simple
      (λ _ _. join_all-WellJoined 32 0 32 last h)

pub do_poll_poll_poll_shutdown-Joins : (type : SockType) → Joins (do_poll_poll_poll_shutdown type)
unfolding do_poll_poll_poll_shutdown
do_poll_poll_poll_shutdown-Joins type = open_socket-WellJoined 0 [] type _ λ fd.
    create_all-Joins (thread_poll fd) (call (closes fd) >> returns (pos 0)) (sleeps 1)
      (shuts_down fd) (λ _. tt) (λ _. refl)

pub do_poll_poll_poll_close-Joins : (type : SockType) → Joins (do_poll_poll_poll_close type)
unfolding do_poll_poll_poll_close
do_poll_poll_poll_close-Joins type =
    open_socket-WellJoined 0 [] type _ λ fd.
      create_all-Joins (thread_poll fd) (returns (pos 0)) (sleeps 1) (closes fd) (λ _. tt) refl

pub do_read_read_read_close-Joins : (type : SockType) → Joins (do_read_read_read_close type)
unfolding do_read_read_read_close
do_read_read_read_close-Joins type =
    open_socket-WellJoined 0 [] type _ λ fd.
      create_all-Joins (thread_read fd) (returns (pos 0)) (sleeps 1) (closes fd) (λ _. tt) refl

pub do_read_read_read_shutdown-Joins : (type : SockType) → Joins (do_read_read_read_shutdown type)
unfolding do_read_read_read_shutdown
do_read_read_read_shutdown-Joins type = open_socket-WellJoined 0 [] type _ λ fd.
    create_all-Joins (thread_read fd) (call (closes fd) >> returns (pos 0)) (sleeps 1)
      (shuts_down fd) (λ _. tt) (λ _. refl)

thread_delay_connect-IsThread :
    (type : SockType) (delay : ℕ) → IsThread (thread_delay_connect type delay)
thread_delay_connect-IsThread unix delay = λ _ _ _. tt
thread_delay_connect-IsThread rfcomm delay = λ _ _ _. tt
thread_delay_connect-IsThread sco delay = λ _ _ _. tt
thread_delay_connect-IsThread l2cap delay = λ _ _ _. tt
thread_delay_connect-IsThread tcp delay = λ _ _ _. tt

pub do_accept_connect_connect-Joins : (type : SockType) → Joins (do_accept_connect_connect type)
unfolding do_accept_connect_connect
do_accept_connect_connect-Joins type = listening-Joins type _ λ fd. (
  thread_delay_connect-IsThread type 1,
  (thread_delay_connect-IsThread type 2, (λ _. (1 ∷ [], refl, ([], refl, refl)))),
)
