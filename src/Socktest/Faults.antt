-- ===== src/Socktest/Faults.antt =====
-- What goes wrong in `do_connected_read1_shutdown1` of tools/socktest.c.
use platform_system_bluetoot.Prelude.{
  ℕ, ◌≡◌, refl, ap, Option, none, List, [], ◌∷◌, ◌++◌, ℤ, pos, minus_one,
}
use platform_system_bluetoot.Threads.Program.{returns, calls, creates, ◌>>=◌}
use platform_system_bluetoot.Threads.System.{
  System, start, main_calls, main_creates, Reach, here, next,
}
use platform_system_bluetoot.Socktest.Calls.{
  SockType, unix, rfcomm, sco, l2cap, tcp, Call, connects, peer, Thread, open_socket, bind_socket,
  thread_accept_write,
}
use platform_system_bluetoot.Socktest.Scenarios.{do_connected_read1_shutdown1}

-- The main thread goes on to `p`, with no other thread started.
abbrev GoesTo : System Call → Thread → List Thread → Type 0
GoesTo s p threads = (t : System Call) × Reach s t × (t.main ≡ p) × (t.threads ≡ threads)

module _ {s : System Call} {threads : List Thread} where
  call-GoesTo :
      (c : Call) (k : ℤ → Thread) (r : ℤ) → GoesTo s (calls c k) threads → GoesTo s (k r) threads
  call-GoesTo c k r (t, reach, e, f) = (_, next reach (main_calls c k r e refl), refl, f)

  creates-GoesTo : (p k : Thread) → GoesTo s (creates p k) threads → GoesTo s k (threads ++ p ∷ [])
  creates-GoesTo p k (t, reach, e, f) =
      (_, next reach (main_creates p k e refl), refl, ap (λ ts. ts ++ p ∷ []) f)

  open_socket-GoesTo :
      (type : SockType) (k : ℤ → Thread) (r : ℤ)
      → GoesTo s (open_socket type >>= k) threads
      → GoesTo s (k r) threads
  open_socket-GoesTo unix k r g = call-GoesTo _ k r g
  open_socket-GoesTo rfcomm k r g = call-GoesTo _ k r g
  open_socket-GoesTo sco k r g = call-GoesTo _ k r g
  open_socket-GoesTo l2cap k r g = call-GoesTo _ k r g
  open_socket-GoesTo tcp k r g = call-GoesTo _ k r g

  bind_socket-GoesTo :
      (fd : ℤ) (type : SockType) (k : ℤ → Thread) (r : ℤ)
      → GoesTo s (bind_socket fd type >>= k) threads
      → GoesTo s (k r) threads
  bind_socket-GoesTo fd unix k r g = call-GoesTo _ k r (call-GoesTo _ _ r g)
  bind_socket-GoesTo fd rfcomm k r g = call-GoesTo _ k r g
  bind_socket-GoesTo fd sco k r g = call-GoesTo _ k r g
  bind_socket-GoesTo fd l2cap k r g = call-GoesTo _ k r g
  bind_socket-GoesTo fd tcp k r g = call-GoesTo _ k r g

-- For every type of socket, `do_connected_read1_shutdown1` has a run whose last call is `connect` on
-- the second socket, which failed, and in which it returns -1 while the thread that accepts has done
-- nothing yet: its argument points to the stack of the function that has returned.
pub do_connected_read1_shutdown1-LeavesThread :
    (rounds : ℕ) (address : ℤ) (type : SockType)
    → (s : System Call) × Reach (start (do_connected_read1_shutdown1 rounds address type)) s
      × (s.main ≡ returns minus_one)
      × (s.threads ≡ thread_accept_write (pos 3) type 0 ∷ [])
      × ((log : List (Option ℕ × Call × ℤ)) × (s.log
            ≡ (none, connects (pos 4) type (peer type), minus_one) ∷ log))
unfolding do_connected_read1_shutdown1
do_connected_read1_shutdown1-LeavesThread rounds address type =
    let begun : GoesTo (start (do_connected_read1_shutdown1 rounds address type))
        (do_connected_read1_shutdown1 rounds address type) [] =
      (_, here, refl, refl) in
    let bound = open_socket-GoesTo type _ (pos 3) begun in
    let listens = bind_socket-GoesTo (pos 3) type _ (pos 0) bound in
    let listened = call-GoesTo _ _ (pos 0) listens in
    let started = creates-GoesTo (thread_accept_write (pos 3) type 0) _ listened in
    let (t, reach, e, f) = open_socket-GoesTo type _ (pos 4) started in
    (_, next reach (main_calls _ _ minus_one e refl), refl, f, (t.log, refl))
